-- ===== src/Quic/Callbacks.antt =====
-- The callbacks of src/shared/msquic_wrapper.c that MsQuic's threads call: `stream_cb`, `conn_cb` and
-- `listener_cb`. The program behind them is an interface: its state, and the functions that
-- `sqmp_quic_config_t` names. What the wrapper prints is left out.
use squimpchat.Base.{
  ℕ, ◌+◌, Bool, true, false, Option, none, some, List, [], ◌∷◌, ◌++◌, if◌then◌else◌, negate, length,
  Run, ok, ◌>>=◌, deref,
}
use squimpchat.Net.{
  Net, Conn, Stream, Resource, close_call, handed_over, answer, asked, given, log, write_stream,
  write_conn,
}
use squimpchat.Wire.{join}

-- `sqmp_quic_config_t`, and where the program's state keeps connections and streams.
pub record Callbacks (S : Type 0) : Type 0 where
  pub net : S → Net
  pub set_net : Net → S → S
  pub on_connected : Option (ℕ → S → Run S)
  pub on_disconnected : Option (ℕ → S → Run S)
  pub on_stream_open : Option (ℕ → ℕ → S → Run S)
  pub on_stream_recv : Option (ℕ → List ℕ → ℕ → S → Run S)
  pub on_stream_peer_send_done : Option (ℕ → S → Run S)
  pub on_stream_closed : Option (ℕ → S → Run S)

-- `QUIC_STREAM_EVENT`: the received buffers, the sent one's pointer, `AppCloseInProgress`.
pub data StreamEvent : Type 0 where
  receive : List (List ℕ) → StreamEvent
  peer_send_shutdown : StreamEvent
  send_complete : StreamEvent
  stream_shutdown_complete : Bool → StreamEvent
  other_stream_event : StreamEvent

-- `QUIC_CONNECTION_EVENT`, with the handle of a stream that the peer has started.
pub data ConnEvent : Type 0 where
  connected : ConnEvent
  shutdown_by_transport : ConnEvent
  shutdown_by_peer : ConnEvent
  shutdown_complete : ConnEvent
  peer_stream_started : ℕ → ConnEvent
  other_conn_event : ConnEvent

-- A callback that may be NULL.
abbrev call : {S : Type 0} → Option (S → Run S) → S → Run S
call none s = ok s
call (some f) s = f s

abbrev at : {A B : Type 0} → A → Option (A → B) → Option B
at a none = none
at a (some f) = some (f a)

-- A change of the connection at an address.
unfoldable pub modify_conn : ℕ → (Conn → Conn) → Net → Run Net
modify_conn p f n = do
  c ← deref (n.conns p)
  ok (record n { conns = write_conn n.conns p (some (f c)) })

-- `sem_post(&conn->connect_sem)`
abbrev pub post_connect : Conn → Conn
post_connect c = record c { connect_sem = c.connect_sem + 1 }

-- `sem_post(&conn->closed_sem)`
abbrev pub post_closed : Conn → Conn
post_closed c = record c { closed_sem = c.closed_sem + 1 }

-- `ConnectionClose` and `free`.
unfoldable pub close_conn : ℕ → Conn → Net → Net
close_conn p c n = record (log (close_call (Resource.connection c.handle)) n) {
  conns = write_conn n.conns p none;
}

module _ {S : Type 0} (app : Callbacks S) where
  unfoldable pub change_conn : ℕ → (Conn → Conn) → S → Run S
  unfolding modify_conn
  change_conn p f s = do n ← modify_conn p f (app.net s); ok (app.set_net n s)

  -- The case `QUIC_STREAM_EVENT_RECEIVE`: MsQuic's buffers are put one behind the other, and a 0 byte
  -- behind them. Their lengths add up to the total.
  unfoldable pub stream_receive : ℕ → List (List ℕ) → S → Run S
  stream_receive p buffers s =
      let n = app.net s in
      let s1 = app.set_net (asked n) s in
      let flat = join buffers in
      if answer n
      then call (at (length flat) (at (flat ++ 0 ∷ []) (at p app.on_stream_recv))) s1
      else ok s1

  -- The case `QUIC_STREAM_EVENT_SHUTDOWN_COMPLETE`, for the handle that MsQuic passes.
  unfoldable pub stream_done : ℕ → ℕ → Bool → S → Run S
  stream_done handle p app_close s = do
    s1 ← call (at p app.on_stream_closed) s
    let n = app.net s1
    let n1 = if app_close then n else log (close_call (Resource.stream handle)) n
    st ← deref (n.streams p)
    ok (app.set_net (record n1 { streams = write_stream n.streams p none }) s1)

  -- `stream_cb`. What a completed send frees is no part of the model: `stream_send` keeps its buffer
  -- as a value.
  unfoldable pub stream_cb : ℕ → ℕ → StreamEvent → S → Run S
  unfolding stream_receive stream_done
  stream_cb handle p event s = do
    st ← deref ((app.net s).streams p)
    c ← deref ((app.net s).conns st.conn)
    elim event [
      | receive buffers ↦ stream_receive p buffers s
      | peer_send_shutdown ↦ call (at p app.on_stream_peer_send_done) s
      | send_complete ↦ ok s
      | stream_shutdown_complete app_close ↦ stream_done handle p app_close s
      | other_stream_event ↦ ok s
    ]

  -- The case `QUIC_CONNECTION_EVENT_CONNECTED`
  unfoldable pub conn_connected : ℕ → S → Run S
  unfolding change_conn
  conn_connected p s = do
    s1 ← change_conn p (λ c. record c { connected = true }) s
    s2 ← call (at p app.on_connected) s1
    change_conn p post_connect s2

  -- The end of the case `QUIC_CONNECTION_EVENT_SHUTDOWN_COMPLETE`: the server closes and frees the
  -- connection, the client's `sqmp_quic_connect` or `sqmp_quic_disconnect` is woken.
  unfoldable pub conn_ended : ℕ → S → Run S
  unfolding change_conn close_conn
  conn_ended p s = do
    c ← deref ((app.net s).conns p)
    let closed = app.set_net (close_conn p c (app.net s)) s
    let woken = change_conn p post_closed s
    if c.is_server then ok closed else woken

  -- The case `QUIC_CONNECTION_EVENT_SHUTDOWN_COMPLETE`
  unfoldable pub conn_done : ℕ → Conn → S → Run S
  unfolding conn_ended
  conn_done p c s = do
    s1 ← if c.connected then call (at p app.on_disconnected) s else ok s
    conn_ended p s1

  -- The stream that `conn_cb` makes for a handle.
  abbrev pub peer_stream : ℕ → ℕ → Stream
  peer_stream p handle = record { handle = handle; conn = p; user_data = none }

  -- The case `QUIC_CONNECTION_EVENT_PEER_STREAM_STARTED`, which hands over a stream. Without
  -- memory, the handle of the stream is closed as if it were one of a connection.
  unfoldable pub stream_started : ℕ → ℕ → S → Run S
  stream_started p handle s =
      let n = log (handed_over (Resource.stream handle)) (app.net s) in
      let q = given n in
      let no_room = app.set_net (log (close_call (Resource.connection handle)) (asked n)) s in
      let made =
        app.set_net
          (record (asked n) { streams = write_stream n.streams q (some (peer_stream p handle)) })
          s in
      if negate (answer n) then ok no_room else call (at q (at p app.on_stream_open)) made

  -- `conn_cb`
  unfoldable pub conn_cb : ℕ → ConnEvent → S → Run S
  unfolding conn_connected change_conn conn_done stream_started
  conn_cb p event s = do
    c ← deref ((app.net s).conns p)
    elim event [
      | connected ↦ conn_connected p s
      | shutdown_by_transport ↦ if c.connected then ok s else change_conn p post_connect s
      | shutdown_by_peer ↦ ok s
      | shutdown_complete ↦ conn_done p c s
      | peer_stream_started handle ↦ stream_started p handle s
      | other_conn_event ↦ ok s
    ]

-- What `listener_cb` returns.
pub data ListenerStatus : Type 0 where
  success out_of_memory internal_error : ListenerStatus

-- `listener_cb` for a new connection with its handle, or another event. The connection is handed over
-- when it gets its callback.
unfoldable pub listener_cb : Option ℕ → Net → ListenerStatus × Net
unfolding close_conn
listener_cb none n = (success, n)
listener_cb (some handle) n =
    let p = given n in
    let c : Conn = record {
      handle = handle;
      connect_sem = 0;
      closed_sem = 0;
      connected = false;
      is_server = true;
      user_data = none;
    } in
    let n1 =
      log (handed_over (Resource.connection handle))
        (record (asked n) { conns = write_conn n.conns p (some c) }) in
    if negate (answer n)
    then (out_of_memory, asked n)
    else if negate (answer n1)
    then (internal_error, close_conn p c (asked n1))
    else (success, asked n1)
