-- ===== src/Quic/Connect.antt =====
-- Connections and streams that the program opens: `sqmp_quic_connect`, `sqmp_quic_disconnect`,
-- `sqmp_stream_open` and what ends a stream, of src/shared/msquic_wrapper.c. `sqmp_quic_connect` and
-- `sqmp_quic_disconnect` are divided where they wait: a turn goes on if the semaphore lets it, and
-- leaves everything as it is if not. A signal only makes a wait begin anew.
use squimpchat.Base.{
  ℕ, ◌-◌, Bool, true, false, Option, none, some, ◌∷◌, ◌==◌, if◌then◌else◌, negate, Run, ok, ◌>>=◌,
  deref,
}
use squimpchat.Net.{
  Net, Conn, Stream, Resource, open_call, start_call, shutdown_call, close_call, answer, asked,
  given, log, write_conn, write_stream, open_stream,
}
use squimpchat.Quic.{Ctx, connect_settings, configured}
use squimpchat.Quic.Callbacks.{close_conn}

-- A connection that the client has allocated, with its handle.
abbrev pub new_conn : ℕ → Conn
new_conn handle = record {
  handle = handle;
  connect_sem = 0;
  closed_sem = 0;
  connected = false;
  is_server = false;
  user_data = none;
}

-- `sqmp_quic_connect` up to its wait: the connection that is started, or `none` if it returns NULL.
unfoldable pub connect_begin : Ctx → Net → Option ℕ × Ctx × Net
unfolding connect_settings close_conn
connect_begin c n =
    let c1 = record c { config = some (given n) } in
    let n1 = configured (connect_settings c.idle_timeout_ms) n in
    let n2 = asked n1 in
    let p = given n2 in
    let n3 = asked n2 in
    let h = given n3 in
    let n4 = asked n3 in
    let n5 = record (log (open_call (Resource.connection h)) n4) {
      conns = write_conn n.conns p (some (new_conn h));
    } in
    let n6 = asked n5 in
    if negate (answer n)
    then (none, c, asked n)
    else if negate (answer n1)
    then (none, c1, n2)
    else if negate (answer n2)
    then (none, c1, n3)
    else if negate (answer n3)
    then (none, c1, record n4 { conns = write_conn n.conns p none })
    else if negate (answer n5)
    then (none, c1, close_conn p (new_conn h) n6)
    else (some p, c1, log (start_call (Resource.connection h)) n6)

-- Where `sqmp_quic_connect` is: in its first wait, in its second, or back, with what it returns.
pub data Progress : Type 0 where
  connecting closing : ℕ → Progress
  returned : Option ℕ → Progress

-- Behind the first wait.
abbrev after_connect : ℕ → Conn → Progress
after_connect p c = if c.connected then returned (some p) else closing p

-- A turn of the thread that is in `sqmp_quic_connect`.
unfoldable pub connect_turn : Progress → Net → Run (Progress × Net)
unfolding close_conn
connect_turn (connecting p) n = do
  c ← deref (n.conns p)
  let taken = record c { connect_sem = c.connect_sem - 1 }
  ok (
      if c.connect_sem == 0
      then (connecting p, n)
      else (after_connect p c, record n { conns = write_conn n.conns p (some taken) }))
connect_turn (closing p) n = do
  c ← deref (n.conns p)
  ok (if c.closed_sem == 0 then (closing p, n) else (returned none, close_conn p c n))
connect_turn (returned r) n = ok (returned r, n)

-- `sqmp_quic_disconnect` up to its wait.
unfoldable pub disconnect_begin : Option ℕ → Net → Run Net
disconnect_begin none n = ok n
disconnect_begin (some p) n = do
  c ← deref (n.conns p)
  ok (record (log (shutdown_call (Resource.connection c.handle)) n) { shutdowns = p ∷ n.shutdowns })

-- A turn of the thread that waits in `sqmp_quic_disconnect`: `true` if it returns.
unfoldable pub disconnect_turn : ℕ → Net → Run (Bool × Net)
unfolding close_conn
disconnect_turn p n = do
  c ← deref (n.conns p)
  ok (if c.closed_sem == 0 then (false, n) else (true, close_conn p c n))

-- `sqmp_stream_open`: `none` for NULL.
unfoldable pub stream_open : ℕ → Net → Run (Option ℕ × Net)
stream_open p n = do
  let q = given n
  let n1 = asked n
  let h = given n1
  let st : Stream = record { handle = h; conn = p; user_data = none }
  let n2 = asked n1
  let n3 = record (log (open_call (Resource.stream h)) n2) {
    streams = write_stream n.streams q (some st);
  }
  let n4 = asked n3
  let freed = write_stream n.streams q none
  if negate (answer n) then ok (none, n1) else (do
    c ← deref (n.conns p)
    ok (
        if negate (answer n1)
        then (none, record n2 { streams = freed })
        else if negate (answer n3)
        then (none, record (log (close_call (Resource.stream h)) n4) { streams = freed })
        else (some q, log (start_call (Resource.stream h)) n4)))

-- `sqmp_stream_send_done`
unfoldable pub stream_send_done : ℕ → Net → Run Net
unfolding open_stream
stream_send_done p n = do
  st ← open_stream p n
  ok (log (shutdown_call (Resource.stream st.handle)) n)

-- `sqmp_stream_close`
unfoldable pub stream_close : ℕ → Net → Run Net
unfolding stream_send_done
stream_close p n = do
  n1 ← stream_send_done p n
  st ← deref (n1.streams p)
  ok (log (close_call (Resource.stream st.handle)) n1)
