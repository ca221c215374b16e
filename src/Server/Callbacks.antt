-- ===== src/Server/Callbacks.antt =====
-- The callbacks of src/server/server.c that MsQuic's threads make: connections, streams and packets.
use squimpchat.Base.{
  ℕ, true, Option, none, some, List, [], ◌∷◌, ◌++◌, ltb, ◌==◌, if◌then◌else◌, length, Run, ok,
  ◌>>=◌, deref,
}
use squimpchat.Session.{Session, hello, is_established, zero_session, write}
use squimpchat.Registry.{registry_remove}
use squimpchat.Net.{
  answer, asked, stream_get_user_data, stream_set_user_data, conn_get_user_data, conn_set_user_data,
}
use squimpchat.Wire.{
  join, pkt_fixed_len, msg_type_at, type_hello, type_auth_req, type_key_req, type_chat_send,
  type_error, type_bye,
}
use squimpchat.Server.{Server, modify_session}
use squimpchat.Server.Handlers.{
  process_error, process_hello, process_auth_req, process_bye, process_key_req, process_chat_send,
}

-- `on_connected`; `alloc` is what `calloc` returns, NULL or the address of a new session.
unfoldable pub on_connected : ℕ → Option ℕ → Server → Run Server
on_connected conn none sv = ok sv
on_connected conn (some p) sv = do
  n ← conn_set_user_data conn (some p) sv.net
  ok (record sv {
    sessions = write sv.sessions p (some (record zero_session { state = hello }));
    net = n;
  })

-- `on_stream_open`
unfoldable pub on_stream_open : ℕ → ℕ → Server → Run Server
on_stream_open conn stream sv = do
  d ← conn_get_user_data conn sv.net
  n ← stream_set_user_data stream d sv.net
  ok (record sv { net = n })

-- `on_stream_closed`
unfoldable pub on_stream_closed : ℕ → Server → Run Server
on_stream_closed stream sv = do
  d ← stream_get_user_data stream sv.net
  elim d [
    | none ↦ ok sv
    | some p ↦ modify_session (some p) (λ s. record s { auth_stream = none }) sv
  ]

-- The `switch` of `on_stream_recv`
unfoldable pub dispatch : ℕ → ℕ → Option ℕ → List ℕ → Server → Run Server
dispatch msg_type stream sp pkt sv =
    if msg_type == type_hello
    then process_hello stream sp pkt sv
    else if msg_type == type_auth_req
    then process_auth_req stream sp pkt sv
    else if msg_type == type_key_req
    then process_key_req stream sp pkt sv
    else if msg_type == type_chat_send
    then process_chat_send stream sp pkt sv
    else if msg_type == type_error
    then process_error stream sp pkt sv
    else if msg_type == type_bye
    then process_bye sp sv
    else ok sv

-- `on_stream_recv`; `pkt` is the buffer that `data` leads to, in which `len` bytes count.
unfoldable pub on_stream_recv : ℕ → List ℕ → ℕ → Server → Run Server
unfolding dispatch
on_stream_recv stream pkt len sv = if ltb len pkt_fixed_len then ok sv else (do
  sp ← stream_get_user_data stream sv.net
  t ← msg_type_at pkt
  dispatch t stream sp pkt sv)

-- The case `QUIC_STREAM_EVENT_RECEIVE` of `stream_cb` in src/shared/msquic_wrapper.c: MsQuic's
-- buffers are put one behind the other, and a 0 byte behind them. Their lengths add up to the total.
unfoldable pub stream_cb_receive : ℕ → List (List ℕ) → Server → Run Server
unfolding on_stream_recv
stream_cb_receive stream buffers sv =
    let sv1 = record sv { net = asked sv.net } in
    if answer sv.net
    then on_stream_recv stream (join buffers ++ 0 ∷ []) (length (join buffers)) sv1
    else ok sv1

unfoldable pub drop_session : ℕ → Session → Server → Run Server
drop_session p s sv = do
  r ←
      if is_established s.state
      then registry_remove s.username s.username_len sv.registry
      else ok sv.registry
  ok (record sv { registry = r; sessions = write sv.sessions p none })

-- A session that waits for the worker is marked and is not freed.
unfoldable pub leave : ℕ → Session → Server → Run Server
unfolding drop_session
leave p s sv =
    if s.auth_queued
    then modify_session (some p) (λ t. record t { conn_closed = true }) sv
    else drop_session p s sv

-- `on_disconnected`
unfoldable pub on_disconnected : ℕ → Server → Run Server
unfolding leave
on_disconnected conn sv = do
  d ← conn_get_user_data conn sv.net
  elim d [ none ↦ ok sv | some p ↦ (do s ← deref (sv.sessions p); leave p s sv) ]
