-- ===== src/Server/Tests/Wrapper.antt =====
-- Runs of the wrapper's callbacks at the server (src/shared/msquic_wrapper.c, src/server/server.c).
use squimpchat.Base.{true, some, ◌≡◌, refl, false, none, [], ◌∷◌, Run, ok, fault, Succeeds}
use squimpchat.Session.{Session, hello, zero_session, write}
use squimpchat.Net.{
  Net, Conn, Resource, stream_set_user_data, conn_get_user_data, conn_set_user_data,
}
use squimpchat.Quic.Held.{held, release, after_call, same_resource}
use squimpchat.Quic.Callbacks.{
  peer_stream_started, stream_shutdown_complete, ConnEvent, conn_cb, stream_cb, conn_connected,
  change_conn, modify_conn, stream_started, listener_cb,
}
use squimpchat.Server.{Server}
use squimpchat.Server.Callbacks.{on_disconnected, on_connected, on_stream_open}
use squimpchat.Server.Login.{dequeued}
use squimpchat.Server.Race.{taken, authenticate-freed}
use squimpchat.Server.Worker.{authenticate, handle_pending}
use squimpchat.Server.Wrapper.{server_app}
use squimpchat.Server.Setup.{Ready, set_up, set_up-Ready}
use squimpchat.Server.Handles.{Started, Ended, conn_cb-Started, stream_cb-Ended}
use squimpchat.Server.Tests.{net, willing, server, at_login}

abbrev none_open : Net
none_open = net willing

set_up-Ready_example : Ready [] (set_up none_open)
unfolding held
set_up-Ready_example = set_up-Ready none_open [] refl

abbrev value : Run Server → Server → Server
value (ok sv) d = sv
value fault d = d

-- A server that has accepted a connection with the handle 70, whose client has then started the stream 77.
abbrev accepted : Server
accepted = record (server at_login willing) { net = (listener_cb (some 70) (net willing)).1 }

abbrev up : Server
up = value (conn_cb server_app 1000 ConnEvent.connected accepted) accepted

-- The stream is at 1003, the session at 1002.
abbrev with_stream : Server
with_stream = value (conn_cb server_app 1000 (peer_stream_started 77) up) up

abbrev conn_up : Conn
conn_up = record {
  handle = 70;
  connect_sem = 1;
  closed_sem = 0;
  connected = true;
  is_server = true;
  user_data = some 1002;
}

abbrev new : Session
new = record zero_session { state = hello }

conn_cb-Started_example :
    Succeeds
      (Started true 77 1000 conn_up (Resource.connection 70 ∷ []) up)
      (conn_cb server_app 1000 (peer_stream_started 77) up)
unfolding held release after_call same_resource listener_cb conn_cb conn_connected change_conn
    modify_conn stream_started server_app on_connected on_stream_open conn_set_user_data
    conn_get_user_data stream_set_user_data write
conn_cb-Started_example =
    conn_cb-Started 1000 77 up (Resource.connection 70 ∷ []) {c = conn_up} refl refl refl

-- The stream ends.
stream_cb-Ended_example :
    Succeeds
      (Ended 77 1003 1002 false new
        (Resource.stream 77 ∷ Resource.connection 70 ∷ [])
        (Resource.connection 70 ∷ [])
        with_stream)
      (stream_cb server_app 77 1003 (stream_shutdown_complete false) with_stream)
unfolding held release after_call same_resource listener_cb conn_cb conn_connected change_conn
    modify_conn stream_started server_app on_connected on_stream_open conn_set_user_data
    conn_get_user_data stream_set_user_data write
stream_cb-Ended_example =
    stream_cb-Ended 77 1003 1002 false with_stream
      (Resource.stream 77 ∷ Resource.connection 70 ∷ []) (Resource.connection 70 ∷ []) {c = conn_up}
      refl refl refl refl refl refl

authenticate-freed_example :
    (handle_pending none 300 (server at_login willing)
      ≡ authenticate none 300 (dequeued at_login) (taken 300 at_login (server at_login willing)))
    × (sv2 : Server) × (on_disconnected 30 (taken 300 at_login (server at_login willing)) ≡ ok sv2)
    × (authenticate none 300 (dequeued at_login) sv2 ≡ fault)
authenticate-freed_example =
    authenticate-freed none 30 300 (server at_login willing) at_login refl refl refl refl refl
