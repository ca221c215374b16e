-- ===== src/Client/Tests/Setup.antt =====
-- Runs of the client's set-up and of its waits (src/client/client.c, src/shared/msquic_wrapper.c).
use squimpchat.Base.{
  ◌++◌, ◌↔◌, ◌≡◌, refl, none, some, [], ◌∷◌, codes, Succeeds, ◌==◌, if◌then◌else◌, ◌>>=◌, ok, fault,
  arith,
}
use squimpchat.Session.{hello, auth}
use squimpchat.Quic.Held.{held}
use squimpchat.Quic.Callbacks.{
  shutdown_by_peer, shutdown_complete, peer_stream_started, receive, conn_cb, stream_cb,
}
use squimpchat.Quic.Connect.{new_conn, connecting}
use squimpchat.Net.{stream_get_user_data}
use squimpchat.Server.Tests.{net, willing}
use squimpchat.Client.{dispatch_packet, Client, on_stream_recv, process_hello_ack}
use squimpchat.Client.Wrapper.{client_app}
use squimpchat.Client.Orphan.{with_stream, conn_cb-stream_cb}
use squimpchat.Client.Handled.{Handled, on_stream_recv-Handled}
use squimpchat.Wire.{msg_type_at, session_id_at, uint_at, bytes_at}
use squimpchat.Wire.Packets.{hello_ack_packet}
use squimpchat.Client.Waits.{conn_events, connect_turns, connect_turns-progress}
use squimpchat.Client.Main.{begin_main}
use squimpchat.Client.Started.{Begun, begin_main-Begun}
use squimpchat.Client.Commands.{message, parse_command}
use squimpchat.Client.Parsed.{IsMessage, parse_command-IsMessage}
use squimpchat.Client.Tests.{openssl, client}

begin_main-Begun_example : Begun [] (begin_main (client hello).net)
unfolding held
begin_main-Begun_example = begin_main-Begun (client hello).net [] refl

-- A client that waits for the connection 7.
abbrev waiting : Client
waiting = record (client hello) {
  net = record (client hello).net { conns = λ a. if a == 7 then some (new_conn 5) else none };
}

-- The server shuts the connection down before it is connected: the client waits forever.
connect_turns-progress_example :
    Succeeds
      (λ r. r.0 ≡ connecting 7)
      (conn_events openssl 7 (shutdown_by_peer ∷ shutdown_complete ∷ []) waiting >>= λ s1.
        connect_turns 7 s1.net)
connect_turns-progress_example =
    connect_turns-progress openssl 7 5 (shutdown_by_peer ∷ shutdown_complete ∷ []) waiting refl

parse_command-IsMessage_example :
    (parse_command (codes "bob hi there") ≡ message (codes "bob") (codes "hi there"))
    ↔ IsMessage (codes "bob hi there") (codes "bob") (codes "hi there")
parse_command-IsMessage_example =
    parse_command-IsMessage (codes "bob hi there") (codes "bob") (codes "hi there")

-- A client whose stream is 3.
abbrev new : Client
new = record (client hello) { net = net willing }

-- A HELLO_ACK for the session 7 comes in.
on_stream_recv-Handled_example :
    Handled new (record new {
      session = record new.session { session_id = 7; state = auth; login_ready = 1 };
    })
unfolding on_stream_recv dispatch_packet stream_get_user_data process_hello_ack msg_type_at
    session_id_at uint_at bytes_at hello_ack_packet
on_stream_recv-Handled_example =
    on_stream_recv-Handled openssl 3 (hello_ack_packet 7 ++ 0 ∷ []) 19 {c = new} refl

-- The server starts the stream 5 on the connection 10, and sends a HELLO_ACK on it.
conn_cb-stream_cb_example :
    (conn_cb (client_app openssl) 10 (peer_stream_started 5) new ≡ ok (with_stream 10 5 new))
    × (stream_cb
          (client_app openssl)
          5
          1000
          (receive (hello_ack_packet 7 ∷ []))
          (with_stream 10 5 new)
        ≡ fault)
unfolding msg_type_at uint_at bytes_at hello_ack_packet
conn_cb-stream_cb_example =
    conn_cb-stream_cb openssl 10 5 2 (hello_ack_packet 7 ∷ []) new refl refl refl (omega arith) refl
      refl
