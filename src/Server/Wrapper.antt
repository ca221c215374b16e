-- ===== src/Server/Wrapper.antt =====
-- The server behind the callbacks of src/shared/msquic_wrapper.c: what src/server/server.c passes to
-- `sqmp_quic_init`, and the receive event with it.
use squimpchat.Base.{ℕ, ◌≡◌, refl, none, some, List, if◌then◌else◌}
use squimpchat.Net.{answer, asked, given}
use squimpchat.Net.Send.{IsOpen}
use squimpchat.Quic.Callbacks.{Callbacks, receive, stream_cb, stream_receive}
use squimpchat.Server.{Server}
use squimpchat.Server.Callbacks.{
  on_connected, on_stream_open, on_stream_recv, on_stream_closed, on_disconnected,
  stream_cb_receive,
}

-- The configuration of the server. The callback for a connection calls `calloc` first.
unfoldable pub server_app : Callbacks Server
server_app = record {
  net = λ sv. sv.net;
  set_net = λ n sv. record sv { net = n };
  on_connected = some λ conn sv.
      on_connected conn (if answer sv.net then some (given sv.net) else none)
        (record sv { net = asked sv.net });
  on_disconnected = some on_disconnected;
  on_stream_open = some on_stream_open;
  on_stream_recv = some on_stream_recv;
  on_stream_peer_send_done = none;
  on_stream_closed = some on_stream_closed;
}

-- On a stream that is open, with its connection, the receive event of the wrapper is the server's
-- packet handler on the buffers put together.
pub stream_cb-stream_cb_receive :
    (handle p : ℕ) (buffers : List (List ℕ)) (sv : Server)
    → IsOpen p sv.net
    → stream_cb server_app handle p (receive buffers) sv ≡ stream_cb_receive p buffers sv
unfolding stream_cb stream_receive stream_cb_receive server_app
stream_cb-stream_cb_receive handle p buffers sv o = rw (o.at, o.over) refl
