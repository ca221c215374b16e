-- ===== src/Client/Wrapper.antt =====
-- The client behind the callbacks of src/shared/msquic_wrapper.c: what `main` of src/client/client.c
-- passes to `sqmp_quic_init`. Its `on_connected` only prints.
use squimpchat.Base.{none, some, ok}
use squimpchat.Quic.Callbacks.{Callbacks}
use squimpchat.Client.{Client, on_stream_recv, on_disconnected}
use squimpchat.Client.Crypto.{OpenSsl}

unfoldable pub client_app : OpenSsl → Callbacks Client
client_app o = record {
  net = λ c. c.net;
  set_net = λ n c. record c { net = n };
  on_connected = some λ conn c. ok c;
  on_disconnected = some λ conn c. ok (on_disconnected c);
  on_stream_open = none;
  on_stream_recv = some (on_stream_recv o);
  on_stream_peer_send_done = none;
  on_stream_closed = none;
}
