-- ===== src/Client/Orphan.antt =====
-- A stream that the server starts has no session at the client (`conn_cb` of src/shared/msquic_wrapper.c,
-- `on_stream_recv` of src/client/client.c).
use squimpchat.Base.{
  ℕ, ◌≤◌, ◌≡◌, refl, Bool, true, false, ◌||◌, none, some, List, [], ◌∷◌, ◌++◌, arith, ◌==◌, ==_refl,
  ltb, length, ok, fault, if_true,
}
use squimpchat.Net.{
  Conn, Resource, Stream, log, handed_over, write_stream, answer, asked, given,
  stream_get_user_data,
}
use squimpchat.Wire.{
  join, msg_type_at, pkt_fixed_len, type_hello_ack, type_auth_resp, type_key_resp,
  type_chat_deliver,
}
use squimpchat.Quic.Callbacks.{
  peer_stream_started, receive, conn_cb, stream_cb, stream_started, stream_receive,
}
use squimpchat.Client.{Client, dispatch_packet, on_stream_recv}
use squimpchat.Client.Crypto.{OpenSsl}
use squimpchat.Client.Wrapper.{client_app}

-- The types whose handlers read the session.
abbrev pub reads_session : ℕ → Bool
reads_session t =
    t == type_hello_ack || t == type_auth_resp || t == type_key_resp || t == type_chat_deliver

dispatch_packet_null :
    (o : OpenSsl) (t p : ℕ) (pkt : List ℕ) (c : Client)
    → reads_session t ≡ true
    → dispatch_packet o t p none pkt c ≡ fault
unfolding dispatch_packet
dispatch_packet_null o t p pkt c h = ground arith

long_packet : (n : ℕ) → pkt_fixed_len ≤ n → ltb n pkt_fixed_len ≡ false
long_packet n h = ground arith

abbrev orphan : ℕ → ℕ → Stream
orphan p handle = record { handle = handle; conn = p; user_data = none }

-- The client with the stream that the server has started.
abbrev pub with_stream : ℕ → ℕ → Client → Client
with_stream p handle c = record c {
  net = record (asked (log (handed_over (Resource.stream handle)) c.net)) {
    streams = write_stream c.net.streams (given c.net) (some (orphan p handle));
  };
}

-- The server starts a stream on the client's connection, and sends on it a HELLO_ACK, an AUTH_RESP,
-- a KEY_RESP or a CHAT_DELIVER of at least 12 bytes, whatever is in it. If memory is found for the
-- stream and for the bytes, the client takes the stream, without a session, and handling the packet
-- is undefined behaviour: the handler reads the session through a null pointer.
pub conn_cb-stream_cb :
    (o : OpenSsl) (p handle t : ℕ) (buffers : List (List ℕ)) (c : Client) {conn : Conn}
    → c.net.conns p ≡ some conn
    → answer c.net ≡ true
    → answer (asked c.net) ≡ true
    → pkt_fixed_len ≤ length (join buffers)
    → msg_type_at (join buffers ++ 0 ∷ []) ≡ ok t
    → reads_session t ≡ true
    → (conn_cb (client_app o) p (peer_stream_started handle) c ≡ ok (with_stream p handle c))
      × (stream_cb (client_app o) handle (given c.net) (receive buffers) (with_stream p handle c)
          ≡ fault)
unfolding conn_cb stream_started stream_cb stream_receive client_app on_stream_recv
    stream_get_user_data
conn_cb-stream_cb o p handle t buffers c at room more long e h = (
  rw (at, room) refl,
  rw (if_true (some (orphan p handle)) (c.net.streams (given c.net)) (==_refl (given c.net))) (
      rw (at, more, long_packet (length (join buffers)) long)
        (rw e (dispatch_packet_null o t (given c.net) (join buffers ++ 0 ∷ []) _ h))),
)
