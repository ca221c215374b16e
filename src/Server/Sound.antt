-- ===== src/Server/Sound.antt =====
-- Packets that are long enough for their message: the server handles them without undefined behaviour
-- (`on_stream_recv` of src/server/server.c, and the handlers of src/shared/sqmp.c).
mod Complete
mod Login
mod Messages
pub use Complete.{IsComplete, Served}
use squimpchat.Server.Sound.Login.{
  process_hello-Returns, process_auth_req-Returns, process_bye-Returns,
}
use squimpchat.Server.Sound.Messages.{process_key_req-Returns, process_chat_send-Returns}
use squimpchat.Base.{
  ℕ, zero, suc, ◌+◌, ◌^◌, ◌%◌, ◌≤◌, ◌<◌, ◌≡◌, refl, ◌⊎◌, inl, inr, false, Option, none, some, [],
  ◌∷◌, ◌++◌, length-append, List, arith, length, length-drop, take, drop, zeros, ltb, ◌==◌, negate,
  if◌then◌else◌, Bool-cases, le_of_not_ltb, ok, ◌>>=◌, memcpy, Safe-mono, Succeeds, Returns-if_eq,
  memcpy-Returns, Returns, Returns-ok, Returns-bind, Returns-if, Succeeds-Safe,
}
use squimpchat.Session.{Session, is_hello, is_auth, is_established, write}
use squimpchat.Queue.Chains.{IsQueue, IsQueue-write, has, write_self}
use squimpchat.Queue.Fifo.{enqueue-append}
use squimpchat.Registry.Names.{IsName}
use squimpchat.Registry.Lookup.{view, stream_at, find-view, find_long}
use squimpchat.Registry.Remove.{registry_remove-erase}
use squimpchat.Net.{answer, asked, stream_get_user_data}
use squimpchat.Net.Send.{IsOpen, IsOpen-asked, IsOpen-after_send, accepts}
use squimpchat.Wire.{
  join, msg_type_at, pkt_fixed_len, bytes_at, uint_at, session_id_at, type_hello, type_auth_req,
  type_key_req, type_chat_send, type_error, type_bye,
}
use squimpchat.Wire.Total.{bytes_at-Returns, uint_at-Returns}
use squimpchat.Wire.Packets.{error_packet, hello_ack_packet, key_resp_packet}
use squimpchat.Server.{Server, session_at, modify_session, send, send_error, send_bye}
use squimpchat.Server.Shape.{
  IsSession, session-IsName, modify_session_lem, send-after, send_error-after, send_bye-after,
  after,
}
use squimpchat.Server.Kept.{IsServer, Kept, Kept-IsServer}
use squimpchat.Server.Invariant.{session-IsSession}
use squimpchat.Server.Handlers.{
  process_hello, accept_hello, has_v1, process_auth_req, take_credentials, enqueue, process_bye,
  send_key, reply_key, process_key_req, deliver_chat, forward, route, process_chat_send,
}
use squimpchat.Server.Callbacks.{dispatch, on_stream_recv, stream_cb_receive}
use squimpchat.Server.Frozen.{Frozen-net, Frozen-Kept}
use squimpchat.Server.Received.{stream_cb_receive-Safe}

module _ {stream p : ℕ} {s : Session} {xs : List ℕ} {sv : Server}
    (w : Served stream p s xs sv) where
  dispatch-Returns :
      (t : ℕ) (pkt : List ℕ) → IsComplete t pkt → Returns (dispatch t stream (some p) pkt sv)
  unfolding dispatch
  dispatch-Returns t pkt c =
      Returns-if_eq t type_hello _ _ (λ e. process_hello-Returns w pkt (c.hello e))
        (Returns-if_eq t type_auth_req _ _
          (λ e. process_auth_req-Returns w pkt (c.auth_req e) (c.auth_name e))
          (Returns-if_eq t type_key_req _ _ (λ e. process_key_req-Returns w pkt (c.key_req e))
            (Returns-if_eq t type_chat_send _ _
              (λ e. process_chat_send-Returns w pkt (c.chat_send e) (c.ciphertext e))
              (Returns-if (t == type_error) _ _ tt
                (Returns-if (t == type_bye) _ _ (process_bye-Returns w) tt)))))

Served-asked :
    {stream p : ℕ} {s : Session} {xs : List ℕ} {sv : Server}
    → Served stream p s xs sv
    → Served stream p s xs (record sv { net = asked sv.net })
unfolding stream_get_user_data
Served-asked {sv} w = record {
  invariant = Kept-IsServer (Frozen-Kept (Frozen-net sv (asked sv.net))) w.invariant;
  at = w.at;
  live = IsOpen-asked w.live;
  owner = w.owner;
  queue = w.queue;
  absent = w.absent;
  users = λ n r e. IsOpen-asked (w.users n r e);
}

on_stream_recv-Returns :
    {stream p : ℕ} {s : Session} {xs : List ℕ} {sv : Server} (pkt : List ℕ) (len : ℕ)
    → len ≤ length pkt
    → ((t : ℕ) → pkt_fixed_len ≤ len → msg_type_at pkt ≡ ok t → IsComplete t pkt)
    → Served stream p s xs sv
    → Returns (on_stream_recv stream pkt len sv)
unfolding on_stream_recv msg_type_at
on_stream_recv-Returns {sv} pkt len h c w = elim (Bool-cases (ltb len pkt_fixed_len)) [
  | inl short ↦ rw short tt
  | inr long ↦
      rw (long, w.owner)
        (Returns-bind (msg_type_at pkt) _ (uint_at-Returns 1 1 pkt (ground arith))
          λ t e. dispatch-Returns w t pkt (c t (le_of_not_ltb len pkt_fixed_len long) e))
]

-- Whatever bytes come in on a stream, in whatever pieces: the server handles them without undefined
-- behaviour and keeps its invariant, if they are fewer than 12, or else have the bytes that their
-- message takes (21 for a HELLO, 111 for an AUTH_REQ with a name of at most 32 bytes, 45 for a
-- KEY_REQ, 319 and the ciphertext for a CHAT_SEND; the 0 byte that is put behind them counts). This
-- holds in every state of the session and for all answers of the environment, if the invariant holds,
-- the stream leads to a session that is allocated and not in the queue, the queue is well formed, and
-- the streams of the sender and of all users are open.
pub stream_cb_receive-Succeeds :
    {stream p : ℕ} {s : Session} {xs : List ℕ} {sv : Server} (buffers : List (List ℕ))
    → ((t : ℕ)
        → pkt_fixed_len ≤ length (join buffers)
        → msg_type_at (join buffers ++ 0 ∷ []) ≡ ok t
        → IsComplete t (join buffers ++ 0 ∷ []))
    → Served stream p s xs sv
    → Succeeds IsServer (stream_cb_receive stream buffers sv)
unfolding stream_cb_receive
stream_cb_receive-Succeeds {stream} {sv} buffers c w =
    Succeeds-Safe IsServer _
      (Returns-if (answer sv.net) _ _
        (on_stream_recv-Returns (join buffers ++ 0 ∷ []) (length (join buffers))
          (omega (arith, length-append (join buffers) (0 ∷ []))) c (Served-asked w))
        tt)
      (Safe-mono (Kept sv) IsServer _ (λ v k. Kept-IsServer k w.invariant)
        (stream_cb_receive-Safe stream buffers sv))
