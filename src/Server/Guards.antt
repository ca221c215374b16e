-- ===== src/Server/Guards.antt =====
-- The `switch` of `on_stream_recv` in src/server/server.c, and the tests of the session's state with
-- which the handlers begin.
use squimpchat.Base.{ℕ, ◌≡◌, ◌≢◌, false, some, List, arith, codes, ok}
use squimpchat.Session.{
  Session, SessionState, hello, auth, conn_established, is_hello, is_auth, is_established,
}
use squimpchat.Net.Send.{IsOpen}
use squimpchat.Wire.{type_hello, type_auth_req, type_key_req, type_chat_send, error_unexpected_msg}
use squimpchat.Wire.Packets.{error_packet}
use squimpchat.Server.{Server, session_at}
use squimpchat.Server.Shape.{after, send_error-after}
use squimpchat.Server.Handlers.{process_hello, process_auth_req, process_key_req, process_chat_send}
use squimpchat.Server.Callbacks.{dispatch}

-- A request in a state that it is not made for, and what the sender is told.
pub data Misplaced (st : SessionState) : ℕ → List ℕ → Type 0 where
  hello_again : st ≢ hello → Misplaced st type_hello (codes "unexpected HELLO")
  auth_req_again : st ≢ auth → Misplaced st type_auth_req (codes "unexpected AUTH_REQ")
  key_req_early : st ≢ conn_established → Misplaced st type_key_req (codes "unexpected KEY_REQ")
  chat_send_early :
      st ≢ conn_established → Misplaced st type_chat_send (codes "unexpected CHAT_SEND")

is_hello-false : (a : SessionState) → a ≢ hello → is_hello a ≡ false
is_hello-false a h = ground arith

is_auth-false : (a : SessionState) → a ≢ auth → is_auth a ≡ false
is_auth-false a h = ground arith

is_established-false : (a : SessionState) → a ≢ conn_established → is_established a ≡ false
is_established-false a h = ground arith

-- A request that comes in a state it is not made for, whatever bytes it holds, has one effect: the
-- sender is sent an ERROR with code 4 on the same stream. Without a login no key is handed out and
-- no message is forwarded; a second HELLO or AUTH_REQ changes nothing of the session.
pub dispatch-Misplaced :
    {stream p t : ℕ} {s : Session} {desc : List ℕ} (pkt : List ℕ) (sv : Server)
    → sv.sessions p ≡ some s
    → IsOpen stream sv.net
    → Misplaced s.state t desc
    → dispatch t stream (some p) pkt sv
      ≡ ok (after stream (error_packet s.session_id error_unexpected_msg (some desc)) sv)
unfolding dispatch process_hello process_auth_req process_key_req process_chat_send session_at
dispatch-Misplaced pkt sv at o (hello_again h) = rw (
  at,
  is_hello-false _ h,
  send_error-after error_unexpected_msg (some (codes "unexpected HELLO")) sv at o,
)
dispatch-Misplaced pkt sv at o (auth_req_again h) = rw (
  at,
  is_auth-false _ h,
  send_error-after error_unexpected_msg (some (codes "unexpected AUTH_REQ")) sv at o,
)
dispatch-Misplaced pkt sv at o (key_req_early h) = rw (
  at,
  is_established-false _ h,
  send_error-after error_unexpected_msg (some (codes "unexpected KEY_REQ")) sv at o,
)
dispatch-Misplaced pkt sv at o (chat_send_early h) = rw (
  at,
  is_established-false _ h,
  send_error-after error_unexpected_msg (some (codes "unexpected CHAT_SEND")) sv at o,
)
