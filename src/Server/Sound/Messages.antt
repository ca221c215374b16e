-- ===== src/Server/Sound/Messages.antt =====
-- KEY_REQ and CHAT_SEND at the server (src/shared/sqmp.c): no undefined behaviour.
use squimpchat.Base.{
  ℕ, ◌+◌, ◌≤◌, ◌≡◌, refl, inl, inr, Option, none, some, List, arith, length, length-drop, take,
  drop, zeros, negate, if◌then◌else◌, ok, ◌>>=◌, memcpy, memcpy-Returns, Returns, Returns-ok,
  Returns-bind, Returns-if,
}
use squimpchat.Session.{Session, is_established}
use squimpchat.Registry.Lookup.{find-view, find_long}
use squimpchat.Net.{answer, asked}
use squimpchat.Net.Send.{IsOpen, IsOpen-asked, IsOpen-after_send, accepts}
use squimpchat.Wire.{bytes_at, uint_at, session_id_at}
use squimpchat.Wire.Total.{bytes_at-Returns, uint_at-Returns}
use squimpchat.Wire.Packets.{key_resp_packet}
use squimpchat.Server.{Server, session_at, send, send_error}
use squimpchat.Server.Shape.{send-after, send_error-after, after}
use squimpchat.Server.Handlers.{
  send_key, reply_key, process_key_req, deliver_chat, forward, route, process_chat_send,
}
use squimpchat.Server.Sound.Complete.{
  Served, short_or_long, drop-IsName, send_error-Returns, served-IsSession,
}

module _ {stream p : ℕ} {s : Session} {xs : List ℕ} {sv : Server}
    (w : Served stream p s xs sv) where
  send_key-Returns :
      (pkt : List ℕ) (n : ℕ) (key : List ℕ)
      → 45 ≤ length pkt
      → n ≤ 32
      → Returns (send_key stream pkt n key sv)
  unfolding send_key session_id_at
  send_key-Returns pkt n key h fits =
      Returns-if (answer sv.net) _ _
        (Returns-bind (session_id_at pkt) _ (uint_at-Returns 3 4 pkt (omega arith)) λ id e.
          Returns-bind (memcpy (zeros 32) (drop 13 pkt) n) _
            (memcpy-Returns (zeros 32) (drop 13 pkt) n (omega arith)
              (omega (arith, length-drop 13 pkt)))
            λ name f.
              rw
                (send-after (key_resp_packet id n name key) (record sv { net = asked sv.net })
                  (IsOpen-asked w.live))
                tt)
        tt

  reply_key-Returns :
      (pkt : List ℕ) (n : ℕ) (key : Option (List ℕ))
      → 45 ≤ length pkt
      → n ≤ 32
      → Returns (reply_key stream (some p) pkt n key sv)
  unfolding reply_key
  reply_key-Returns pkt n none h fits = send_error-Returns w _ _
  reply_key-Returns pkt n (some key) h fits = send_key-Returns pkt n key h fits

  pub process_key_req-Returns :
      (pkt : List ℕ) → 45 ≤ length pkt → Returns (process_key_req stream (some p) pkt sv)
  unfolding process_key_req session_at
  process_key_req-Returns pkt h = rw w.at (
      Returns-if (negate (is_established s.state)) _ _ (send_error-Returns w _ _) (
        Returns-bind (uint_at 12 1 pkt) _ (uint_at-Returns 12 1 pkt (omega arith)) λ n e.
          elim (short_or_long n) [
            | inr long ↦
                rw ((find_long (drop 13 pkt) n w.invariant.registry long).1)
                  (send_error-Returns w _ _)
            | inl fits ↦
                rw ((find-view w.invariant.registry (drop-IsName pkt n h fits)).1)
                  (reply_key-Returns pkt n _ h fits)
          ]))

  deliver_chat-Returns :
      (pkt : List ℕ) (n : ℕ)
      → 319 ≤ length pkt
      → 319 + n ≤ length pkt
      → Returns (deliver_chat s pkt n)
  unfolding deliver_chat
  deliver_chat-Returns pkt n h long =
      Returns-bind (memcpy (zeros 32) s.username s.username_len) _
        (memcpy-Returns (zeros 32) s.username s.username_len
          (omega (arith, (served-IsSession w).name_fits))
          (omega (arith, (served-IsSession w).name_fits, (served-IsSession w).name_size)))
        λ sender e1.
          Returns-bind (uint_at 45 2 pkt) _ (uint_at-Returns 45 2 pkt (omega arith)) λ klen e2.
            Returns-bind (bytes_at 47 256 pkt) _ (bytes_at-Returns 47 256 pkt (omega arith))
              λ key e3.
                Returns-bind (bytes_at 303 12 pkt) _ (bytes_at-Returns 303 12 pkt (omega arith))
                  λ nonce e4.
                    Returns-bind (bytes_at 319 n pkt) _ (bytes_at-Returns 319 n pkt long)
                      λ text e5. tt

  -- The send to the recipient, and the ERROR when it fails.
  hand_over-Returns :
      (r : ℕ) (bytes : List ℕ) (code : ℕ) (desc : Option (List ℕ))
      → IsOpen r sv.net
      → Returns (do
        (sent, sv2) ← send r bytes (record sv { net = asked sv.net })
        if sent then ok sv2 else send_error stream (some p) code desc sv2)
  hand_over-Returns r bytes code desc o =
      let sv1 = record sv { net = asked sv.net } in
      rw (send-after bytes sv1 (IsOpen-asked o)) (
        Returns-if (accepts sv1.net) _ _ tt (
          Returns-ok _ (
            send_error-after code desc (after r bytes sv1) w.at
              (IsOpen-after_send r bytes (IsOpen-asked w.live)))))

  forward-Returns :
      (pkt : List ℕ) (r : ℕ)
      → 319 ≤ length pkt
      → ((n : ℕ) → uint_at 315 4 pkt ≡ ok n → 319 + n ≤ length pkt)
      → IsOpen r sv.net
      → Returns (forward stream (some p) s pkt r sv)
  unfolding forward session_id_at
  forward-Returns pkt r h long o =
      Returns-bind (uint_at 315 4 pkt) _ (uint_at-Returns 315 4 pkt (omega arith)) λ n e.
        Returns-if (negate (answer sv.net)) _ _ tt (
          Returns-bind (uint_at 3 4 pkt) _ (uint_at-Returns 3 4 pkt (omega arith)) λ id f.
            Returns-bind (deliver_chat s pkt n) _ (deliver_chat-Returns pkt n h (long n e))
              λ c g. hand_over-Returns r _ _ _ o)

  route-Returns :
      (pkt : List ℕ) (found : Option ℕ)
      → 319 ≤ length pkt
      → ((n : ℕ) → uint_at 315 4 pkt ≡ ok n → 319 + n ≤ length pkt)
      → ((r : ℕ) → found ≡ some r → IsOpen r sv.net)
      → Returns (route stream (some p) s pkt found sv)
  unfolding route
  route-Returns pkt none h long o = send_error-Returns w _ _
  route-Returns pkt (some r) h long o = forward-Returns pkt r h long (o r refl)

  pub process_chat_send-Returns :
      (pkt : List ℕ)
      → 319 ≤ length pkt
      → ((n : ℕ) → uint_at 315 4 pkt ≡ ok n → 319 + n ≤ length pkt)
      → Returns (process_chat_send stream (some p) pkt sv)
  unfolding process_chat_send session_at
  process_chat_send-Returns pkt h long = rw w.at (
      Returns-if (negate (is_established s.state)) _ _ (send_error-Returns w _ _) (
        Returns-bind (uint_at 12 1 pkt) _ (uint_at-Returns 12 1 pkt (omega arith)) λ n e.
          elim (short_or_long n) [
            | inr far ↦
                rw ((find_long (drop 13 pkt) n w.invariant.registry far).0)
                  (send_error-Returns w _ _)
            | inl fits ↦
                rw ((find-view w.invariant.registry (drop-IsName pkt n (omega arith) fits)).0)
                  (route-Returns pkt _ h long (w.users (take n (drop 13 pkt))))
          ]))
