-- ===== src/Server/Sound/Complete.antt =====
-- Packets that are long enough for their message, the server that hears them (src/server/server.c), and its
-- answers when it refuses.
use squimpchat.Base.{
  ℕ, ◌+◌, ◌≤◌, ◌<◌, ◌≡◌, ◌⊎◌, false, Option, some, List, arith, length, length-drop, drop, ok,
  ◌>>=◌, Returns, Returns-ok,
}
use squimpchat.Session.{Session}
use squimpchat.Queue.Chains.{IsQueue, has}
use squimpchat.Registry.Names.{IsName}
use squimpchat.Registry.Lookup.{view, stream_at}
use squimpchat.Net.{stream_get_user_data}
use squimpchat.Net.Send.{IsOpen, IsOpen-after_send}
use squimpchat.Wire.{uint_at, type_hello, type_auth_req, type_key_req, type_chat_send}
use squimpchat.Wire.Packets.{error_packet}
use squimpchat.Server.{Server, send_error, send_bye}
use squimpchat.Server.Shape.{IsSession, send_error-after, send_bye-after, after}
use squimpchat.Server.Kept.{IsServer}
use squimpchat.Server.Invariant.{session-IsSession}

-- The packet has the bytes that its message takes, and the lengths in it fit.
pub record IsComplete (t : ℕ) (pkt : List ℕ) : Type 0 where
  pub hello : t ≡ type_hello → 21 ≤ length pkt
  pub auth_req : t ≡ type_auth_req → 111 ≤ length pkt
  pub auth_name : t ≡ type_auth_req → (n : ℕ) → uint_at 12 1 pkt ≡ ok n → n ≤ 32
  pub key_req : t ≡ type_key_req → 45 ≤ length pkt
  pub chat_send : t ≡ type_chat_send → 319 ≤ length pkt
  pub ciphertext : t ≡ type_chat_send → (n : ℕ) → uint_at 315 4 pkt ≡ ok n → 319 + n ≤ length pkt

-- A session with an open stream, that does not wait in the queue; the streams of all users are open.
pub record Served (stream p : ℕ) (s : Session) (xs : List ℕ) (sv : Server) : Type 0 where
  pub invariant : IsServer sv
  pub at : sv.sessions p ≡ some s
  pub live : IsOpen stream sv.net
  pub owner : stream_get_user_data stream sv.net ≡ ok (some p)
  pub queue : IsQueue sv.queue sv.sessions xs
  pub absent : has p xs ≡ false
  pub users : (name : List ℕ) (r : ℕ) → stream_at (view sv.registry name) ≡ some r → IsOpen r sv.net

pub short_or_long : (n : ℕ) → (n ≤ 32) ⊎ (32 < n)
short_or_long n = ground arith

-- The name in a packet.
pub drop-IsName : (pkt : List ℕ) (n : ℕ) → 45 ≤ length pkt → n ≤ 32 → IsName (drop 13 pkt) n
drop-IsName pkt n h fits = record { short = fits; inside = omega (arith, length-drop 13 pkt) }

module _ {stream p : ℕ} {s : Session} {xs : List ℕ} {sv : Server}
    (w : Served stream p s xs sv) where
  pub send_error-Returns :
      (code : ℕ) (desc : Option (List ℕ)) → Returns (send_error stream (some p) code desc sv)
  send_error-Returns code desc = Returns-ok _ (send_error-after code desc sv w.at w.live)

  pub refused-Returns :
      (code : ℕ) (desc : Option (List ℕ))
      → Returns (send_error stream (some p) code desc sv >>= λ sv1. send_bye stream (some p) sv1)
  refused-Returns code desc = rw (send_error-after code desc sv w.at w.live) (
      Returns-ok _ (
        send_bye-after (after stream (error_packet s.session_id code desc) sv) w.at
          (IsOpen-after_send stream (error_packet s.session_id code desc) w.live)))

  pub served-IsSession : IsSession s
  served-IsSession = session-IsSession p w.invariant w.at
