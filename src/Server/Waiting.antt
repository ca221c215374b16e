-- ===== src/Server/Waiting.antt =====
-- The sessions that wait in the auth queue for the main thread (src/server/server.c): what they need to be
-- handled, and what becomes of them.
use mathlib.Core.Path.{subst}
use squimpchat.Base.{
  ℕ, ◌≡◌, ◌⊎◌, refl, sym, inl, inr, Bool, true, false, Option, none, some, List, [], ◌∷◌, ok,
  ==_refl, arith,
}
use squimpchat.Session.{Session, Sessions}
use squimpchat.Queue.Chains.{has, unlinked}
use squimpchat.Net.{Net}
use squimpchat.Net.Send.{IsOpen}
use squimpchat.Server.Users.{verify_credentials}
use squimpchat.Server.Login.{IsAnswerable, login_name}

-- A waiting session is allocated; its connection is closed, or its stream (if it has one) is open and the
-- check of its credentials has an outcome.
abbrev pub IsReady : Option (List ℕ) → Net → Option Session → Type 0
IsReady users n none = ⊥
IsReady users n (some s) =
    (s.conn_closed ≡ true)
    ⊎ ((s.conn_closed ≡ false)
        × IsAnswerable s.auth_stream n
        × (right : Bool) × (verify_credentials users (login_name s) s.auth_password_hash
            ≡ ok right))

abbrev pub AllReady : Option (List ℕ) → Net → Sessions → List ℕ → Type 0
AllReady users n h [] = Unit
AllReady users n h (x ∷ xs) = IsReady users n (h x) × AllReady users n h xs

-- The session is freed, or does not count as waiting.
abbrev pub IsDone : Option Session → Type 0
IsDone none = Unit
IsDone (some s) = s.auth_queued ≡ false

abbrev pub AllDone : Sessions → List ℕ → Type 0
AllDone h [] = Unit
AllDone h (x ∷ xs) = IsDone (h x) × AllDone h xs

pub IsReady-unlinked :
    (users : Option (List ℕ)) (n : Net) (x y : Option Session)
    → unlinked y ≡ unlinked x
    → IsReady users n x
    → IsReady users n y
IsReady-unlinked users n none y e r = absurd r
IsReady-unlinked users n (some s) none e r = absurd (nothing e)
  where
    nothing : {t : Session} → none ≡ some t → ⊥
    nothing e = cc
IsReady-unlinked users n (some s) (some t) e r = subst (IsReady users n) (sym e) r

IsReady-streams :
    (users : Option (List ℕ)) (n m : Net) (x : Option Session)
    → ((q : ℕ) → IsOpen q n → IsOpen q m)
    → IsReady users n x
    → IsReady users m x
IsReady-streams users n m none k r = r
IsReady-streams users n m (some s) k (inl closed) = inl closed
IsReady-streams users n m (some s) k (inr (live, o, right, e)) =
    inr (live, opened s.auth_stream o, right, e)
  where
    opened : (a : Option ℕ) → IsAnswerable a n → IsAnswerable a m
    opened none o = o
    opened (some stream) o = k stream o

-- The sessions that wait stay ready, if only their places in the queue change.
pub AllReady-unlinked :
    (users : Option (List ℕ)) (n m : Net) (h h' : Sessions) (xs : List ℕ)
    → ((q : ℕ) → IsOpen q n → IsOpen q m)
    → ((a : ℕ) → has a xs ≡ true → unlinked (h' a) ≡ unlinked (h a))
    → AllReady users n h xs
    → AllReady users m h' xs
AllReady-unlinked users n m h h' [] k same r = r
AllReady-unlinked users n m h h' (x ∷ xs) k same (r, more) = (
  IsReady-streams users n m (h' x) k
      (IsReady-unlinked users n (h x) (h' x) (same x (rw ==_refl refl)) r),
  AllReady-unlinked users n m h h' xs k (λ a i. same a (ground arith)) more,
)

pub IsDone-unlinked : (x y : Option Session) → unlinked y ≡ unlinked x → IsDone x → IsDone y
IsDone-unlinked none none e d = tt
IsDone-unlinked (some s) none e d = tt
IsDone-unlinked none (some s) e d = absurd (nothing e)
  where
    nothing : {t : Session} → some t ≡ none → ⊥
    nothing e = cc
IsDone-unlinked (some s) (some t) e d = subst IsDone (sym e) d
