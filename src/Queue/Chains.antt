-- ===== src/Queue/Chains.antt =====
-- What the pointers of the auth queue (src/shared/sqmp.c) stand for: chains of sessions through their `next`
-- fields.
use squimpchat.Base.{
  ℕ, ◌≡◌, ap, ◌∙◌, inl, inr, Bool, true, false, ◌||◌, Option, none, some, List, [], ◌∷◌, arith,
  ◌==◌, ==_iff, ==_refl, Bool-cases, length, ok,
}
use squimpchat.Session.{Session, Sessions, write, modify}
use squimpchat.Queue.{AuthQueue, set_next}

abbrev pub has : ℕ → List ℕ → Bool
has a [] = false
has a (x ∷ xs) = (a == x) || has a xs

abbrev pub Distinct : List ℕ → Type 0
Distinct [] = Unit
Distinct (x ∷ xs) = (has x xs ≡ false) × Distinct xs

-- From `p` the `next` fields lead through the sessions `xs` to NULL.
abbrev pub Chain : Sessions → Option ℕ → List ℕ → Type 0
Chain h p [] = p ≡ none
Chain h p (x ∷ xs) = (s : Session) × (p ≡ some x) × (h x ≡ some s) × Chain h s.next xs

abbrev pub last? : List ℕ → Option ℕ
last? [] = none
last? (x ∷ []) = some x
last? (x ∷ y ∷ r) = last? (y ∷ r)

-- The pointers stand for the sessions `xs`, the first to come out in front.
pub record IsQueue (q : AuthQueue) (h : Sessions) (xs : List ℕ) : Type 0 where
  pub chain : Chain h q.head xs
  pub last : q.tail ≡ last? xs
  pub distinct : Distinct xs
  pub posted : q.sem ≡ length xs

-- A session but for its place in the queue.
abbrev pub unlinked : Option Session → Option Session
unlinked none = none
unlinked (some s) = some (set_next none s)

-- No session is changed but for its place in the queue.
abbrev pub SameBut : Sessions → Sessions → Type 0
SameBut h h' = (a : ℕ) → unlinked (h' a) ≡ unlinked (h a)

pub write_self : (h : Sessions) (p : ℕ) (c : Option Session) → write h p c p ≡ c
unfolding write
write_self h p c = rw ==_refl

pub write_ne :
    (h : Sessions) (p : ℕ) (c : Option Session) (a : ℕ) → (a == p) ≡ false → write h p c a ≡ h a
unfolding write
write_ne h p c a e = rw e

pub modify_lem :
    (p : ℕ) (f : Session → Session) (h : Sessions) {s : Session}
    → h p ≡ some s
    → modify p f h ≡ ok (write h p (some (f s)))
unfolding modify
modify_lem p f h e = rw e

pub ==_ne : (a b : ℕ) (xs : List ℕ) → has a xs ≡ true → has b xs ≡ false → (a == b) ≡ false
==_ne a b xs h k = elim (Bool-cases (a == b)) [
  | inl eq ↦ cc (ap (λ c. has c xs) ((==_iff a b).0 eq))
  | inr ne ↦ ne
]

pub frame :
    (h h' : Sessions) (p : Option ℕ) (xs : List ℕ)
    → ((a : ℕ) → has a xs ≡ true → h' a ≡ h a)
    → Chain h p xs
    → Chain h' p xs
frame h h' p [] same c = c
frame h h' p (x ∷ xs) same (s, e, at, c) =
    (s, e, same x (rw ==_refl) ∙ at, frame h h' s.next xs (λ a i. same a (ground arith)) c)

pub frame-write :
    (h : Sessions) (a : ℕ) (v : Option Session) (p : Option ℕ) (xs : List ℕ)
    → has a xs ≡ false
    → Chain h p xs
    → Chain (write h a v) p xs
frame-write h a v p xs out = frame h (write h a v) p xs λ b i. write_ne h a v b (==_ne b a xs i out)

pub unlinked-write :
    (h : Sessions) (p : ℕ) {s : Session} (n : Option ℕ)
    → h p ≡ some s
    → SameBut h (write h p (some (set_next n s)))
unlinked-write h p {s} n e a = elim (Bool-cases (a == p)) [
  | inl eq ↦ rw ((==_iff a p).0 eq) (rw (write_self h p (some (set_next n s)), e))
  | inr ne ↦ ap unlinked (write_ne h p (some (set_next n s)) a ne)
]

-- A session that is not in the queue may change.
pub IsQueue-write :
    {q : AuthQueue} {h : Sessions} {xs : List ℕ} (p : ℕ) (c : Option Session)
    → has p xs ≡ false
    → IsQueue q h xs
    → IsQueue q (write h p c) xs
IsQueue-write {q} {h} {xs} p c out is = record {
  chain = frame-write h p c q.head xs out is.chain;
  last = is.last;
  distinct = is.distinct;
  posted = is.posted;
}
