-- ===== src/Server/Exclusive.antt =====
-- Who is logged in at the server (src/server/server.c): the sessions that are CONN_ESTABLISHED, with their
-- names, against the directory.
use squimpchat.Base.{
  ℕ, ◌≡◌, ◌≢◌, ◌⊎◌, refl, sym, ◌∙◌, inl, inr, true, false, Option, none, some, List, ◌==◌, bytes_eq,
  eq_of_bytes_eq, bytes_eq_refl, ap, if◌then◌else◌, Bool-cases, ==_iff,
}
use squimpchat.Session.{Session, Sessions, is_established, write}
use squimpchat.Queue.Chains.{write_self, write_ne}
use squimpchat.Registry.Lookup.{Directory, Online, view, erase, insert}
use squimpchat.Server.{Server}
use squimpchat.Server.Shape.{name_of}

-- The name under which a session is logged in.
abbrev pub login_of : Option Session → Option (List ℕ)
login_of none = none
login_of (some s) = if is_established s.state then some (name_of s) else none

-- Every name under which a session is logged in is online, and no two sessions are logged in under one
-- name.
pub record IsExclusive (h : Sessions) (d : Directory) : Type 0 where
  pub online : (a : ℕ) (n : List ℕ) → login_of (h a) ≡ some n → d n ≢ none
  pub single : (a b : ℕ) (n : List ℕ) → login_of (h a) ≡ some n → login_of (h b) ≡ some n → a ≡ b

-- The same of the server.
abbrev pub Exclusive : Server → Type 0
Exclusive sv = IsExclusive sv.sessions (view sv.registry)

-- Nobody is logged in under the name.
abbrev pub Unclaimed : List ℕ → Sessions → Type 0
Unclaimed n h = (a : ℕ) → login_of (h a) ≢ some n

-- The names under which nobody is logged in stay or stay away.
abbrev pub Spares : Server → Server → Type 0
Spares sv sv' = (n : List ℕ) → Unclaimed n sv.sessions → view sv'.registry n ≡ view sv.registry n

-- A session is logged in as before, or not.
abbrev pub Fewer : Option Session → Option Session → Type 0
Fewer x y = (login_of y ≡ none) ⊎ (login_of y ≡ login_of x)

absent : {n : List ℕ} → none ≡ some n → ⊥
absent h = cc

contrary : true ≡ false → ⊥
contrary h = cc

some_injective : {n j : List ℕ} → some n ≡ some j → n ≡ j
some_injective h = cc

before : (x y : Option Session) {n : List ℕ} → Fewer x y → login_of y ≡ some n → login_of x ≡ some n
before x y (inl out) e = absurd (absent (sym out ∙ e))
before x y (inr same) e = sym same ∙ e

pub Fewer-refl : (x : Option Session) → Fewer x x
Fewer-refl x = inr refl

pub Fewer-trans : (x y z : Option Session) → Fewer x y → Fewer y z → Fewer x z
Fewer-trans x y z f (inl out) = inl out
Fewer-trans x y z (inl out) (inr same) = inl (same ∙ out)
Fewer-trans x y z (inr is) (inr same) = inr (same ∙ is)

pub Unclaimed-Fewer :
    (n : List ℕ) (h h' : Sessions) → ((a : ℕ) → Fewer (h a) (h' a)) → Unclaimed n h → Unclaimed n h'
Unclaimed-Fewer n h h' fewer out a e = out a (before (h a) (h' a) (fewer a) e)

-- The name of a session that is logged in is taken out of the directory.
pub erased-Unclaimed :
    (h : Sessions) (d : Directory) {d' : Directory} (p : ℕ) (n : List ℕ)
    → login_of (h p) ≡ some n
    → ((j : List ℕ) → d' j ≡ erase n d j)
    → (j : List ℕ) → Unclaimed j h
    → d' j ≡ d j
erased-Unclaimed h d p n at gone j out = elim (Bool-cases (bytes_eq n j)) [
  | inl eq ↦ absurd (out p (at ∙ ap some (eq_of_bytes_eq n j eq)))
  | inr ne ↦ rw (gone j, ne) refl
]

-- One session changes.
pub Fewer-write :
    (h : Sessions) (p : ℕ) (c : Option Session)
    → Fewer (h p) c
    → (a : ℕ) → Fewer (h a) (write h p c a)
Fewer-write h p c f a = elim (Bool-cases (a == p)) [
  | inl eq ↦ rw ((==_iff a p).0 eq) (rw (write_self h p c) f)
  | inr ne ↦ rw (write_ne h p c a ne) (Fewer-refl (h a))
]

-- Nobody logs in, and the directory is the same.
pub quiet-IsExclusive :
    {h h' : Sessions} {d d' : Directory}
    → IsExclusive h d
    → ((a : ℕ) → Fewer (h a) (h' a))
    → ((n : List ℕ) → d' n ≡ d n)
    → IsExclusive h' d'
quiet-IsExclusive {h} {h'} w fewer same = record {
  online = λ a n e. rw (same n) (w.online a n (before (h a) (h' a) (fewer a) e));
  single = λ a b n e f.
      w.single a b n (before (h a) (h' a) (fewer a) e) (before (h b) (h' b) (fewer b) f);
}

-- A session that was logged in is not any more, and its name is taken out of the directory.
pub erase-IsExclusive :
    {h : Sessions} {d d' : Directory} (p : ℕ) (c : Option Session) (n : List ℕ)
    → IsExclusive h d
    → login_of (h p) ≡ some n
    → login_of c ≡ none
    → ((j : List ℕ) → d' j ≡ erase n d j)
    → IsExclusive (write h p c) d'
erase-IsExclusive {h} {d} {d'} p c n w at out gone = record {
  online = λ a j e. online a j e;
  single = λ a b j e f. w.single a b j (earlier a e) (earlier b f);
}
  where
    earlier : (a : ℕ) {j : List ℕ} → login_of (write h p c a) ≡ some j → login_of (h a) ≡ some j
    earlier a e = before (h a) (write h p c a) (Fewer-write h p c (inl out) a) e

    other : (a : ℕ) → login_of (write h p c a) ≡ some n → ⊥
    other a e = absent (
        sym out
        ∙ sym (ap login_of (write_self h p c))
        ∙ ap (λ x. login_of (write h p c x)) (sym (w.single a p n (earlier a e) at))
        ∙ e)

    online : (a : ℕ) (j : List ℕ) → login_of (write h p c a) ≡ some j → d' j ≢ none
    online a j e = elim (Bool-cases (bytes_eq n j)) [
      | inl eq ↦ absurd (other a (rw (eq_of_bytes_eq n j eq) e))
      | inr ne ↦ rw (gone j, ne) (w.online a j (earlier a e))
    ]

-- A session logs in under a name that was not online.
pub insert-IsExclusive :
    {h : Sessions} {d d' : Directory} (p : ℕ) (c : Option Session) (n : List ℕ) (v : Online)
    → IsExclusive h d
    → d n ≡ none
    → login_of c ≡ some n
    → ((j : List ℕ) → d' j ≡ insert n v d j)
    → IsExclusive (write h p c) d'
insert-IsExclusive {h} {d} {d'} p c n v w new is added = record { online = online; single = single }
  where
    here : (a : ℕ) {j : List ℕ} → (a == p) ≡ true → login_of (write h p c a) ≡ some j → n ≡ j
    here a eq e = some_injective (
        sym is
        ∙ sym (ap login_of (write_self h p c))
        ∙ ap (λ x. login_of (write h p c x)) (sym ((==_iff a p).0 eq))
        ∙ e)

    earlier :
        (a : ℕ) {j : List ℕ}
        → (a == p) ≡ false
        → login_of (write h p c a) ≡ some j
        → login_of (h a) ≡ some j
    earlier a ne e = sym (ap login_of (write_ne h p c a ne)) ∙ e

    online : (a : ℕ) (j : List ℕ) → login_of (write h p c a) ≡ some j → d' j ≢ none
    online a j e = elim (Bool-cases (bytes_eq n j)) [
      | inl eq ↦ rw (added j, eq) (λ x. cc)
      | inr ne ↦ elim (Bool-cases (a == p)) [
        | inl at ↦ absurd (contrary (sym (rw (here a at e) (bytes_eq_refl j)) ∙ ne))
        | inr off ↦ rw (added j, ne) (w.online a j (earlier a off e))
      ]
    ]

    clash : (b : ℕ) (j : List ℕ) → n ≡ j → (b == p) ≡ false → login_of (write h p c b) ≡ some j → ⊥
    clash b j eq ne f = w.online b n (rw eq (earlier b ne f)) new

    single :
        (a b : ℕ) (j : List ℕ)
        → login_of (write h p c a) ≡ some j
        → login_of (write h p c b) ≡ some j
        → a ≡ b
    single a b j e f = elim (Bool-cases (a == p)) [
      | inl at ↦ elim (Bool-cases (b == p)) [
        | inl bt ↦ (==_iff a p).0 at ∙ sym ((==_iff b p).0 bt)
        | inr bf ↦ absurd (clash b j (here a at e) bf f)
      ]
      | inr af ↦ elim (Bool-cases (b == p)) [
        | inl bt ↦ absurd (clash a j (here b bt f) af e)
        | inr bf ↦ w.single a b j (earlier a af e) (earlier b bf f)
      ]
    ]
