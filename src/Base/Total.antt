-- ===== src/Base/Total.antt =====
-- Code that returns: that it has no undefined behaviour.
use mathlib.Core.Path.{◌≡◌, refl}
use Prim.Native.Nat.{ℕ, ◌≤◌}
use mathlib.Core.List.{List}
use squimpchat.Base.Lists.{length}
use mathlib.Core.Logic.{inl, inr}
use mathlib.Core.Bool.{Bool, true, false}
use squimpchat.Base.Tests.{if◌then◌else◌, ◌==◌, ==_iff, Bool-cases}
use squimpchat.Base.Memory.{Run, ok, fault, ◌>>=◌, Succeeds, Safe, memcpy, memcpy_lem}

-- The run has a value.
abbrev pub Returns {ℓ} : {A : Type ℓ} → Run A → Type 0
Returns (ok a) = Unit
Returns fault = ⊥

pub Returns-ok {ℓ} : {A : Type ℓ} (m : Run A) {a : A} → m ≡ ok a → Returns m
Returns-ok m e = rw e tt

pub Returns-bind {ℓ κ} :
    {A : Type ℓ} {B : Type κ} (m : Run A) (f : A → Run B)
    → Returns m
    → ((a : A) → m ≡ ok a → Returns (f a))
    → Returns (m >>= f)
Returns-bind (ok a) f h k = k a refl
Returns-bind fault f h k = h

pub Returns-if {ℓ} :
    {A : Type ℓ} (b : Bool) (x y : Run A) → Returns x → Returns y → Returns (if b then x else y)
Returns-if true x y h k = h
Returns-if false x y h k = k

-- A branch that is taken for one number.
pub Returns-if_eq {ℓ} :
    {A : Type ℓ} (a b : ℕ) (x y : Run A)
    → (a ≡ b → Returns x)
    → Returns y
    → Returns (if a == b then x else y)
Returns-if_eq a b x y h k = elim (Bool-cases (a == b)) [
  | inl e ↦ rw e (h ((==_iff a b).0 e))
  | inr e ↦ rw e k
]

-- Partial correctness and a value.
pub Succeeds-Safe {ℓ} :
    {A : Type ℓ} (P : A → Type 0) (m : Run A) → Returns m → Safe P m → Succeeds P m
Succeeds-Safe P (ok a) h k = k
Succeeds-Safe P fault h k = h

pub memcpy-Returns :
    (dst src : List ℕ) (n : ℕ) → n ≤ length dst → n ≤ length src → Returns (memcpy dst src n)
memcpy-Returns dst src n h k = Returns-ok (memcpy dst src n) (memcpy_lem dst src n h k)

-- A value that is known to come, and what is known if one comes.
pub Succeeds-also {ℓ} :
    {A : Type ℓ} (P Q : A → Type 0) (m : Run A) → Succeeds P m → Safe Q m → Succeeds Q m
Succeeds-also P Q (ok a) h k = k
Succeeds-also P Q fault h k = h

pub Safe-both {ℓ} :
    {A : Type ℓ} (P Q : A → Type 0) (m : Run A) → Safe P m → Safe Q m → Safe (λ a. P a × Q a) m
Safe-both P Q (ok a) h k = (h, k)
Safe-both P Q fault h k = tt

pub Safe-bind_eq {ℓ κ} :
    {A : Type ℓ} {B : Type κ} (Q : B → Type 0) (m : Run A) (f : A → Run B)
    → ((a : A) → m ≡ ok a → Safe Q (f a))
    → Safe Q (m >>= f)
Safe-bind_eq Q (ok a) f k = k a refl
Safe-bind_eq Q fault f k = tt

pub Succeeds-bind {ℓ κ} :
    {A : Type ℓ} {B : Type κ} (P : A → Type 0) (Q : B → Type 0) (m : Run A) (f : A → Run B)
    → Succeeds P m
    → ((a : A) → P a → Succeeds Q (f a))
    → Succeeds Q (m >>= f)
Succeeds-bind P Q (ok a) f h k = k a h
Succeeds-bind P Q fault f h k = h
