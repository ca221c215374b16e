-- ===== src/Base/Memory.antt =====
-- The outcome of a piece of C code: a value, or undefined behaviour (an access outside an object,
-- through a null pointer or through a freed one). `memcpy` and `memcmp` check the objects' sizes.
use Prim.Native.Nat.{ℕ, ◌≤◌, ◌<◌}
use mathlib.Core.Path.{◌≡◌, refl}
use mathlib.Core.Logic.{◌⊎◌, inl, inr}
use mathlib.Core.Bool.{Bool, true, false, ◌&&◌}
use mathlib.Core.List.{List, ◌++◌}
use mathlib.Core.Option.{Option, none, some}
use native.Mathlib.Omega.{arith}
use squimpchat.Base.Tests.{leb, le→leb, if◌then◌else◌}
use squimpchat.Base.Lists.{length, take, drop, bytes_eq, length-append, length-take, length-drop}

pub data Run {ℓ} (A : Type ℓ) : Type ℓ where
  ok : A → Run A
  fault : Run A

infixl 5 ◌>>=◌
abbrev pub ◌>>=◌ {ℓ κ} : {A : Type ℓ} {B : Type κ} → Run A → (A → Run B) → Run B
ok a >>= f = f a
fault >>= f = fault

-- The object that a pointer leads to.
abbrev pub deref {ℓ} : {A : Type ℓ} → Option A → Run A
deref none = fault
deref (some a) = ok a

-- The first `n` bytes at `src` written over those of the array `dst`.
unfoldable pub memcpy : List ℕ → List ℕ → ℕ → Run (List ℕ)
memcpy dst src n =
    if leb n (length dst) && leb n (length src) then ok (take n src ++ drop n dst) else fault

-- `memcmp(a, b, n) == 0`
unfoldable pub memcmp_eq : List ℕ → List ℕ → ℕ → Run Bool
memcmp_eq a b n =
    if leb n (length a) && leb n (length b) then ok (bytes_eq (take n a) (take n b)) else fault

pub memcpy_lem :
    (dst src : List ℕ) (n : ℕ)
    → n ≤ length dst
    → n ≤ length src
    → memcpy dst src n ≡ ok (take n src ++ drop n dst)
unfolding memcpy
memcpy_lem dst src n h k = rw (le→leb _ _ h, le→leb _ _ k)

pub memcmp_eq_lem :
    (a b : List ℕ) (n : ℕ)
    → n ≤ length a
    → n ≤ length b
    → memcmp_eq a b n ≡ ok (bytes_eq (take n a) (take n b))
unfolding memcmp_eq
memcmp_eq_lem a b n h k = rw (le→leb _ _ h, le→leb _ _ k)

-- A copy of more bytes than the array has.
pub memcpy_fault : (dst src : List ℕ) (n : ℕ) → length dst < n → memcpy dst src n ≡ fault
unfolding memcpy
memcpy_fault dst src n h = ground arith

pub Run-cases {ℓ} : {A : Type ℓ} (m : Run A) → (m ≡ fault) ⊎ ((a : A) × (m ≡ ok a))
Run-cases (ok a) = inr (a, refl)
Run-cases fault = inl refl

-- Code that cannot go well after `m` cannot go well.
pub >>=-fault {ℓ κ} :
    {A : Type ℓ} {B : Type κ} (m : Run A) (f : A → Run B)
    → ((a : A) → f a ≡ fault)
    → (m >>= f) ≡ fault
>>=-fault (ok a) f h = h a
>>=-fault fault f h = refl

-- What holds of the value, if there is one.
abbrev pub Safe {ℓ κ} : {A : Type ℓ} → (A → Type κ) → Run A → Type κ
Safe P (ok a) = P a
Safe P fault = Unit

pub Safe-bind {ℓ κ μ ν} :
    {A : Type ℓ} {B : Type κ} (P : A → Type μ) (Q : B → Type ν) (m : Run A) (f : A → Run B)
    → Safe P m
    → ((a : A) → P a → Safe Q (f a))
    → Safe Q (m >>= f)
Safe-bind P Q (ok a) f h k = k a h
Safe-bind P Q fault f h k = tt

-- Where nothing is known of the value.
pub Safe-any {ℓ κ ν} :
    {A : Type ℓ} {B : Type κ} (Q : B → Type ν) (m : Run A) (f : A → Run B)
    → ((a : A) → Safe Q (f a))
    → Safe Q (m >>= f)
Safe-any Q (ok a) f k = k a
Safe-any Q fault f k = tt

pub Safe-if {ℓ κ} :
    {A : Type ℓ} (P : A → Type κ) (b : Bool) (x y : Run A)
    → Safe P x
    → Safe P y
    → Safe P (if b then x else y)
Safe-if P true x y h k = h
Safe-if P false x y h k = k

pub Safe-ok {ℓ κ} : {A : Type ℓ} (P : A → Type κ) (x : Run A) {a : A} → Safe P x → x ≡ ok a → P a
Safe-ok P x h e = rw e at h

abbrev pub Copied : List ℕ → List ℕ → ℕ → List ℕ → Type 0
Copied dst src n d = (length d ≡ length dst) × (n ≤ length dst) × (n ≤ length src)

-- A copy keeps the size of the array, and was not too long for it.
pub memcpy-Safe : (dst src : List ℕ) (n : ℕ) → Safe (Copied dst src n) (memcpy dst src n)
unfolding memcpy
memcpy-Safe dst src n =
    ground (arith, length-append (take n src) (drop n dst), length-take n src, length-drop n dst)

pub Safe-mono {ℓ κ ν} :
    {A : Type ℓ} (P : A → Type κ) (Q : A → Type ν) (x : Run A)
    → ((a : A) → P a → Q a)
    → Safe P x
    → Safe Q x
Safe-mono P Q (ok a) h k = h a k
Safe-mono P Q fault h k = tt

-- A value that is right whenever `W` holds.
pub Safe-later {ℓ κ ν} :
    {A : Type ℓ} (W : Type ν) (P : A → Type κ) (x : Run A) → (W → Safe P x) → Safe (λ a. W → P a) x
Safe-later W P (ok a) h = h
Safe-later W P fault h = tt

-- Code that goes well has gone well so far.
pub >>=-cases {ℓ κ} :
    {A : Type ℓ} {B : Type κ} (m : Run A) (f : A → Run B) {b : B}
    → (m >>= f) ≡ ok b
    → (a : A) × (m ≡ ok a) × (f a ≡ ok b)
>>=-cases (ok a) f h = (a, refl, h)
>>=-cases fault f h = cc

pub ok_injective {ℓ} : {A : Type ℓ} {a b : A} → ok a ≡ ok b → a ≡ b
ok_injective h = cc h

-- There is a value, and what holds of it.
abbrev pub Succeeds {ℓ} : {A : Type ℓ} → (A → Type 0) → Run A → Type 0
Succeeds P (ok a) = P a
Succeeds P fault = ⊥
