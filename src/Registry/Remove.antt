-- ===== src/Registry/Remove.antt =====
-- `sqmp_registry_remove` of src/shared/sqmp.c in terms of the directory, and the registry at the start.
use squimpchat.Base.{
  ℕ, zero, suc, ◌≡◌, refl, ap, sym, ◌∙◌, inl, inr, true, false, none, List, [], ◌∷◌, arith,
  if◌then◌else◌, Bool-cases, length, take, bytes_eq, eq_of_bytes_eq, ok, replicate,
  length-replicate,
}
use squimpchat.Registry.{Entry, Registry, empty_entry, init, registry_remove}
use squimpchat.Registry.Names.{key, IsName, has_name, matches-has_name, empty_entry-IsEntry}
use squimpchat.Registry.Lookup.{lookup, Entries, Distinct, IsRegistry, online, view, erase}

-- The first entry with the name cleared.
without : List ℕ → Registry → Registry
without n [] = []
without n (e ∷ es) = let rest = without n es in if has_name n e then empty_entry ∷ es else e ∷ rest

registry_remove-without :
    (r : Registry) {uname : List ℕ} {ulen : ℕ}
    → Entries r
    → IsName uname ulen
    → registry_remove uname ulen r ≡ ok (without (take ulen uname) r)
unfolding registry_remove without
registry_remove-without [] w n = refl
registry_remove-without (e ∷ es) w n =
    ground (arith, matches-has_name w.0 n, registry_remove-without es w.1 n)

-- An entry with the name is in use and holds the name.
has_name-key : (n : List ℕ) (e : Entry) → has_name n e ≡ true → (e.in_use ≡ true) × (key e ≡ n)
unfolding has_name
has_name-key n e h = (ground arith, eq_of_bytes_eq (key e) n (ground arith))

has_name-empty_entry : (n : List ℕ) → has_name n empty_entry ≡ false
unfolding has_name
has_name-empty_entry n = refl

lookup-without_self : (n : List ℕ) (r : Registry) → Distinct r → lookup n (without n r) ≡ none
unfolding lookup without
lookup-without_self n [] d = refl
lookup-without_self n (e ∷ es) d = elim (Bool-cases (has_name n e)) [
  | inl hit ↦
      let (busy, same) = has_name-key n e hit in
      rw (hit, has_name-empty_entry n) (ap (λ k. lookup k es) (sym same) ∙ d.0 busy)
  | inr miss ↦ rw miss (rw miss (lookup-without_self n es d.1))
]

lookup-without_ne :
    (n : List ℕ) (r : Registry) (j : List ℕ)
    → bytes_eq n j ≡ false
    → lookup j (without n r) ≡ lookup j r
unfolding lookup without has_name
lookup-without_ne n [] j h = refl
lookup-without_ne n (e ∷ es) j h = elim (Bool-cases (has_name n e)) [
  | inl hit ↦ ground (arith, ap (λ k. bytes_eq k j) (has_name-key n e hit).1)
  | inr miss ↦ ground (arith, lookup-without_ne n es j h)
]

lookup-without :
    (n : List ℕ) (r : Registry) (j : List ℕ)
    → Distinct r
    → lookup j (without n r) ≡ (if bytes_eq n j then none else lookup j r)
lookup-without n r j d = elim (Bool-cases (bytes_eq n j)) [
  | inl eq ↦ rw eq (rw (← eq_of_bytes_eq n j eq) (lookup-without_self n r d))
  | inr ne ↦ rw ne (lookup-without_ne n r j ne)
]

length-without : (n : List ℕ) (r : Registry) → length (without n r) ≡ length r
unfolding without
length-without n [] = refl
length-without n (e ∷ es) = ground (arith, length-without n es)

Entries-without : (n : List ℕ) (r : Registry) → Entries r → Entries (without n r)
unfolding without
Entries-without n [] w = tt
Entries-without n (e ∷ es) w = ground (arith, empty_entry-IsEntry, Entries-without n es w.1)

Distinct-without : (n : List ℕ) (r : Registry) → Distinct r → Distinct (without n r)
unfolding without
Distinct-without n [] d = tt
Distinct-without n (e ∷ es) d = elim (Bool-cases (has_name n e)) [
  | inl hit ↦ rw hit ((λ busy. cc), d.1)
  | inr miss ↦ rw miss (
    (λ busy. ground (arith, lookup-without n es (key e) d.1, d.0 busy)),
    Distinct-without n es d.1,
  )
]

pub Entries-init : (n : ℕ) → Entries (replicate n empty_entry)
Entries-init zero = tt
Entries-init (suc n) = (empty_entry-IsEntry, Entries-init n)

pub lookup-init : (n : ℕ) (j : List ℕ) → lookup j (replicate n empty_entry) ≡ none
unfolding lookup has_name
lookup-init zero j = refl
lookup-init (suc n) j = lookup-init n j

pub Distinct-init : (n : ℕ) → Distinct (replicate n empty_entry)
Distinct-init zero = tt
Distinct-init (suc n) = ((λ h. cc), Distinct-init n)

-- The registry of a server that starts is well formed, and nobody is online.
pub init-IsRegistry : IsRegistry init × ((j : List ℕ) → view init j ≡ none)
unfolding view
init-IsRegistry = (
  record {
    size = length-replicate 64 empty_entry;
    entries = Entries-init 64;
    distinct = Distinct-init 64;
  },
  λ j. ap online (lookup-init 64 j),
)

-- On a well-formed registry and a name of at most 32 bytes, `sqmp_registry_remove` has no undefined
-- behaviour: afterwards the name is not in the directory, every other name has what it had, and the
-- registry is well formed.
pub registry_remove-erase :
    {r : Registry} {uname : List ℕ} {ulen : ℕ}
    → IsRegistry r
    → IsName uname ulen
    → (r' : Registry) × (registry_remove uname ulen r ≡ ok r')
      × IsRegistry r'
      × ((j : List ℕ) → view r' j ≡ erase (take ulen uname) (view r) j)
unfolding view
registry_remove-erase {r} {uname} {ulen} w n = (
  without name r,
  registry_remove-without r w.entries n,
  record {
    size = length-without name r ∙ w.size;
    entries = Entries-without name r w.entries;
    distinct = Distinct-without name r w.distinct;
  },
  λ j. rw (lookup-without name r j w.distinct) (ground arith),
)
  where
    name : List ℕ
    name = take ulen uname
