-- ===== src/Registry/Insert.antt =====
-- `sqmp_registry_add` of src/shared/sqmp.c, in terms of the directory.
use squimpchat.Base.{
  ℕ, zero, suc, ◌<◌, ◌≡◌, ◌≢◌, refl, ap, ◌∙◌, ◌⊎◌, inl, inr, Bool, true, false, Option, none, some,
  List, [], ◌∷◌, ◌++◌, arith, if◌then◌else◌, Bool-cases, Option-cases, length, take, drop, set,
  get_elem?, length-set, length-take, length-drop, length-append, bytes_eq, eq_of_bytes_eq,
  bytes_eq_sym, take-append_eq, take_all, drop_all, Run, ok, memcpy_lem,
}
use mathlib.Core.List.{append-nil}
use native.Mathlib.Nat.{zero-add}
use squimpchat.Registry.{Entry, Registry, registry_max, fill, store, registry_add}
use squimpchat.Registry.Names.{key, IsEntry, IsName, has_name}
use squimpchat.Registry.Lookup.{lookup, Entries, Distinct, IsRegistry, Online, view, insert}
use squimpchat.Registry.Slots.{used, IsSlot, add_scan_lem, slot_after_cases}

lookup-set :
    (r : Registry) (k : ℕ) (e : Entry) (j : List ℕ)
    → IsSlot r k
    → e.in_use ≡ true
    → lookup (key e) r ≡ none
    → lookup j (set r k e) ≡ (if bytes_eq (key e) j then some e else lookup j r)
unfolding lookup has_name
lookup-set [] k e j s u h = absurd s
lookup-set (x ∷ xs) zero e j s u h = ground arith
lookup-set (x ∷ xs) (suc k) e j s u h = elim (Bool-cases (bytes_eq (key e) j)) [
  | inl eq ↦
      ground (arith, ap (bytes_eq (key x)) (eq_of_bytes_eq (key e) j eq), lookup-set xs k e j s.1 u)
  | inr ne ↦ ground (arith, lookup-set xs k e j s.1 u)
]

used-set :
    (r : Registry) (k : ℕ) (e : Entry)
    → IsSlot r k
    → e.in_use ≡ true
    → used (set r k e) ≡ suc (used r)
unfolding used
used-set [] k e s u = absurd s
used-set (x ∷ xs) zero e s u = rw (s, u)
used-set (x ∷ xs) (suc k) e s u = rw s.0 (ap suc (used-set xs k e s.1 u))

Entries-set : (r : Registry) (k : ℕ) (e : Entry) → IsEntry e → Entries r → Entries (set r k e)
Entries-set [] k e h w = tt
Entries-set (x ∷ xs) zero e h w = (h, w.1)
Entries-set (x ∷ xs) (suc k) e h w = (w.0, Entries-set xs k e h w.1)

Distinct-set :
    (r : Registry) (k : ℕ) (e : Entry)
    → IsSlot r k
    → e.in_use ≡ true
    → lookup (key e) r ≡ none
    → Distinct r
    → Distinct (set r k e)
unfolding lookup has_name
Distinct-set [] k e s u h d = absurd s
Distinct-set (x ∷ xs) zero e s u h d = (λ _. ground arith, d.1)
Distinct-set (x ∷ xs) (suc k) e s u h d = (
  λ busy. ground (arith, lookup-set xs k e (key x) s.1 u, bytes_eq_sym (key e) (key x), d.0 busy),
  Distinct-set xs k e s.1 u (ground arith) d.1,
)

get_elem?-IsSlot :
    (r : Registry) (k : ℕ)
    → IsSlot r k
    → Entries r
    → (e : Entry) × (get_elem? r k ≡ some e) × IsEntry e
get_elem?-IsSlot [] k s w = absurd s
get_elem?-IsSlot (x ∷ xs) zero s w = (x, refl, w.0)
get_elem?-IsSlot (x ∷ xs) (suc k) s w = get_elem?-IsSlot xs k s.1 w.1

record Filled (e : Entry) (name : List ℕ) (v : Online) : Type 0 where
  live : e.in_use ≡ true
  named : key e ≡ name
  shape : IsEntry e
  shown : (e.stream ≡ v.0) × (e.public_key ≡ v.1)

fill_lem :
    (e : Entry) (uname : List ℕ) (ulen : ℕ) (stream : Option ℕ) (pubkey : List ℕ)
    → IsEntry e
    → IsName uname ulen
    → length pubkey ≡ 32
    → (e' : Entry) × (fill e uname ulen stream pubkey ≡ ok e')
      × Filled e' (take ulen uname) (stream, pubkey)
unfolding fill
fill_lem e uname ulen stream pubkey w n p = (
  record {
    in_use = true;
    username_len = ulen;
    username = take ulen uname ++ drop ulen e.username;
    public_key = take 32 pubkey ++ drop 32 e.public_key;
    stream = stream;
  },
  rw (
    memcpy_lem e.username uname ulen (omega arith) n.inside,
    memcpy_lem e.public_key pubkey 32 (omega arith) (omega arith),
  ),
  record {
    live = refl;
    named =
        take-append_eq ulen (take ulen uname) _ (omega (arith, length-take ulen uname, n.inside));
    shape = record {
      name_size = omega (
        arith,
        length-append (take ulen uname) (drop ulen e.username),
        length-take ulen uname,
        length-drop ulen e.username,
        n.inside,
        n.short,
        w.name_size,
      );
      key_size = omega (
        arith,
        length-append (take 32 pubkey) (drop 32 e.public_key),
        length-take 32 pubkey,
        length-drop 32 e.public_key,
      );
      fits = n.short;
    };
    shown = (
      refl,
      rw (drop_all 32 e.public_key (omega arith), append-nil) (take_all 32 pubkey (omega arith)),
    );
  },
)

view-set :
    (r : Registry) (k : ℕ) (e : Entry) (j : List ℕ) {name : List ℕ} {v : Online}
    → IsSlot r k
    → Filled e name v
    → lookup (key e) r ≡ none
    → view (set r k e) j ≡ insert name v (view r) j
unfolding view
view-set r k e j {name} {v} s f fresh =
    rw (lookup-set r k e j s f.live fresh, f.named)
      (elim (Bool-cases (bytes_eq name j)) [
        | inl eq ↦ rw eq (rw (f.shown.0, f.shown.1))
        | inr ne ↦ rw ne
      ])

-- What `sqmp_registry_add` comes to.
pub data Added (r : Registry) (name : List ℕ) (v : Online) (x : Run (Bool × Registry))
    : Type 0 where
  refused : (view r name ≢ none) ⊎ (used r ≡ registry_max) → x ≡ ok (false, r) → Added r name v x
  accepted :
      (r' : Registry)
      → view r name ≡ none
      → used r < registry_max
      → x ≡ ok (true, r')
      → IsRegistry r'
      → ((j : List ℕ) → view r' j ≡ insert name v (view r) j)
      → used r' ≡ suc (used r)
      → Added r name v x

-- On a well-formed registry, a name of at most 32 bytes and a key of 32 bytes, `sqmp_registry_add`
-- has no undefined behaviour. It returns -1 and changes nothing if the name is in the directory or
-- all 64 entries are in use. Otherwise it returns 0, the name now has the stream and the key, every
-- other name has what it had, one more entry is in use, and the registry is well formed.
pub registry_add-Added :
    {r : Registry} {uname : List ℕ} {ulen : ℕ} (stream : Option ℕ) {pubkey : List ℕ}
    → IsRegistry r
    → IsName uname ulen
    → length pubkey ≡ 32
    → Added r (take ulen uname) (stream, pubkey) (registry_add uname ulen stream pubkey r)
unfolding registry_add view
registry_add-Added {r} {uname} {ulen} stream {pubkey} w n p =
    elim (Option-cases (lookup (take ulen uname) r)) [
      | inr (e, found) ↦
          refused (inl (rw found (λ c. cc))) (rw (add_scan_lem 0 none r w.entries n, found, store))
      | inl new ↦ elim (slot_after_cases 0 r) [
        | inl (full, all) ↦
            refused (inr (all ∙ w.size)) (rw (add_scan_lem 0 none r w.entries n, new, full, store))
        | inr (k, at, slot, room) ↦
            let (e, got, we) = get_elem?-IsSlot r k slot w.entries in
            let (e', made, filled) = fill_lem e uname ulen stream pubkey we n p in
            let fresh : lookup (key e') r ≡ none = rw filled.named new in
            accepted (set r k e') (rw new) (omega (arith, w.size))
              (rw (add_scan_lem 0 none r w.entries n, new, at, store, zero-add, got, made))
              (record {
                size = length-set r k e' ∙ w.size;
                entries = Entries-set r k e' filled.shape w.entries;
                distinct = Distinct-set r k e' slot filled.live fresh w.distinct;
              })
              (λ j. view-set r k e' j slot filled fresh) (used-set r k e' slot filled.live)
      ]
    ]
