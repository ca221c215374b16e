-- ===== src/Registry/Slots.antt =====
-- The scan of `sqmp_registry_add` (src/shared/sqmp.c): the name, or else the first slot that is free.
use squimpchat.Base.{
  ℕ, zero, suc, ◌+◌, ◌≤◌, ◌<◌, ◌≡◌, refl, ap, ◌∙◌, ◌⊎◌, inl, inr, true, false, Option, none, some,
  List, [], ◌∷◌, arith, if◌then◌else◌, Bool-cases, length, take, ok,
}
use squimpchat.Registry.{Entry, Registry, Scan, taken, free, first_slot, add_scan}
use squimpchat.Registry.Names.{IsName, has_name, same_name-key}
use squimpchat.Registry.Lookup.{lookup, Entries}

-- How many entries are in use.
unfoldable pub used : Registry → ℕ
used [] = 0
used (e ∷ es) = if e.in_use then suc (used es) else used es

-- The first entry that is not in use stands at the index.
abbrev pub IsSlot : Registry → ℕ → Type 0
IsSlot [] k = ⊥
IsSlot (e ∷ es) zero = e.in_use ≡ false
IsSlot (e ∷ es) (suc k) = (e.in_use ≡ true) × IsSlot es k

pub slot_after : ℕ → Option ℕ → Registry → Option ℕ
slot_after i slot [] = slot
slot_after i slot (e ∷ es) = slot_after (suc i) (if e.in_use then slot else first_slot slot i) es

abbrev pub outcome : Option Entry → Option ℕ → Scan
outcome none slot = free slot
outcome (some e) slot = taken

pub add_scan_lem :
    (i : ℕ) (slot : Option ℕ) (r : Registry) {uname : List ℕ} {ulen : ℕ}
    → Entries r
    → IsName uname ulen
    → add_scan i slot r uname ulen ≡ ok (outcome (lookup (take ulen uname) r) (slot_after i slot r))
unfolding add_scan lookup slot_after has_name
add_scan_lem i slot [] w n = refl
add_scan_lem i slot (e ∷ es) w n = ground (
  arith,
  same_name-key w.0 n,
  add_scan_lem (suc i) (if e.in_use then slot else first_slot slot i) es w.1 n,
)

slot_after-some : (i s : ℕ) (r : Registry) → slot_after i (some s) r ≡ some s
unfolding slot_after
slot_after-some i s [] = refl
slot_after-some i s (e ∷ es) = ground (arith, slot_after-some (suc i) s es)

used-le-length : (r : Registry) → used r ≤ length r
unfolding used
used-le-length [] = omega arith
used-le-length (e ∷ es) = ground (arith, used-le-length es)

pub slot_after_cases :
    (i : ℕ) (r : Registry)
    → ((slot_after i none r ≡ none) × (used r ≡ length r))
      ⊎ ((k : ℕ) × (slot_after i none r ≡ some (i + k)) × IsSlot r k × (used r < length r))
unfolding slot_after used
slot_after_cases i [] = inl (refl, refl)
slot_after_cases i (e ∷ es) = elim (Bool-cases e.in_use) [
  | inl busy ↦ rw busy (elim (slot_after_cases (suc i) es) [
    | inl (p, q) ↦ inl (p, ap suc q)
    | inr (k, p, q, c) ↦ inr (suc k, p ∙ ap some (omega arith), (refl, q), omega arith)
  ])
  | inr idle ↦ rw idle (
      inr (
        0,
        slot_after-some (suc i) i es ∙ ap some (omega arith),
        refl,
        omega (arith, used-le-length es),
      ))
]
