-- ===== src/Registry/Tests.antt =====
-- Two users in the registry of src/shared/sqmp.c, and runs of its functions on them.
use squimpchat.Base.{
  bytes_eq, ℕ, ◌≡◌, refl, true, Option, none, some, List, ◌∷◌, ◌++◌, arith, codes, replicate, zeros,
  ok, length,
}
use squimpchat.Registry.{
  Entry, Registry, empty_entry, registry_add, registry_remove, registry_find, registry_get_pubkey,
}
use squimpchat.Registry.Names.{IsEntry, IsName, has_name}
use squimpchat.Registry.Lookup.{IsRegistry, lookup, view, erase, find-view}
use squimpchat.Registry.Insert.{Added, registry_add-Added}
use squimpchat.Registry.Remove.{Entries-init, Distinct-init, lookup-init, registry_remove-erase}

abbrev pub ada_key : List ℕ
ada_key = replicate 32 7

abbrev pub bob_key : List ℕ
bob_key = replicate 32 9

abbrev pub ada : Entry
ada = record {
  in_use = true;
  username_len = 3;
  username = codes "ada" ++ zeros 29;
  public_key = ada_key;
  stream = some 1;
}

abbrev pub bob : Entry
bob = record {
  in_use = true;
  username_len = 3;
  username = codes "bob" ++ zeros 29;
  public_key = bob_key;
  stream = some 2;
}

abbrev pub two_users : Registry
two_users = ada ∷ bob ∷ replicate 62 empty_entry

entry :
    (n k : List ℕ) (s : Option ℕ)
    → length n ≡ 32
    → length k ≡ 32
    → IsEntry (record { in_use = true; username_len = 3; username = n; public_key = k; stream = s })
entry n k s h j = record { name_size = h; key_size = j; fits = omega arith }

ada_alone : lookup (codes "ada") (bob ∷ replicate 62 empty_entry) ≡ none
unfolding lookup has_name bytes_eq
ada_alone = lookup-init 62 (codes "ada")

pub two_users-IsRegistry : IsRegistry two_users
two_users-IsRegistry = record {
  size = refl;
  entries = (entry _ _ _ refl refl, (entry _ _ _ refl refl, Entries-init 62));
  distinct = ((λ busy. ada_alone), ((λ busy. lookup-init 62 (codes "bob")), Distinct-init 62));
}

name3 : (n : List ℕ) → length n ≡ 3 → IsName n 3
name3 n h = record { short = omega arith; inside = omega arith }

find-view_example :
    (registry_find (codes "bob") 3 two_users ≡ ok (some 2))
    × (registry_get_pubkey (codes "bob") 3 two_users ≡ ok (some bob_key))
unfolding view lookup has_name bytes_eq
find-view_example = find-view two_users-IsRegistry (name3 (codes "bob") refl)

registry_add-Added_example :
    Added two_users
      (codes "eve")
      (some 3, replicate 32 1)
      (registry_add (codes "eve") 3 (some 3) (replicate 32 1) two_users)
registry_add-Added_example =
    registry_add-Added (some 3) two_users-IsRegistry (name3 (codes "eve") refl) refl

registry_remove-erase_example :
    (r : Registry) × (registry_remove (codes "ada") 3 two_users ≡ ok r)
    × IsRegistry r
    × ((j : List ℕ) → view r j ≡ erase (codes "ada") (view two_users) j)
registry_remove-erase_example =
    registry_remove-erase two_users-IsRegistry (name3 (codes "ada") refl)
