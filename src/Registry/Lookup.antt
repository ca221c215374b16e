-- ===== src/Registry/Lookup.antt =====
-- What a registry means: a directory from names to the stream and key of the user who is online,
-- what makes a registry well formed, and the lookups of src/shared/sqmp.c in terms of the directory.
use squimpchat.Base.{
  ℕ, ◌<◌, ◌≡◌, refl, true, Option, none, some, List, [], ◌∷◌, arith, if◌then◌else◌, length, take,
  bytes_eq, ok,
}
use squimpchat.Registry.{
  Entry, Registry, registry_max, username_max_len, matches, same_name, find_entry, registry_find,
  registry_get_pubkey,
}
use squimpchat.Registry.Names.{key, IsEntry, IsName, has_name, matches-has_name}

-- The first entry with the name.
unfoldable pub lookup : List ℕ → Registry → Option Entry
lookup n [] = none
lookup n (e ∷ es) = if has_name n e then some e else lookup n es

abbrev pub Entries : Registry → Type 0
Entries [] = Unit
Entries (e ∷ es) = IsEntry e × Entries es

-- No name is online twice.
abbrev pub Distinct : Registry → Type 0
Distinct [] = Unit
Distinct (e ∷ es) = (e.in_use ≡ true → lookup (key e) es ≡ none) × Distinct es

pub record IsRegistry (r : Registry) : Type 0 where
  pub size : length r ≡ registry_max
  pub entries : Entries r
  pub distinct : Distinct r

-- What a lookup tells of a user: the stream, which may be NULL, and the public key.
abbrev pub Online : Type 0
Online = Option ℕ × List ℕ

abbrev pub Directory : Type 0
Directory = List ℕ → Option Online

abbrev pub online : Option Entry → Option Online
online none = none
online (some e) = some (e.stream, e.public_key)

-- The directory that a registry stands for.
unfoldable pub view : Registry → Directory
view r n = online (lookup n r)

abbrev pub insert : List ℕ → Online → Directory → Directory
insert n v d j = if bytes_eq n j then some v else d j

abbrev pub erase : List ℕ → Directory → Directory
erase n d j = if bytes_eq n j then none else d j

abbrev pub stream_at : Option Online → Option ℕ
stream_at none = none
stream_at (some (s, k)) = s

abbrev pub key_at : Option Online → Option (List ℕ)
key_at none = none
key_at (some (s, k)) = some k

pub find_entry-lookup :
    (r : Registry) {uname : List ℕ} {ulen : ℕ}
    → Entries r
    → IsName uname ulen
    → find_entry uname ulen r ≡ ok (lookup (take ulen uname) r)
unfolding find_entry lookup
find_entry-lookup [] w n = refl
find_entry-lookup (e ∷ es) w n = ground (arith, matches-has_name w.0 n, find_entry-lookup es w.1 n)

-- A length that no entry can hold is not compared any further.
pub find_entry_long :
    (r : Registry) (uname : List ℕ) (ulen : ℕ)
    → Entries r
    → username_max_len < ulen
    → find_entry uname ulen r ≡ ok none
unfolding find_entry matches same_name
find_entry_long [] uname ulen w h = refl
find_entry_long (e ∷ es) uname ulen w h =
    ground (arith, w.0.fits, find_entry_long es uname ulen w.1 h)

-- On a well-formed registry and a name of at most 32 bytes, `sqmp_registry_find` and
-- `sqmp_registry_get_pubkey` have no undefined behaviour, and return the stream and the key that
-- the directory has at the name (NULL and -1 if it has none).
pub find-view :
    {r : Registry} {uname : List ℕ} {ulen : ℕ}
    → IsRegistry r
    → IsName uname ulen
    → (registry_find uname ulen r ≡ ok (stream_at (view r (take ulen uname))))
      × (registry_get_pubkey uname ulen r ≡ ok (key_at (view r (take ulen uname))))
unfolding registry_find registry_get_pubkey view
find-view {r} w n = ground (arith, find_entry-lookup r w.entries n)

-- On a well-formed registry a name length above 32, which a packet may carry, makes both lookups
-- report that the user is not found; no byte of the name is read, so its buffer may be of any size.
pub find_long :
    {r : Registry} (uname : List ℕ) (ulen : ℕ)
    → IsRegistry r
    → username_max_len < ulen
    → (registry_find uname ulen r ≡ ok none) × (registry_get_pubkey uname ulen r ≡ ok none)
unfolding registry_find registry_get_pubkey
find_long {r} uname ulen w h = ground (arith, find_entry_long r uname ulen w.entries h)
