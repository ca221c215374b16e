-- ===== src/Registry.antt =====
-- The connected-user registry of src/shared/sqmp.c: the array `g_registry` and the functions that
-- scan it. Every function holds `g_registry_mutex` for its whole body, so each is one step. A stream
-- pointer is an address, `none` for NULL. The loops recur on the part of the array that is left.
pub mod Names
pub mod Lookup
pub mod Slots
pub mod Insert
pub mod Remove
pub mod Tests
use squimpchat.Base.{
  ℕ, zero, suc, ◌≡◌, Bool, true, false, Option, none, some, List, [], ◌∷◌, map, ◌==◌, if◌then◌else◌,
  set, get_elem?, replicate, zeros, Run, ok, fault, ◌>>=◌, deref, memcpy, memcmp_eq,
}

abbrev pub username_max_len : ℕ
username_max_len = 32

abbrev pub pubkey_len : ℕ
pubkey_len = 32

abbrev pub registry_max : ℕ
registry_max = 64

-- `sqmp_registry_entry_t`
pub record Entry : Type 0 where
  pub in_use : Bool
  pub username_len : ℕ
  pub username : List ℕ
  pub public_key : List ℕ
  pub stream : Option ℕ

abbrev pub Registry : Type 0
Registry = List Entry

-- An entry that `memset` has cleared.
abbrev pub empty_entry : Entry
empty_entry = record {
  in_use = false;
  username_len = 0;
  username = zeros username_max_len;
  public_key = zeros pubkey_len;
  stream = none;
}

abbrev pub init : Registry
init = replicate registry_max empty_entry

-- `entry.username_len == ulen && memcmp(entry.username, uname, ulen) == 0`
unfoldable pub same_name : Entry → List ℕ → ℕ → Run Bool
same_name e uname ulen =
    if e.username_len == ulen then memcmp_eq e.username uname ulen else ok false

-- The test of the loops that look an entry up.
unfoldable pub matches : Entry → List ℕ → ℕ → Run Bool
unfolding same_name
matches e uname ulen = if e.in_use then same_name e uname ulen else ok false

-- What the loop of `sqmp_registry_add` comes to: a return of -1 from inside, or the value of `slot`.
pub data Scan : Type 0 where
  taken : Scan
  free : Option ℕ → Scan

-- `if (slot < 0) slot = i;`
abbrev first_slot : Option ℕ → ℕ → Option ℕ
first_slot none i = some i
first_slot (some s) i = some s

unfoldable pub add_scan : ℕ → Option ℕ → Registry → List ℕ → ℕ → Run Scan
unfolding same_name
add_scan i slot [] uname ulen = ok (free slot)
add_scan i slot (e ∷ es) uname ulen =
    let rest = add_scan (suc i) (if e.in_use then slot else first_slot slot i) es uname ulen in
    if e.in_use then (do same ← same_name e uname ulen; if same then ok taken else rest) else rest

-- The writes to `g_registry[slot]`.
unfoldable pub fill : Entry → List ℕ → ℕ → Option ℕ → List ℕ → Run Entry
fill e uname ulen stream pubkey = do
  name ← memcpy e.username uname ulen
  key ← memcpy e.public_key pubkey 32
  ok (record {
    in_use = true;
    username_len = ulen;
    username = name;
    public_key = key;
    stream = stream;
  })

unfoldable pub store : Registry → Scan → List ℕ → ℕ → Option ℕ → List ℕ → Run (Bool × Registry)
unfolding fill
store r taken uname ulen stream pubkey = ok (false, r)
store r (free none) uname ulen stream pubkey = ok (false, r)
store r (free (some slot)) uname ulen stream pubkey = do
  e ← deref (get_elem? r slot)
  e' ← fill e uname ulen stream pubkey
  ok (true, set r slot e')

-- `sqmp_registry_add`: `true` for 0, `false` for -1.
unfoldable pub registry_add : List ℕ → ℕ → Option ℕ → List ℕ → Registry → Run (Bool × Registry)
unfolding add_scan store
registry_add uname ulen stream pubkey r = do
  scan ← add_scan 0 none r uname ulen
  store r scan uname ulen stream pubkey

-- `sqmp_registry_remove`
unfoldable pub registry_remove : List ℕ → ℕ → Registry → Run Registry
unfolding matches
registry_remove uname ulen [] = ok []
registry_remove uname ulen (e ∷ es) =
    let rest = registry_remove uname ulen es in
    do
      hit ← matches e uname ulen
      if hit then ok (empty_entry ∷ es) else (do es' ← rest; ok (e ∷ es'))

-- The entry at which the loops of the two lookups break.
unfoldable pub find_entry : List ℕ → ℕ → Registry → Run (Option Entry)
unfolding matches
find_entry uname ulen [] = ok none
find_entry uname ulen (e ∷ es) =
    let rest = find_entry uname ulen es in
    do hit ← matches e uname ulen; if hit then ok (some e) else rest

abbrev stream_of : Option Entry → Option ℕ
stream_of none = none
stream_of (some e) = e.stream

abbrev key_of : Option Entry → Option (List ℕ)
key_of none = none
key_of (some e) = some e.public_key

-- `sqmp_registry_find`: `none` for NULL.
unfoldable pub registry_find : List ℕ → ℕ → Registry → Run (Option ℕ)
unfolding find_entry
registry_find uname ulen r = do e ← find_entry uname ulen r; ok (stream_of e)

-- `sqmp_registry_get_pubkey`: `none` for -1, else what is written to `pubkey_out`.
unfoldable pub registry_get_pubkey : List ℕ → ℕ → Registry → Run (Option (List ℕ))
unfolding find_entry
registry_get_pubkey uname ulen r = do e ← find_entry uname ulen r; ok (key_of e)
