-- ===== src/AddUser/RoundTrip.antt =====
-- What data/sqmp_add_user.c writes is what src/server/server.c reads: the user that was added can log in.
use mathlib.Core.List.{append_assoc}
use squimpchat.Base.{
  ℕ, ◌≤◌, ◌≡◌, ◌≢◌, refl, sym, ap, ◌∙◌, Bool, true, false, Option, none, some, List, [], ◌∷◌, ◌++◌,
  arith, length, length-append, bytes_eq, bytes_eq_refl, ok,
}
use squimpchat.Server.Users.{
  newline, colon, line_room, fgets_lines, c_string, split_colon, verify_lines, verify_credentials,
}
use squimpchat.AddUser.{forbidden, exists_user, has_user, print_hash, user_line, content, add_user}
use squimpchat.AddUser.File.{
  plain, no_colon, is_text, fgets_lines-line, fgets_lines-append, c_string-plain, split_colon-name,
  plain-append,
}
use squimpchat.AddUser.Digits.{
  all_bytes, print_hash-plain, length-print_hash, check_hash-print_hash, verify_lines-append,
  verify_lines-other, exists_user-last,
}

-- A name that can be a user's: one line of the file holds it with its hash.
pub record IsUsername (name : List ℕ) : Type 0 where
  pub plain : plain name ≡ true
  pub no_colon : no_colon name ≡ true
  pub fits : length name ≤ 189
  pub some_byte : length name ≢ 0
  pub allowed : forbidden name ≡ false

pub record IsHash (hash : List ℕ) : Type 0 where
  pub size : length hash ≡ 32
  pub bytes : all_bytes hash ≡ true

-- The line ends with its newline, and has no other.
user_line-newline :
    (name hash : List ℕ) → user_line name hash ≡ (name ++ colon ∷ print_hash hash) ++ newline ∷ []
unfolding user_line
user_line-newline name hash = refl

user_line-plain :
    (name hash : List ℕ) → IsUsername name → plain (name ++ colon ∷ print_hash hash) ≡ true
user_line-plain name hash n =
    plain-append name (colon ∷ print_hash hash) n.plain (print_hash-plain hash)

user_line-lines :
    (name hash : List ℕ)
    → IsUsername name
    → IsHash hash
    → fgets_lines line_room (user_line name hash) ≡ user_line name hash ∷ []
user_line-lines name hash n h = rw (user_line-newline name hash) (
    fgets_lines-line line_room (name ++ colon ∷ print_hash hash) (user_line-plain name hash n) (
      omega (
        arith,
        length-append name (colon ∷ print_hash hash),
        length-print_hash hash,
        n.fits,
        h.size,
      )))

user_line-split :
    (name hash : List ℕ)
    → IsUsername name
    → IsHash hash
    → split_colon (c_string (user_line name hash)) ≡ some (name, print_hash hash ++ newline ∷ [])
user_line-split name hash n h =
    rw
      (
        user_line-newline name hash,
        c_string-plain _ (user_line-plain name hash n),
        append_assoc name (colon ∷ print_hash hash) (newline ∷ []),
      )
      (split_colon-name name (print_hash hash ++ newline ∷ []) n.no_colon)

-- What the tool makes of the file: the user can log in with the password, is not added again, and no
-- other user is touched.
pub record Registered (sha256 : List ℕ → List ℕ) (name password : List ℕ) (file : Option (List ℕ))
    : Type 0 where
  pub file' : List ℕ
  pub made : add_user sha256 name password file true ≡ some file'
  pub logs_in : verify_credentials (some file') name (sha256 password) ≡ ok true
  pub once :
      (again : List ℕ) (writable : Bool) → add_user sha256 name again (some file') writable ≡ none
  pub others :
      (other hash : List ℕ)
      → bytes_eq other name ≡ false
      → verify_credentials (some file') other hash
        ≡ verify_credentials (some (content file)) other hash

-- The lines of the file to which the tool has added a user.
added_lines :
    (name hash : List ℕ) (file : Option (List ℕ))
    → IsUsername name
    → IsHash hash
    → is_text (content file) ≡ true
    → fgets_lines line_room (content file ++ user_line name hash)
      ≡ fgets_lines line_room (content file) ++ user_line name hash ∷ []
added_lines name hash file n h t =
    fgets_lines-append (content file) (user_line name hash) t
    ∙ ap (λ ls. fgets_lines line_room (content file) ++ ls) (user_line-lines name hash n h)

has_user-content :
    (name : List ℕ) (file : Option (List ℕ))
    → has_user name file ≡ exists_user name (fgets_lines line_room (content file))
unfolding exists_user fgets_lines
has_user-content name none = refl
has_user-content name (some file) = refl

verify_user_line :
    (name hash : List ℕ)
    → IsUsername name
    → IsHash hash
    → verify_lines name hash (user_line name hash ∷ []) ≡ ok true
unfolding verify_lines
verify_user_line name hash n h = ground (
  arith,
  user_line-split name hash n h,
  bytes_eq_refl name,
  check_hash-print_hash hash h.size h.bytes,
)

-- If the file is empty or ends with a newline, and the name is allowed, is not in the file and has
-- no newline, colon or 0 byte and at most 189 bytes: the tool adds a line to the file, with which
-- the server lets the user in by the hash of the password; the tool refuses the name from then on;
-- and for every other name the server decides as before.
pub add_user-Registered :
    (sha256 : List ℕ → List ℕ) (name password : List ℕ) (file : Option (List ℕ))
    → IsUsername name
    → IsHash (sha256 password)
    → is_text (content file) ≡ true
    → has_user name file ≡ false
    → Registered sha256 name password file
unfolding add_user verify_credentials
add_user-Registered sha256 name password file n h t new = record {
  file' = content file ++ user_line name hash;
  made = ground (arith, n.some_byte, n.allowed, new);
  logs_in = rw lines (verify_lines-append name hash ls _ absent ∙ verify_user_line name hash n h);
  once = refused;
  others =
      λ other hash1 differs. rw lines (verify_lines-other other hash1 ls _ name _ split differs);
}
  where
    hash : List ℕ
    hash = sha256 password

    ls : List (List ℕ)
    ls = fgets_lines line_room (content file)

    lines :
        fgets_lines line_room (content file ++ user_line name hash) ≡ ls ++ user_line name hash ∷ []
    lines = added_lines name hash file n h t

    absent : exists_user name ls ≡ false
    absent = sym (has_user-content name file) ∙ new

    split :
        split_colon (c_string (user_line name hash)) ≡ some (name, print_hash hash ++ newline ∷ [])
    split = user_line-split name hash n h

    present : exists_user name (fgets_lines line_room (content file ++ user_line name hash)) ≡ true
    present = rw lines (exists_user-last name ls _ _ split)

    refused :
        (again : List ℕ) (writable : Bool)
        → add_user sha256 name again (some (content file ++ user_line name hash)) writable ≡ none
    refused again writable = ground (arith, present)
