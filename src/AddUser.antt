-- ===== src/AddUser.antt =====
-- data/sqmp_add_user.c: the program that adds a user to the file of users. SHA-256 is a parameter, the
-- content of the file an argument, `none` if it cannot be opened. What is printed is left out.
pub mod File
pub mod Digits
pub mod RoundTrip
pub mod Colons
pub mod Tests
use squimpchat.Base.{
  ℕ, ◌+◌, ◌-◌, ◌/◌, ◌%◌, Bool, true, false, ◌||◌, Option, none, some, List, [], ◌∷◌, ◌++◌, codes,
  ltb, ◌==◌, if◌then◌else◌, negate, length, bytes_eq,
}
use squimpchat.Server.Users.{line_room, fgets_lines, c_string, split_colon}

-- The names that the client or a later version gives a meaning.
unfoldable pub forbidden : List ℕ → Bool
forbidden name =
    bytes_eq name (codes "exit")
    || bytes_eq name (codes "quit")
    || bytes_eq name (codes "r")
    || bytes_eq name (codes "reply")

-- The `while` loop: a line before whose first colon the name stands.
unfoldable pub exists_user : List ℕ → List (List ℕ) → Bool
exists_user name [] = false
exists_user name (l ∷ ls) =
    let rest = exists_user name ls in
    elim (split_colon (c_string l)) [
      | none ↦ rest
      | some (found, hex) ↦ if bytes_eq name found then true else rest
    ]

-- A file that cannot be opened to be read has no users.
abbrev pub has_user : List ℕ → Option (List ℕ) → Bool
has_user name none = false
has_user name (some file) = exists_user name (fgets_lines line_room file)

-- A digit of `%02x`.
unfoldable pub hex_char : ℕ → ℕ
hex_char d = if ltb d 10 then b'0' + d else b'a' + (d - 10)

-- The loop that prints the hash.
unfoldable pub print_hash : List ℕ → List ℕ
unfolding hex_char
print_hash [] = []
print_hash (b ∷ bs) = hex_char (b / 16) ∷ hex_char (b % 16) ∷ print_hash bs

-- The line that is written.
unfoldable pub user_line : List ℕ → List ℕ → List ℕ
unfolding print_hash
user_line name hash = name ++ b':' ∷ print_hash hash ++ 10 ∷ []

-- What the file has before the line is appended.
abbrev pub content : Option (List ℕ) → List ℕ
content none = []
content (some file) = file

-- The part of `main` behind the test of `argc`: what the file contains then, or `none` if the program
-- returns 1. `writable` is whether `fopen` opens the file to append to it.
unfoldable pub add_user :
    (sha256 : List ℕ → List ℕ) (name password : List ℕ) (file : Option (List ℕ)) (writable : Bool)
    → Option (List ℕ)
unfolding forbidden exists_user user_line
add_user sha256 name password file writable =
    if length name == 0
    then none
    else if forbidden name
    then none
    else if has_user name file
    then none
    else if negate writable
    then none
    else some (content file ++ user_line name (sha256 password))

-- `main`, by the arguments behind the program's name; the third is the path of the file.
unfoldable pub run :
    (sha256 : List ℕ → List ℕ) (args : List (List ℕ)) (file : Option (List ℕ)) (writable : Bool)
    → Option (List ℕ)
unfolding add_user
run sha256 (name ∷ password ∷ []) file writable = add_user sha256 name password file writable
run sha256 (name ∷ password ∷ path ∷ []) file writable = add_user sha256 name password file writable
run sha256 _ file writable = none
