-- ===== src/Server/Users.antt =====
-- `verify_credentials` of src/server/server.c: the file of users, and the check of a name and a hash
-- against it. The file is read anew at each call; its content is an argument, `none` if it cannot
-- be opened.
use squimpchat.Base.{
  ℕ, ◌+◌, ◌-◌, ◌*◌, Bool, false, ◌&&◌, ◌||◌, Option, none, some, List, [], ◌∷◌, leb, ◌==◌,
  if◌then◌else◌, length, bytes_eq, Run, ok, fault, ◌>>=◌, memcmp_eq,
}

abbrev pub newline : ℕ
newline = 10

abbrev pub colon : ℕ
colon = b':'

-- What `fgets` reads into `char line[256]` at most.
abbrev pub line_room : ℕ
line_room = 255

-- One more byte in front of the first line.
abbrev prepend : ℕ → List (List ℕ) → List (List ℕ)
prepend c [] = (c ∷ []) ∷ []
prepend c (l ∷ ls) = (c ∷ l) ∷ ls

-- What the calls of `fgets` read, one after the other, with room for `room` more bytes in the first:
-- a line ends behind a newline, or when it is full.
unfoldable pub fgets_lines : ℕ → List ℕ → List (List ℕ)
fgets_lines room [] = []
fgets_lines room (c ∷ cs) =
    let full = (c ∷ []) ∷ fgets_lines line_room cs in
    let more = prepend c (fgets_lines (room - 1) cs) in
    if (c == newline) || leb room 1 then full else more

-- The C string in a buffer: its bytes before the first 0.
unfoldable pub c_string : List ℕ → List ℕ
c_string [] = []
c_string (c ∷ cs) = let rest = c ∷ c_string cs in if c == 0 then [] else rest

abbrev with_name : ℕ → Option (List ℕ × List ℕ) → Option (List ℕ × List ℕ)
with_name c none = none
with_name c (some (name, hex)) = some (c ∷ name, hex)

-- `strchr(line, ':')`: the strings before and behind the first colon.
unfoldable pub split_colon : List ℕ → Option (List ℕ × List ℕ)
split_colon [] = none
split_colon (c ∷ cs) =
    let rest = with_name c (split_colon cs) in if c == colon then some ([], cs) else rest

abbrev drop_eol : ℕ → List ℕ → List ℕ
drop_eol c [] = if (c == newline) || (c == 13) then [] else c ∷ []
drop_eol c (x ∷ xs) = c ∷ x ∷ xs

-- The loop that cuts newlines and carriage returns off the end.
unfoldable pub strip_eol : List ℕ → List ℕ
strip_eol [] = []
strip_eol (c ∷ cs) = drop_eol c (strip_eol cs)

unfoldable pub hex_digit : ℕ → Option ℕ
hex_digit c =
    if leb b'0' c && leb c b'9'
    then some (c - b'0')
    else if leb b'a' c && leb c b'f'
    then some (c - b'a' + 10)
    else if leb b'A' c && leb c b'F'
    then some (c - b'A' + 10)
    else none

-- `sscanf(p, "%02x", &b)` at two characters. One digit before another character is a number too; a
-- prefix `0x`, and a first character that is no digit (a sign, white space, or what leaves `b`
-- unset), are not modelled and count as undefined.
unfoldable pub scan_byte : ℕ → ℕ → Run ℕ
unfolding hex_digit
scan_byte a b = elim (hex_digit a) [
  | none ↦ fault
  | some x ↦ elim (hex_digit b) [
    | none ↦ if (b == b'x') || (b == b'X') then fault else ok x
    | some y ↦ ok (16 * x + y)
  ]
]

-- The loop over the digits of the stored hash, two by two.
unfoldable pub scan_hash : List ℕ → Run (List ℕ)
unfolding scan_byte
scan_hash [] = ok []
scan_hash (a ∷ []) = ok []
scan_hash (a ∷ b ∷ rest) = do x ← scan_byte a b; xs ← scan_hash rest; ok (x ∷ xs)

-- The line of the user: the hash is compared if it has 64 digits.
unfoldable pub check_hash : List ℕ → List ℕ → Run Bool
unfolding scan_hash
check_hash hex hash =
    let digits = strip_eol hex in
    if length digits == 64
    then (do stored ← scan_hash digits; memcmp_eq hash stored 32)
    else ok false

-- The `while` loop: the first line with the name decides.
unfoldable pub verify_lines : List ℕ → List ℕ → List (List ℕ) → Run Bool
unfolding check_hash
verify_lines username hash [] = ok false
verify_lines username hash (l ∷ ls) =
    let rest = verify_lines username hash ls in
    elim (split_colon (c_string l)) [
      | none ↦ rest
      | some (name, hex) ↦ if bytes_eq username name then check_hash hex hash else rest
    ]

-- `verify_credentials`: `username` is the C string.
unfoldable pub verify_credentials : Option (List ℕ) → List ℕ → List ℕ → Run Bool
unfolding verify_lines
verify_credentials none username hash = ok false
verify_credentials (some file) username hash =
    verify_lines username hash (fgets_lines line_room file)
