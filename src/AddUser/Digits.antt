-- ===== src/AddUser/Digits.antt =====
-- The hash as data/sqmp_add_user.c prints it and src/server/server.c reads it, and the lines of other
-- users.
use squimpchat.Base.{
  ℕ, ◌+◌, ◌*◌, ◌/◌, ◌%◌, ◌<◌, ◌≡◌, refl, Bool, true, false, ◌&&◌, some, List, [], ◌∷◌, ◌++◌, arith,
  ltb, ◌==◌, length, take, bytes_eq, bytes_eq_refl, ok, memcmp_eq_lem,
}
use squimpchat.Server.Users.{
  newline, c_string, split_colon, strip_eol, hex_digit, scan_byte, scan_hash, check_hash,
  verify_lines,
}
use squimpchat.AddUser.{exists_user, hex_char, print_hash}
use squimpchat.AddUser.File.{plain}

-- The bytes of a hash are bytes.
abbrev pub all_bytes : List ℕ → Bool
all_bytes [] = true
all_bytes (b ∷ bs) = ltb b 256 && all_bytes bs

first_byte : (b : ℕ) (bs : List ℕ) → all_bytes (b ∷ bs) ≡ true → (b < 256) × (all_bytes bs ≡ true)
first_byte b bs h = (ground arith, ground arith)

scan_byte-hex_char :
    (x y : ℕ) → x < 16 → y < 16 → scan_byte (hex_char x) (hex_char y) ≡ ok (16 * x + y)
unfolding scan_byte hex_digit hex_char
scan_byte-hex_char x y h k = ground arith

scan_hash-print_hash : (bs : List ℕ) → all_bytes bs ≡ true → scan_hash (print_hash bs) ≡ ok bs
unfolding scan_hash print_hash
scan_hash-print_hash [] h = refl
scan_hash-print_hash (b ∷ bs) h =
    let (small, rest) = first_byte b bs h in
    rw
      (
        scan_byte-hex_char (b / 16) (b % 16) (omega arith) (omega arith),
        scan_hash-print_hash bs rest,
        digits b,
      )
      refl
  where
    digits : (b : ℕ) → 16 * (b / 16) + b % 16 ≡ b
    digits b = omega arith

pub length-print_hash : (bs : List ℕ) → length (print_hash bs) ≡ 2 * length bs
unfolding print_hash
length-print_hash [] = refl
length-print_hash (b ∷ bs) = omega (arith, length-print_hash bs)

-- No digit is a newline, a carriage return or 0.
hex_char_digit :
    (d : ℕ)
    → ((hex_char d == newline) ≡ false) × ((hex_char d == 13) ≡ false) × ((hex_char d == 0) ≡ false)
unfolding hex_char
hex_char_digit d = (ground arith, ground arith, ground arith)

pub print_hash-plain : (bs : List ℕ) → plain (print_hash bs) ≡ true
unfolding print_hash
print_hash-plain [] = refl
print_hash-plain (b ∷ bs) =
    rw
      (
        (hex_char_digit (b / 16)).0,
        (hex_char_digit (b / 16)).2,
        (hex_char_digit (b % 16)).0,
        (hex_char_digit (b % 16)).2,
      )
      (print_hash-plain bs)

strip_eol-digit :
    (c : ℕ) (cs ds : List ℕ)
    → (c == newline) ≡ false
    → (c == 13) ≡ false
    → strip_eol cs ≡ ds
    → strip_eol (c ∷ cs) ≡ c ∷ ds
unfolding strip_eol
strip_eol-digit c cs [] h k e = rw (e, h, k) refl
strip_eol-digit c cs (d ∷ ds) h k e = rw e refl

strip_eol-print_hash : (bs : List ℕ) → strip_eol (print_hash bs ++ newline ∷ []) ≡ print_hash bs
unfolding strip_eol print_hash
strip_eol-print_hash [] = refl
strip_eol-print_hash (b ∷ bs) =
    let (h, k, _) = hex_char_digit (b / 16) in
    let (i, j, _) = hex_char_digit (b % 16) in
    strip_eol-digit _ (hex_char (b % 16) ∷ print_hash bs ++ newline ∷ []) _ h k
      (strip_eol-digit _ (print_hash bs ++ newline ∷ []) _ i j (strip_eol-print_hash bs))

-- The line that the tool writes is that of the user.
pub check_hash-print_hash :
    (hash : List ℕ)
    → length hash ≡ 32
    → all_bytes hash ≡ true
    → check_hash (print_hash hash ++ newline ∷ []) hash ≡ ok true
unfolding check_hash
check_hash-print_hash hash size bytes =
    rw
      (
        strip_eol-print_hash hash,
        digits,
        scan_hash-print_hash hash bytes,
        memcmp_eq_lem hash hash 32 (omega arith) (omega arith),
        bytes_eq_refl (take 32 hash),
      )
      refl
  where
    digits : (length (print_hash hash) == 64) ≡ true
    digits = ground (arith, length-print_hash hash)

-- The lines in front of that of the user do not matter.
pub verify_lines-append :
    (name hash : List ℕ) (ls more : List (List ℕ))
    → exists_user name ls ≡ false
    → verify_lines name hash (ls ++ more) ≡ verify_lines name hash more
unfolding verify_lines exists_user
verify_lines-append name hash [] more h = refl
verify_lines-append name hash (l ∷ ls) more h =
    ground (arith, verify_lines-append name hash ls more)

-- The line of one user does not matter to another.
pub verify_lines-other :
    (name hash : List ℕ) (ls : List (List ℕ)) (l found hex : List ℕ)
    → split_colon (c_string l) ≡ some (found, hex)
    → bytes_eq name found ≡ false
    → verify_lines name hash (ls ++ l ∷ []) ≡ verify_lines name hash ls
unfolding verify_lines
verify_lines-other name hash [] l found hex e h = ground (arith, e, h)
verify_lines-other name hash (l1 ∷ ls) l found hex e h =
    ground (arith, verify_lines-other name hash ls l found hex e h)

pub exists_user-last :
    (name : List ℕ) (ls : List (List ℕ)) (l hex : List ℕ)
    → split_colon (c_string l) ≡ some (name, hex)
    → exists_user name (ls ++ l ∷ []) ≡ true
unfolding exists_user
exists_user-last name [] l hex e = ground (arith, e, bytes_eq_refl name)
exists_user-last name (l1 ∷ ls) l hex e = ground (arith, exists_user-last name ls l hex e)
