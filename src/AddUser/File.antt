-- ===== src/AddUser/File.antt =====
-- The lines of a file to which a line is appended (`fgets` in src/server/server.c and
-- data/sqmp_add_user.c).
use squimpchat.Base.{
  ℕ, ◌-◌, ◌<◌, ◌≡◌, refl, ap, ◌∙◌, Bool, true, false, ◌||◌, some, List, [], ◌∷◌, ◌++◌, arith, leb,
  ◌==◌, if◌then◌else◌, length, if_true, if_false, inl, inr, Bool-cases,
}
use squimpchat.Server.Users.{newline, colon, line_room, fgets_lines, c_string, split_colon}

-- The bytes have no newline and no 0.
abbrev pub plain : List ℕ → Bool
plain [] = true
plain (c ∷ cs) = if (c == newline) || (c == 0) then false else plain cs

-- No colon is among the bytes.
abbrev pub no_colon : List ℕ → Bool
no_colon [] = true
no_colon (c ∷ cs) = if c == colon then false else no_colon cs

-- The file is empty, or its last byte is a newline.
abbrev ends_line : ℕ → List ℕ → Bool
ends_line c [] = c == newline
ends_line c (d ∷ ds) = ends_line d ds

abbrev pub is_text : List ℕ → Bool
is_text [] = true
is_text (c ∷ cs) = ends_line c cs

abbrev prepended : ℕ → List (List ℕ) → List (List ℕ)
prepended c [] = (c ∷ []) ∷ []
prepended c (l ∷ ls) = (c ∷ l) ∷ ls

-- A line that ends at its newline and fits is read as one line.
pub fgets_lines-line :
    (room : ℕ) (cs : List ℕ)
    → plain cs ≡ true
    → length cs < room
    → fgets_lines room (cs ++ newline ∷ []) ≡ (cs ++ newline ∷ []) ∷ []
unfolding fgets_lines
fgets_lines-line room [] h k = refl
fgets_lines-line room (c ∷ cs) h k = ground (arith, fgets_lines-line (room - 1) cs)

-- There is a first line.
fgets_lines-cons :
    (room c : ℕ) (cs : List ℕ)
    → (l : List ℕ) × (ls : List (List ℕ)) × (fgets_lines room (c ∷ cs) ≡ l ∷ ls)
unfolding fgets_lines
fgets_lines-cons room c cs = elim (Bool-cases ((c == newline) || leb room 1)) [
  | inl full ↦ (_, _, if_true _ _ full)
  | inr more ↦ prepended_cases c (fgets_lines (room - 1) cs) (if_false _ _ more)
]
  where
    prepended_cases :
        (c : ℕ) (ls : List (List ℕ)) {r : List (List ℕ)}
        → r ≡ prepended c ls
        → (l : List ℕ) × (rest : List (List ℕ)) × (r ≡ l ∷ rest)
    prepended_cases c [] e = (_, _, e)
    prepended_cases c (l ∷ ls) e = (_, _, e)

prepended-append :
    (c room d : ℕ) (ds : List ℕ) (more : List (List ℕ))
    → prepended c (fgets_lines room (d ∷ ds) ++ more)
      ≡ prepended c (fgets_lines room (d ∷ ds)) ++ more
prepended-append c room d ds more = let (l, ls, e) = fgets_lines-cons room d ds in rw e refl

branches_append :
    (b : Bool) {x y : List (List ℕ)} (v w more : List (List ℕ))
    → x ≡ v ++ more
    → y ≡ w ++ more
    → (if b then x else y) ≡ (if b then v else w) ++ more
branches_append true v w more h k = h
branches_append false v w more h k = k

-- Behind a whole text the lines are read anew.
fgets_lines-ends :
    (room c : ℕ) (cs more : List ℕ)
    → ends_line c cs ≡ true
    → fgets_lines room ((c ∷ cs) ++ more) ≡ fgets_lines room (c ∷ cs) ++ fgets_lines line_room more
unfolding fgets_lines
fgets_lines-ends room c [] more h = ground (arith, h)
fgets_lines-ends room c (d ∷ ds) more h =
    branches_append ((c == newline) || leb room 1) ((c ∷ []) ∷ fgets_lines line_room (d ∷ ds))
      (prepended c (fgets_lines (room - 1) (d ∷ ds))) (fgets_lines line_room more)
      (ap (λ ls. (c ∷ []) ∷ ls) (fgets_lines-ends line_room d ds more h))
      (ap (prepended c) (fgets_lines-ends (room - 1) d ds more h)
        ∙ prepended-append c (room - 1) d ds (fgets_lines line_room more))

pub fgets_lines-append :
    (file more : List ℕ)
    → is_text file ≡ true
    → fgets_lines line_room (file ++ more)
      ≡ fgets_lines line_room file ++ fgets_lines line_room more
unfolding fgets_lines
fgets_lines-append [] more h = refl
fgets_lines-append (c ∷ cs) more h = fgets_lines-ends line_room c cs more h

-- A line without a 0 is a C string.
pub c_string-plain :
    (cs : List ℕ) → plain cs ≡ true → c_string (cs ++ newline ∷ []) ≡ cs ++ newline ∷ []
unfolding c_string
c_string-plain [] h = refl
c_string-plain (c ∷ cs) h = ground (arith, c_string-plain cs)

-- The first colon of a line is the one behind the name.
pub split_colon-name :
    (name hex : List ℕ)
    → no_colon name ≡ true
    → split_colon (name ++ colon ∷ hex) ≡ some (name, hex)
unfolding split_colon
split_colon-name [] hex h = refl
split_colon-name (c ∷ cs) hex h = ground (arith, split_colon-name cs hex)

pub plain-append : (xs ys : List ℕ) → plain xs ≡ true → plain ys ≡ true → plain (xs ++ ys) ≡ true
plain-append [] ys h k = k
plain-append (x ∷ xs) ys h k = ground (arith, plain-append xs ys)
