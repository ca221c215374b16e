-- ===== src/AddUser/Colons.antt =====
-- Names with a colon, which data/sqmp_add_user.c adds to the file and src/server/server.c never finds there.
use squimpchat.Base.{
  ℕ, ◌≡◌, ◌∙◌, codes, refl, ap, true, false, Option, none, some, List, [], ◌∷◌, ◌++◌, arith, ◌==◌,
  if◌then◌else◌, length, bytes_eq, eq_of_bytes_eq, inl, inr, Bool-cases, ok,
}
use squimpchat.Server.Users.{
  colon, line_room, fgets_lines, c_string, split_colon, check_hash, verify_lines,
  verify_credentials,
}
use squimpchat.AddUser.{forbidden, exists_user, has_user, user_line, content, add_user}
use squimpchat.AddUser.File.{no_colon}

-- The string before the colon has none.
abbrev Front : Option (List ℕ × List ℕ) → Type 0
Front none = Unit
Front (some (name, hex)) = no_colon name ≡ true

with_name-Front :
    (c : ℕ) (r : Option (List ℕ × List ℕ))
    → (c == colon) ≡ false
    → Front r
    → Front (elim r [ none ↦ none | some (name, hex) ↦ some (c ∷ name, hex) ])
with_name-Front c none h f = tt
with_name-Front c (some (name, hex)) h f = rw h f

split_colon-Front : (cs : List ℕ) → Front (split_colon cs)
unfolding split_colon
split_colon-Front [] = tt
split_colon-Front (c ∷ cs) = elim (Bool-cases (c == colon)) [
  | inl e ↦ rw e refl
  | inr e ↦ rw e (with_name-Front c (split_colon cs) e (split_colon-Front cs))
]

-- A name with a colon is not what stands before the colon of a line.
differs :
    (name found : List ℕ)
    → no_colon name ≡ false
    → no_colon found ≡ true
    → bytes_eq name found ≡ false
differs name found h k = elim (Bool-cases (bytes_eq name found)) [
  | inr e ↦ e
  | inl e ↦ let same = ap no_colon (eq_of_bytes_eq name found e) in absurd cc
]

line_skipped {ℓ} :
    {A : Type ℓ} (name : List ℕ) (r : Option (List ℕ × List ℕ)) (hit : List ℕ → A) (rest : A)
    → no_colon name ≡ false
    → Front r
    → elim r [ none ↦ rest | some (found, hex) ↦ if bytes_eq name found then hit hex else rest ]
      ≡ rest
line_skipped name none hit rest h f = refl
line_skipped name (some (found, hex)) hit rest h f = rw (differs name found h f) refl

verify_lines-colon :
    (name hash : List ℕ) (ls : List (List ℕ))
    → no_colon name ≡ false
    → verify_lines name hash ls ≡ ok false
unfolding verify_lines
verify_lines-colon name hash [] h = refl
verify_lines-colon name hash (l ∷ ls) h =
    line_skipped name (split_colon (c_string l)) (λ hex. check_hash hex hash)
      (verify_lines name hash ls) h (split_colon-Front (c_string l))
    ∙ verify_lines-colon name hash ls h

exists_user-colon :
    (name : List ℕ) (ls : List (List ℕ)) → no_colon name ≡ false → exists_user name ls ≡ false
unfolding exists_user
exists_user-colon name [] h = refl
exists_user-colon name (l ∷ ls) h =
    line_skipped name (split_colon (c_string l)) (λ hex. true) (exists_user name ls) h
      (split_colon-Front (c_string l))
    ∙ exists_user-colon name ls h

has_user-colon :
    (name : List ℕ) (file : Option (List ℕ)) → no_colon name ≡ false → has_user name file ≡ false
has_user-colon name none h = refl
has_user-colon name (some file) h = exists_user-colon name (fgets_lines line_room file) h

verify_credentials-colon :
    (file : Option (List ℕ)) (name hash : List ℕ)
    → no_colon name ≡ false
    → verify_credentials file name hash ≡ ok false
unfolding verify_credentials
verify_credentials-colon none name hash h = refl
verify_credentials-colon (some file) name hash h =
    verify_lines-colon name hash (fgets_lines line_room file) h

forbidden-colon : (name : List ℕ) → no_colon name ≡ false → forbidden name ≡ false
unfolding forbidden
forbidden-colon name h =
    rw
      (
        differs name (codes "exit") h refl,
        differs name (codes "quit") h refl,
        differs name (codes "r") h refl,
        differs name (codes "reply") h refl,
      )
      refl

some_bytes : (name : List ℕ) → no_colon name ≡ false → (length name == 0) ≡ false
some_bytes [] h = cc
some_bytes (c ∷ cs) h = ground arith

-- The tool takes every name with a colon, whatever is in the file: it appends a line
-- and succeeds, and does so again and again, while with whatever hash and whatever file the server does
-- not let a user of that name in.
pub add_user-colon :
    (sha256 : List ℕ → List ℕ) (name password : List ℕ) (file : Option (List ℕ))
    → no_colon name ≡ false
    → (add_user sha256 name password file true
        ≡ some (content file ++ user_line name (sha256 password)))
      × ((any : Option (List ℕ)) (hash : List ℕ) → verify_credentials any name hash ≡ ok false)
unfolding add_user
add_user-colon sha256 name password file h = (
  ground (arith, some_bytes name h, forbidden-colon name h, has_user-colon name file h),
  λ any hash. verify_credentials-colon any name hash h,
)
