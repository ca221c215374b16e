-- ===== src/Client/Parsed.antt =====
-- What a line of the user means (the command loop of src/client/client.c), by what the line looks like.
use squimpchat.Base.{
  ℕ, ◌≤◌, ◌≡◌, ◌≢◌, ◌↔◌, refl, Bool, true, false, ◌||◌, none, some, List, [], ◌∷◌, ◌++◌, arith,
  codes, ◌==◌, if◌then◌else◌, length, bytes_eq, eq_of_bytes_eq, length-append, inl, inr, Bool-cases,
  Option-cases,
}
use squimpchat.Client.Commands.{bad_usage, message, space, split_space, command_of, parse_command}

-- No space is among the bytes.
abbrev pub no_space : List ℕ → Bool
no_space [] = true
no_space (c ∷ cs) = if c == space then false else no_space cs

-- A line that is a message: a name of at most 32 bytes without a space, a space and a text.
pub record IsMessage (line recipient text : List ℕ) : Type 0 where
  pub form : line ≡ recipient ++ space ∷ text
  pub one_word : no_space recipient ≡ true
  pub some_name : length recipient ≢ 0
  pub fits : length recipient ≤ 32
  pub some_text : length text ≢ 0

split_space-front :
    (front rest : List ℕ)
    → no_space front ≡ true
    → split_space (front ++ space ∷ rest) ≡ some (front, rest)
unfolding split_space
split_space-front [] rest h = refl
split_space-front (c ∷ cs) rest h = ground (arith, split_space-front cs rest)

-- What stands before and behind the first space.
split_space-some :
    (line : List ℕ) {front rest : List ℕ}
    → split_space line ≡ some (front, rest)
    → (line ≡ front ++ space ∷ rest) × (no_space front ≡ true)
unfolding split_space
split_space-some [] h = cc
split_space-some (c ∷ cs) {front} {rest} h = elim (Option-cases (split_space cs)) [
  | inl e ↦ ground (arith, e, h)
  | inr ((f, r), e) ↦ ground (arith, e, h, split_space-some cs e)
]

no_space_in : {r : List ℕ × List ℕ} → none ≡ some r → ⊥
no_space_in h = cc

-- `quit` and `exit` have no space.
not_leave :
    (line front rest : List ℕ)
    → split_space line ≡ some (front, rest)
    → (bytes_eq line (codes "quit") || bytes_eq line (codes "exit")) ≡ false
unfolding split_space
not_leave line front rest e = elim (Bool-cases (bytes_eq line (codes "quit"))) [
  | inl q ↦ absurd (no_space_in (rw (eq_of_bytes_eq line (codes "quit") q) at e))
  | inr nq ↦ elim (Bool-cases (bytes_eq line (codes "exit"))) [
    | inl x ↦ absurd (no_space_in (rw (eq_of_bytes_eq line (codes "exit") x) at e))
    | inr nx ↦ rw (nq, nx) refl
  ]
]

long_enough : (front rest : List ℕ) → (length (front ++ space ∷ rest) == 0) ≡ false
long_enough front rest = ground (arith, length-append front (space ∷ rest))

command_of-message :
    (line recipient text : List ℕ)
    → IsMessage line recipient text
    → command_of (some (recipient, text)) ≡ message recipient text
unfolding command_of
command_of-message line recipient text m = ground (arith, m.some_name, m.some_text, m.fits)

parse_message :
    (line recipient text : List ℕ)
    → IsMessage line recipient text
    → parse_command line ≡ message recipient text
unfolding parse_command
parse_message line recipient text m =
    rw
      (
        m.form,
        long_enough recipient text,
        not_leave (recipient ++ space ∷ text) recipient text split,
        split,
      )
      (command_of-message line recipient text m)
  where
    split : split_space (recipient ++ space ∷ text) ≡ some (recipient, text)
    split = split_space-front recipient text m.one_word

command_of-cases :
    (front rest : List ℕ) {recipient text : List ℕ}
    → command_of (some (front, rest)) ≡ message recipient text
    → (front ≡ recipient)
      × (rest ≡ text)
      × (length recipient ≢ 0)
      × (length recipient ≤ 32)
      × (length text ≢ 0)
unfolding command_of
command_of-cases front rest h =
    (ground (arith, h), ground (arith, h), ground (arith, h), ground (arith, h), ground (arith, h))

split_line :
    (line : List ℕ) (recipient text : List ℕ)
    → parse_command line ≡ message recipient text
    → command_of (split_space line) ≡ message recipient text
unfolding parse_command
split_line line recipient text h = ground (arith, h)

message_parsed :
    (line recipient text : List ℕ)
    → parse_command line ≡ message recipient text
    → IsMessage line recipient text
unfolding command_of
message_parsed line recipient text h = elim (Option-cases (split_space line)) [
  | inl e ↦ absurd (usage_only (rw e at (split_line line recipient text h)))
  | inr ((front, rest), e) ↦
      let (f, r, some_name, fits, some_text) =
        command_of-cases front rest (rw e at (split_line line recipient text h)) in
      let (form, one_word) = split_space-some line e in
      record {
        form = rw (← f, ← r) form;
        one_word = rw (← f) one_word;
        some_name = some_name;
        fits = fits;
        some_text = some_text;
      }
]
  where
    usage_only : {recipient text : List ℕ} → bad_usage ≡ message recipient text → ⊥
    usage_only e = cc

-- The client takes a line for a message with a recipient and a text exactly if the line is the
-- recipient's name, which has 1 to 32 bytes and no space, then a space, and then the text, which is
-- not empty. So it takes every other line for a command or an error.
pub parse_command-IsMessage :
    (line recipient text : List ℕ)
    → (parse_command line ≡ message recipient text) ↔ IsMessage line recipient text
parse_command-IsMessage line recipient text =
    (message_parsed line recipient text, parse_message line recipient text)
