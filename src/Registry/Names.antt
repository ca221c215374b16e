-- ===== src/Registry/Names.antt =====
-- When an entry has a name, as a Boolean; what makes an entry and a name well formed; and the test
-- of the loops in these terms.
use squimpchat.Base.{
  ℕ, ◌≤◌, ◌≡◌, refl, ap, sym, ◌∙◌, inl, inr, Bool, true, false, ◌&&◌, List, arith, ◌==◌, ==_iff,
  ne_of_==-false, Bool-cases, length, take, length-take, bytes_eq, eq_of_bytes_eq, ok,
  memcmp_eq_lem,
}
use squimpchat.Registry.{Entry, username_max_len, pubkey_len, empty_entry, same_name, matches}

-- The name that an entry holds.
abbrev pub key : Entry → List ℕ
key e = take e.username_len e.username

-- The arrays have their sizes, and the length of the name fits in its array.
pub record IsEntry (e : Entry) : Type 0 where
  pub name_size : length e.username ≡ username_max_len
  pub key_size : length e.public_key ≡ pubkey_len
  pub fits : e.username_len ≤ username_max_len

-- A pointer to at least `ulen` bytes, for a name that an entry can hold.
pub record IsName (uname : List ℕ) (ulen : ℕ) : Type 0 where
  pub short : ulen ≤ username_max_len
  pub inside : ulen ≤ length uname

unfoldable pub has_name : List ℕ → Entry → Bool
has_name n e = e.in_use && bytes_eq (key e) n

pub empty_entry-IsEntry : IsEntry empty_entry
empty_entry-IsEntry = record { name_size = refl; key_size = refl; fits = omega arith }

bytes_eq-length : (xs ys : List ℕ) → bytes_eq xs ys ≡ true → length xs ≡ length ys
bytes_eq-length xs ys h = ap length (eq_of_bytes_eq xs ys h)

module _ {e : Entry} {uname : List ℕ} {ulen : ℕ} (w : IsEntry e) (n : IsName uname ulen) where
  pub same_name-key : same_name e uname ulen ≡ ok (bytes_eq (key e) (take ulen uname))
  unfolding same_name
  same_name-key = elim (Bool-cases (e.username_len == ulen)) [
    | inl eq ↦
        let same = (==_iff e.username_len ulen).0 eq in
        rw eq (
          memcmp_eq_lem e.username uname ulen (omega (arith, w.name_size, n.short)) n.inside
          ∙ ap (λ k. ok (bytes_eq (take k e.username) (take ulen uname))) (sym same))
    | inr ne ↦ rw ne (ap ok (sym (differ ne)))
  ]
    where
      differ : (e.username_len == ulen) ≡ false → bytes_eq (key e) (take ulen uname) ≡ false
      differ ne = elim (Bool-cases (bytes_eq (key e) (take ulen uname))) [
        | inl eq ↦ absurd (
            omega (
              arith,
              bytes_eq-length (key e) (take ulen uname) eq,
              length-take e.username_len e.username,
              length-take ulen uname,
              w.name_size,
              w.fits,
              n.inside,
              ne_of_==-false e.username_len ulen ne,
            ))
        | inr no_match ↦ no_match
      ]

  pub matches-has_name : matches e uname ulen ≡ ok (has_name (take ulen uname) e)
  unfolding matches has_name
  matches-has_name = ground (arith, same_name-key)
