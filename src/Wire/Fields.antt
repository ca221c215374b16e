-- ===== src/Wire/Fields.antt =====
-- Reading a field back from the fields of a packet.
use mathlib.Core.List.{append_assoc, append-nil}
use Prim.Native.Nat.add
use native.Mathlib.Nat.{zero-add}
use squimpchat.Base.{
  ℕ, ◌+◌, ◌^◌, ◌<◌, ◌≡◌, refl, ap, sym, ◌∙◌, List, [], ◌∷◌, ◌++◌, arith, le→leb, length, drop,
  length-append, take-append, drop-append_eq, drop-drop, length-drop, ok, fault,
}
use squimpchat.Wire.{le_bytes, le_value, join, bytes_at, uint_at}

abbrev pub total : List (List ℕ) → ℕ
total [] = 0
total (f ∷ fs) = length f + total fs

pub length-join : (fs : List (List ℕ)) → length (join fs) ≡ total fs
length-join [] = refl
length-join (f ∷ fs) = omega (arith, length-append f (join fs), length-join fs)

pub drop-join :
    (pre : List (List ℕ)) (fs : List (List ℕ)) → drop (total pre) (join (pre ++ fs)) ≡ join fs
drop-join [] fs = refl
drop-join (f ∷ pre) fs = drop-append_add f (total pre) (join (pre ++ fs)) ∙ drop-join pre fs
  where
    drop-append_add :
        (xs : List ℕ) (n : ℕ) (ys : List ℕ) → drop (length xs + n) (xs ++ ys) ≡ drop n ys
    drop-append_add [] n ys = rw zero-add
    drop-append_add (x ∷ xs) n ys = rw add.suc (drop-append_add xs n ys)

pub total-append : (pre fs : List (List ℕ)) → total (pre ++ fs) ≡ total pre + total fs
total-append [] fs = omega arith
total-append (f ∷ pre) fs = omega (arith, total-append pre fs)

-- Bytes behind the fields.
pub join-append : (fs : List (List ℕ)) (more : List ℕ) → join fs ++ more ≡ join (fs ++ more ∷ [])
join-append [] more = sym (append-nil more)
join-append (f ∷ fs) more = append_assoc f (join fs) more ∙ ap (λ r. f ++ r) (join-append fs more)

-- The field behind `pre` is read at the sum of the lengths before it.
pub bytes_at-join :
    (pre : List (List ℕ)) (f : List ℕ) (post : List (List ℕ)) {off n : ℕ}
    → off ≡ total pre
    → n ≡ length f
    → bytes_at off n (join (pre ++ f ∷ post)) ≡ ok f
unfolding bytes_at
bytes_at-join pre f post {off} {n} e k =
    rw (e, k)
      (rw
        (
          le→leb (total pre + length f) (length (join (pre ++ f ∷ post)))
              (omega (arith, length-join (pre ++ f ∷ post), total-append pre (f ∷ post))),
          drop-join pre (f ∷ post),
        )
        (ap ok (take-append f (join post))))

pub uint_at-join :
    (pre : List (List ℕ)) (f : List ℕ) (post : List (List ℕ)) {off n : ℕ}
    → off ≡ total pre
    → n ≡ length f
    → uint_at off n (join (pre ++ f ∷ post)) ≡ ok (le_value f)
unfolding uint_at
uint_at-join pre f post e k = rw (bytes_at-join pre f post e k)

pub le_value-le_bytes1 : (n : ℕ) → n < 256 → le_value (le_bytes 1 n) ≡ n
le_value-le_bytes1 n h = omega arith

pub le_value-le_bytes2 : (n : ℕ) → n < 2 ^ 16 → le_value (le_bytes 2 n) ≡ n
le_value-le_bytes2 n h = omega arith

pub le_value-le_bytes4 : (n : ℕ) → n < 2 ^ 32 → le_value (le_bytes 4 n) ≡ n
le_value-le_bytes4 n h = omega arith

-- A byte behind `off` and `i` more bytes.
pub uint_at-drop :
    (off i : ℕ) (p pre : List ℕ) (v : ℕ) (post : List ℕ)
    → drop off p ≡ pre ++ v ∷ post
    → i ≡ length pre
    → uint_at (off + i) 1 p ≡ ok v
unfolding uint_at bytes_at
uint_at-drop off i p pre v post e k =
    rw
      (
        le→leb (off + i + 1) (length p)
            (omega (arith, length-drop off p, ap length e, length-append pre (v ∷ post))),
        drop-drop off i p,
        e,
        drop-append_eq i pre (v ∷ post) k,
      )
      (ap ok (omega arith))

-- A field that does not lie in the packet.
pub uint_at_fault : (off w : ℕ) (p : List ℕ) → length p < off + w → uint_at off w p ≡ fault
unfolding uint_at bytes_at
uint_at_fault off w p h = ground arith
