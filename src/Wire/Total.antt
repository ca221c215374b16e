-- ===== src/Wire/Total.antt =====
-- Reads of a packet's bytes inside of it (the fields of include/sqmp.h).
use squimpchat.Base.{ℕ, ◌+◌, ◌≤◌, List, arith, length, le→leb, Returns, Returns-bind}
use squimpchat.Wire.{bytes_at, uint_at}

pub bytes_at-Returns : (off n : ℕ) (p : List ℕ) → off + n ≤ length p → Returns (bytes_at off n p)
unfolding bytes_at
bytes_at-Returns off n p h = ground (arith, le→leb (off + n) (length p) h)

pub uint_at-Returns : (off w : ℕ) (p : List ℕ) → off + w ≤ length p → Returns (uint_at off w p)
unfolding uint_at
uint_at-Returns off w p h = Returns-bind (bytes_at off w p) _ (bytes_at-Returns off w p h) λ b e. tt
