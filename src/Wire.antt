-- ===== src/Wire.antt =====
-- The packets of include/sqmp.h as bytes. The structs are packed and are copied to the wire as they
-- lie in memory, so that integers are little-endian, as on the x86-64 hosts of the bundled library.
-- A packet is built as the list of its fields in the order of the struct; a handler reads a field at
-- its offset in the received bytes, and a field that lies outside them is undefined behaviour.
pub mod Fields
pub mod Messages
pub mod Sizes
pub mod Packets
pub mod Reads
pub mod Total
use squimpchat.Base.{
  ℕ, zero, suc, ◌+◌, ◌*◌, ◌/◌, ◌%◌, Bool, List, [], ◌∷◌, ◌++◌, leb, if◌then◌else◌, length, take,
  drop, zeros, Run, ok, fault, ◌>>=◌,
}

-- `SQMP_PKT_FIXED_LEN`, also the offset of `msg`.
abbrev pub pkt_fixed_len : ℕ
pkt_fixed_len = 12

abbrev pub error_desc_max_len : ℕ
error_desc_max_len = 128

-- `enum sqmp_msg_types_e`
abbrev pub type_hello : ℕ
type_hello = 0x01

abbrev pub type_hello_ack : ℕ
type_hello_ack = 0x02

abbrev pub type_auth_req : ℕ
type_auth_req = 0x03

abbrev pub type_auth_resp : ℕ
type_auth_resp = 0x04

abbrev pub type_key_req : ℕ
type_key_req = 0x05

abbrev pub type_key_resp : ℕ
type_key_resp = 0x06

abbrev pub type_error : ℕ
type_error = 0x07

abbrev pub type_bye : ℕ
type_bye = 0x08

abbrev pub type_chat_send : ℕ
type_chat_send = 0x10

abbrev pub type_chat_deliver : ℕ
type_chat_deliver = 0x11

-- `enum sqmp_error_code_e`
abbrev pub error_user_not_found : ℕ
error_user_not_found = 0x01

abbrev pub error_could_not_send : ℕ
error_could_not_send = 0x02

abbrev pub error_version_mismatch : ℕ
error_version_mismatch = 0x03

abbrev pub error_unexpected_msg : ℕ
error_unexpected_msg = 0x04

-- The `w` bytes of an unsigned integer, the low one first; what does not fit is cut off.
abbrev pub le_bytes : ℕ → ℕ → List ℕ
le_bytes zero n = []
le_bytes (suc w) n = n % 256 ∷ le_bytes w (n / 256)

abbrev pub le_value : List ℕ → ℕ
le_value [] = 0
le_value (b ∷ bs) = b + 256 * le_value bs

-- The fields of a struct, one behind the other.
abbrev pub join : List (List ℕ) → List ℕ
join [] = []
join (f ∷ fs) = f ++ join fs

-- `n` bytes at an offset.
unfoldable pub bytes_at : ℕ → ℕ → List ℕ → Run (List ℕ)
bytes_at off n p = if leb (off + n) (length p) then ok (take n (drop off p)) else fault

-- An unsigned integer of `w` bytes at an offset.
unfoldable pub uint_at : ℕ → ℕ → List ℕ → Run ℕ
unfolding bytes_at
uint_at off w p = do b ← bytes_at off w p; ok (le_value b)

-- A packet: the fields of `sqmp_pkt_t` (version 1, no flags, reserved bytes 0), then those of its
-- message.
abbrev pub packet : ℕ → ℕ → List (List ℕ) → List ℕ
packet msg_type session_id msg =
    join ((1 ∷ []) ∷ (msg_type ∷ []) ∷ (0 ∷ []) ∷ le_bytes 4 session_id ∷ zeros 5 ∷ msg)

-- `pkt->msg_type`
unfoldable pub msg_type_at : List ℕ → Run ℕ
unfolding uint_at
msg_type_at = uint_at 1 1

-- `pkt->session_id`
unfoldable pub session_id_at : List ℕ → Run ℕ
unfolding uint_at
session_id_at = uint_at 3 4
