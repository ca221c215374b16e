-- ===== src/Wire/Packets.antt =====
-- The packets that the program builds. A buffer is cleared by `memset` or `calloc` before its fields
-- are written, so that a field which is not written is 0. Names and keys arrive here as the arrays
-- that `memcpy` has made of them.
use squimpchat.Base.{ℕ, Option, none, some, List, [], ◌∷◌, ◌-◌, length, take, zeros, min}
use squimpchat.Wire.{
  packet, le_bytes, error_desc_max_len, type_hello, type_hello_ack, type_auth_req, type_auth_resp,
  type_key_req, type_key_resp, type_error, type_bye,
}

-- The client's HELLO, with its one version.
unfoldable pub hello_packet : List ℕ
hello_packet =
    packet type_hello 0 ((1 ∷ []) ∷ (1 ∷ zeros 7) ∷ (1 ∷ []) ∷ le_bytes 4 65535 ∷ zeros 2 ∷ [])

unfoldable pub hello_ack_packet : ℕ → List ℕ
hello_ack_packet session_id =
    packet type_hello_ack session_id ((1 ∷ []) ∷ le_bytes 4 65535 ∷ zeros 2 ∷ [])

-- `sqmp_msg_auth_req_t` with a key of 32 bytes.
unfoldable pub auth_req_packet : ℕ → ℕ → List ℕ → List ℕ → List ℕ → List ℕ
auth_req_packet session_id username_len username password_hash public_key =
    packet type_auth_req session_id
      ((username_len ∷ []) ∷ username ∷ password_hash ∷ le_bytes 2 32 ∷ public_key ∷ [])

unfoldable pub auth_resp_packet : ℕ → ℕ → List ℕ
auth_resp_packet session_id status =
    packet type_auth_resp session_id ((status ∷ []) ∷ le_bytes 4 session_id ∷ zeros 3 ∷ [])

unfoldable pub key_req_packet : ℕ → ℕ → List ℕ → List ℕ
key_req_packet session_id username_len username =
    packet type_key_req session_id ((username_len ∷ []) ∷ username ∷ [])

unfoldable pub key_resp_packet : ℕ → ℕ → List ℕ → List ℕ → List ℕ
key_resp_packet session_id username_len username public_key =
    packet type_key_resp session_id
      ((username_len ∷ []) ∷ username ∷ le_bytes 2 32 ∷ public_key ∷ [])

abbrev pub text_of : Option (List ℕ) → List ℕ
text_of none = []
text_of (some desc) = desc

-- The description is cut at 128 bytes.
unfoldable pub error_packet : ℕ → ℕ → Option (List ℕ) → List ℕ
error_packet session_id code desc =
    let dlen = min (length (text_of desc)) error_desc_max_len in
    packet type_error session_id (
      (code ∷ []) ∷ (dlen ∷ []) ∷ take dlen (text_of desc) ∷ zeros (error_desc_max_len - dlen) ∷ [])

unfoldable pub bye_packet : ℕ → List ℕ
bye_packet session_id = packet type_bye session_id []

-- The message of a CHAT_SEND and of a CHAT_DELIVER, which have the same layout: the name is that of
-- the recipient in the one and of the sender in the other.
pub record Chat : Type 0 where
  pub name_len : ℕ
  pub name : List ℕ
  pub enc_key_len : ℕ
  pub encrypted_key : List ℕ
  pub nonce : List ℕ
  pub ciphertext_len : ℕ
  pub ciphertext : List ℕ

unfoldable pub chat_packet : ℕ → ℕ → Chat → List ℕ
chat_packet msg_type session_id c = packet msg_type session_id (
    (c.name_len ∷ [])
    ∷ c.name
    ∷ le_bytes 2 c.enc_key_len
    ∷ c.encrypted_key
    ∷ c.nonce
    ∷ le_bytes 4 c.ciphertext_len
    ∷ c.ciphertext
    ∷ [])
