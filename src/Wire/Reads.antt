-- ===== src/Wire/Reads.antt =====
-- The reads of the handlers (src/shared/sqmp.c) on the packets that the program builds.
use squimpchat.Base.{
  ℕ, ◌+◌, ◌<◌, ◌^◌, ◌≡◌, refl, ap, ◌∙◌, Option, List, [], ◌∷◌, ◌++◌, arith, length, take, drop,
  zeros, min, ◌-◌, length-take, length-replicate, ok,
}
use squimpchat.Wire.{
  le_bytes, le_value, join, packet, bytes_at, uint_at, msg_type_at, session_id_at,
}
use squimpchat.Wire.Fields.{
  total, bytes_at-join, uint_at-join, drop-join, join-append, length-join, le_value-le_bytes2,
  le_value-le_bytes4,
}
use squimpchat.Wire.Packets.{Chat, chat_packet, error_packet, auth_req_packet, text_of}

-- The fields of the header.
abbrev head_fields : ℕ → ℕ → List (List ℕ)
head_fields t id = (1 ∷ []) ∷ (t ∷ []) ∷ (0 ∷ []) ∷ le_bytes 4 id ∷ zeros 5 ∷ []

module _ (t id : ℕ) where
  pub msg_type-packet : (msg : List (List ℕ)) → msg_type_at (packet t id msg) ≡ ok t
  unfolding msg_type_at
  msg_type-packet msg =
      uint_at-join ((1 ∷ []) ∷ []) (t ∷ []) ((0 ∷ []) ∷ le_bytes 4 id ∷ zeros 5 ∷ msg) {off = 1}
        (omega arith) refl
      ∙ ap ok (omega arith)

  pub session_id-packet :
      (msg : List (List ℕ)) → id < 2 ^ 32 → session_id_at (packet t id msg) ≡ ok id
  unfolding session_id_at
  session_id-packet msg h =
      uint_at-join ((1 ∷ []) ∷ (t ∷ []) ∷ (0 ∷ []) ∷ []) (le_bytes 4 id) (zeros 5 ∷ msg) {off = 3}
        (omega arith) refl
      ∙ ap ok (le_value-le_bytes4 id h)

  -- A packet with more bytes behind it.
  pub packet-append :
      (msg : List (List ℕ)) (more : List ℕ)
      → packet t id msg ++ more ≡ packet t id (msg ++ more ∷ [])
  packet-append msg more = join-append (head_fields t id ++ msg) more

  pub bytes_at-packet :
      (pre : List (List ℕ)) (f : List ℕ) (post : List (List ℕ)) {off n : ℕ}
      → off ≡ 12 + total pre
      → n ≡ length f
      → bytes_at off n (packet t id (pre ++ f ∷ post)) ≡ ok f
  bytes_at-packet pre f post e k = bytes_at-join (head_fields t id ++ pre) f post (omega arith) k

  pub uint_at-packet :
      (pre : List (List ℕ)) (f : List ℕ) (post : List (List ℕ)) {off n : ℕ}
      → off ≡ 12 + total pre
      → n ≡ length f
      → uint_at off n (packet t id (pre ++ f ∷ post)) ≡ ok (le_value f)
  uint_at-packet pre f post e k = uint_at-join (head_fields t id ++ pre) f post (omega arith) k

  pub byte_at-packet :
      (pre : List (List ℕ)) (v : ℕ) (post : List (List ℕ)) {off : ℕ}
      → off ≡ 12 + total pre
      → uint_at off 1 (packet t id (pre ++ (v ∷ []) ∷ post)) ≡ ok v
  byte_at-packet pre v post e = uint_at-packet pre (v ∷ []) post e refl ∙ ap ok (omega arith)

  pub drop-packet :
      (pre fs : List (List ℕ)) (off : ℕ)
      → off ≡ 12 + total pre
      → drop off (packet t id (pre ++ fs)) ≡ join fs
  drop-packet pre fs off e = rw e (
      ap (λ k. drop k (packet t id (pre ++ fs))) (omega arith)
      ∙ drop-join (head_fields t id ++ pre) fs)

abbrev pub chat_fields : Chat → List (List ℕ)
chat_fields c =
    (c.name_len ∷ [])
    ∷ c.name
    ∷ le_bytes 2 c.enc_key_len
    ∷ c.encrypted_key
    ∷ c.nonce
    ∷ le_bytes 4 c.ciphertext_len
    ∷ c.ciphertext
    ∷ []

pub session_id-chat_packet :
    (t id : ℕ) (c : Chat) (more : List ℕ)
    → id < 2 ^ 32
    → session_id_at (chat_packet t id c ++ more) ≡ ok id
unfolding chat_packet
session_id-chat_packet t id c more h =
    rw (packet-append t id (chat_fields c) more)
      (session_id-packet t id (chat_fields c ++ more ∷ []) h)

-- An ERROR packet has 142 bytes.
pub length-error_packet :
    (id code : ℕ) (desc : Option (List ℕ)) → length (error_packet id code desc) ≡ 142
unfolding error_packet
length-error_packet id code desc =
    length-join (
      head_fields 7 id
      ++ (code ∷ []) ∷ (dlen ∷ []) ∷ take dlen (text_of desc) ∷ zeros (128 - dlen) ∷ [])
    ∙ omega (arith, length-take dlen (text_of desc), length-replicate {A = ℕ} (128 - dlen) 0)
  where
    dlen : ℕ
    dlen = min (length (text_of desc)) 128

-- An AUTH_REQ packet has 111 bytes.
pub length-auth_req_packet :
    (id n : ℕ) (name hash key : List ℕ)
    → length name ≡ 32
    → length hash ≡ 32
    → length key ≡ 32
    → length (auth_req_packet id n name hash key) ≡ 111
unfolding auth_req_packet
length-auth_req_packet id n name hash key h k l =
    length-join (head_fields 3 id ++ (n ∷ []) ∷ name ∷ hash ∷ le_bytes 2 32 ∷ key ∷ [])
    ∙ omega arith

-- The sizes of the fields of a chat message.
pub record IsChat (c : Chat) : Type 0 where
  pub name_byte : c.name_len < 256
  pub name_size : length c.name ≡ 32
  pub key_word : c.enc_key_len < 2 ^ 16
  pub key_size : length c.encrypted_key ≡ 256
  pub nonce_size : length c.nonce ≡ 12
  pub text_word : c.ciphertext_len < 2 ^ 32
  pub text_size : length c.ciphertext ≡ c.ciphertext_len

-- What a handler reads of a chat packet.
pub record ReadsChat (p : List ℕ) (c : Chat) : Type 0 where
  pub name_len : uint_at 12 1 p ≡ ok c.name_len
  pub name : bytes_at 13 32 p ≡ ok c.name
  pub enc_key_len : uint_at 45 2 p ≡ ok c.enc_key_len
  pub encrypted_key : bytes_at 47 256 p ≡ ok c.encrypted_key
  pub nonce : bytes_at 303 12 p ≡ ok c.nonce
  pub ciphertext_len : uint_at 315 4 p ≡ ok c.ciphertext_len
  pub ciphertext : bytes_at 319 c.ciphertext_len p ≡ ok c.ciphertext
  pub tail : (rest : List ℕ) × (drop 13 p ≡ c.name ++ rest)

pub chat_packet-ReadsChat :
    (t id : ℕ) {c : Chat} (more : List ℕ) → IsChat c → ReadsChat (chat_packet t id c ++ more) c
unfolding chat_packet
chat_packet-ReadsChat t id {c} more w = rw (packet-append t id (chat_fields c) more) (record {
  name_len =
      uint_at-packet t id [] n1 (n2 ∷ k1 ∷ k2 ∷ v ∷ l ∷ x ∷ more ∷ []) (omega arith) refl
      ∙ ap ok (omega arith);
  name =
      bytes_at-packet t id (n1 ∷ []) n2 (k1 ∷ k2 ∷ v ∷ l ∷ x ∷ more ∷ []) (omega arith)
        (omega arith);
  enc_key_len =
      uint_at-packet t id (n1 ∷ n2 ∷ []) k1 (k2 ∷ v ∷ l ∷ x ∷ more ∷ []) (omega arith) refl
      ∙ ap ok (le_value-le_bytes2 c.enc_key_len w.key_word);
  encrypted_key =
      bytes_at-packet t id (n1 ∷ n2 ∷ k1 ∷ []) k2 (v ∷ l ∷ x ∷ more ∷ []) (omega arith)
        (omega arith);
  nonce =
      bytes_at-packet t id (n1 ∷ n2 ∷ k1 ∷ k2 ∷ []) v (l ∷ x ∷ more ∷ []) (omega arith)
        (omega arith);
  ciphertext_len =
      uint_at-packet t id (n1 ∷ n2 ∷ k1 ∷ k2 ∷ v ∷ []) l (x ∷ more ∷ []) (omega arith) refl
      ∙ ap ok (le_value-le_bytes4 c.ciphertext_len w.text_word);
  ciphertext =
      bytes_at-packet t id (n1 ∷ n2 ∷ k1 ∷ k2 ∷ v ∷ l ∷ []) x (more ∷ []) (omega arith)
        (omega arith);
  tail = (
    join (k1 ∷ k2 ∷ v ∷ l ∷ x ∷ more ∷ []),
    drop-packet t id (n1 ∷ []) (n2 ∷ k1 ∷ k2 ∷ v ∷ l ∷ x ∷ more ∷ []) 13 (omega arith),
  );
})
  where
    n1 : List ℕ
    n1 = c.name_len ∷ []

    n2 : List ℕ
    n2 = c.name

    k1 : List ℕ
    k1 = le_bytes 2 c.enc_key_len

    k2 : List ℕ
    k2 = c.encrypted_key

    v : List ℕ
    v = c.nonce

    l : List ℕ
    l = le_bytes 4 c.ciphertext_len

    x : List ℕ
    x = c.ciphertext

pub length-chat_packet :
    (t id : ℕ) {c : Chat} → IsChat c → length (chat_packet t id c) ≡ 319 + c.ciphertext_len
unfolding chat_packet
length-chat_packet t id {c} w =
    length-join (head_fields t id ++ chat_fields c)
    ∙ omega (arith, w.name_size, w.key_size, w.nonce_size, w.text_size)
