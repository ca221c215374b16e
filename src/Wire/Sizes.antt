-- ===== src/Wire/Sizes.antt =====
-- The sizes of the packets of src/include/sqmp.h that the client and the server send, and the lengths that
-- stand in them, with whatever bytes behind.
use squimpchat.Base.{
  ℕ, ◌+◌, ◌-◌, ◌≤◌, ◌≡◌, refl, ap, ◌∙◌, List, [], ◌∷◌, ◌++◌, arith, length, min, take, zeros,
  length-append, length-take, length-replicate, ok,
}
use squimpchat.Wire.{packet, le_bytes, uint_at, msg_type_at, error_desc_max_len}
use squimpchat.Wire.Fields.{total, length-join}
use squimpchat.Wire.Packets.{
  hello_packet, hello_ack_packet, auth_req_packet, auth_resp_packet, key_req_packet,
  key_resp_packet, error_packet, bye_packet, chat_packet, text_of,
}
use squimpchat.Wire.Reads.{msg_type-packet, packet-append, byte_at-packet, chat_fields, IsChat}
use squimpchat.Wire.Messages.{
  Message, sends_hello, acks_hello, asks_login, answers_login, asks_key, answers_key, reports,
  leaves, sends_chat, delivers_chat, encode, type_of,
}

-- The arrays have their sizes, and the names fit.
abbrev pub IsSized : Message → Type 0
IsSized sends_hello = Unit
IsSized acks_hello = Unit
IsSized (asks_login n name hash key) =
    (n ≤ 32) × (length name ≡ 32) × (length hash ≡ 32) × (length key ≡ 32)
IsSized (answers_login status) = Unit
IsSized (asks_key n name) = (n ≤ 32) × (length name ≡ 32)
IsSized (answers_key n name key) = (length name ≡ 32) × (length key ≡ 32)
IsSized (reports code desc) = Unit
IsSized leaves = Unit
IsSized (sends_chat c) = (c.name_len ≤ 32) × IsChat c
IsSized (delivers_chat c) = (c.name_len ≤ 32) × IsChat c

-- The bytes of a packet.
abbrev pub size : Message → ℕ
size sends_hello = 28
size acks_hello = 19
size (asks_login n name hash key) = 111
size (answers_login status) = 20
size (asks_key n name) = 45
size (answers_key n name key) = 79
size (reports code desc) = 142
size leaves = 12
size (sends_chat c) = 319 + c.ciphertext_len
size (delivers_chat c) = 319 + c.ciphertext_len

-- The fields of the message in a packet, and the session id in its header.
abbrev pub fields : ℕ → Message → List (List ℕ)
fields id sends_hello = (1 ∷ []) ∷ (1 ∷ zeros 7) ∷ (1 ∷ []) ∷ le_bytes 4 65535 ∷ zeros 2 ∷ []
fields id acks_hello = (1 ∷ []) ∷ le_bytes 4 65535 ∷ zeros 2 ∷ []
fields id (asks_login n name hash key) = (n ∷ []) ∷ name ∷ hash ∷ le_bytes 2 32 ∷ key ∷ []
fields id (answers_login status) = (status ∷ []) ∷ le_bytes 4 id ∷ zeros 3 ∷ []
fields id (asks_key n name) = (n ∷ []) ∷ name ∷ []
fields id (answers_key n name key) = (n ∷ []) ∷ name ∷ le_bytes 2 32 ∷ key ∷ []
fields id (reports code desc) =
    let dlen = min (length (text_of desc)) error_desc_max_len in
    (code ∷ []) ∷ (dlen ∷ []) ∷ take dlen (text_of desc) ∷ zeros (error_desc_max_len - dlen) ∷ []
fields id leaves = []
fields id (sends_chat c) = chat_fields c
fields id (delivers_chat c) = chat_fields c

abbrev pub id_of : ℕ → Message → ℕ
id_of id sends_hello = 0
id_of id m = id

pub encode-packet :
    (id : ℕ) (m : Message) → encode id m ≡ packet (type_of m) (id_of id m) (fields id m)
unfolding hello_packet hello_ack_packet auth_req_packet auth_resp_packet key_req_packet
    key_resp_packet error_packet bye_packet chat_packet
encode-packet id sends_hello = refl
encode-packet id acks_hello = refl
encode-packet id (asks_login n name hash key) = refl
encode-packet id (answers_login status) = refl
encode-packet id (asks_key n name) = refl
encode-packet id (answers_key n name key) = refl
encode-packet id (reports code desc) = refl
encode-packet id leaves = refl
encode-packet id (sends_chat c) = refl
encode-packet id (delivers_chat c) = refl

pub msg_type-encode :
    (id : ℕ) (m : Message) (more : List ℕ) → msg_type_at (encode id m ++ more) ≡ ok (type_of m)
msg_type-encode id m more =
    ap (λ p. msg_type_at (p ++ more)) (encode-packet id m)
    ∙ ap msg_type_at (packet-append (type_of m) (id_of id m) (fields id m) more)
    ∙ msg_type-packet (type_of m) (id_of id m) (fields id m ++ more ∷ [])

total-fields : (id : ℕ) (m : Message) → IsSized m → 12 + total (fields id m) ≡ size m
total-fields id sends_hello w = omega arith
total-fields id acks_hello w = omega arith
total-fields id (asks_login n name hash key) (h, i, j, k) = omega arith
total-fields id (answers_login status) w = omega arith
total-fields id (asks_key n name) (h, i) = omega arith
total-fields id (answers_key n name key) (h, i) = omega arith
total-fields id (reports code desc) w =
    let dlen = min (length (text_of desc)) error_desc_max_len in
    omega (
      arith,
      length-take dlen (text_of desc),
      length-replicate {A = ℕ} (error_desc_max_len - dlen) 0,
    )
total-fields id leaves w = refl
total-fields id (sends_chat c) (h, w) =
    omega (arith, w.name_size, w.key_size, w.nonce_size, w.text_size)
total-fields id (delivers_chat c) (h, w) =
    omega (arith, w.name_size, w.key_size, w.nonce_size, w.text_size)

length-packet : (t id : ℕ) (msg : List (List ℕ)) → length (packet t id msg) ≡ 12 + total msg
length-packet t id msg =
    length-join ((1 ∷ []) ∷ (t ∷ []) ∷ (0 ∷ []) ∷ le_bytes 4 id ∷ zeros 5 ∷ msg) ∙ omega arith

pub size-encode :
    (id : ℕ) (m : Message) (more : List ℕ) → IsSized m → size m ≤ length (encode id m ++ more)
size-encode id m more w = omega (
  arith,
  length-append (encode id m) more,
  ap length (encode-packet id m),
  length-packet (type_of m) (id_of id m) (fields id m),
  total-fields id m w,
)

-- The length of a name or the code of an error, behind the header.
pub first_byte-encode :
    (id : ℕ) (m : Message) (more : List ℕ) {v : ℕ} {rest : List (List ℕ)}
    → fields id m ≡ (v ∷ []) ∷ rest
    → uint_at 12 1 (encode id m ++ more) ≡ ok v
first_byte-encode id m more {v} {rest} e =
    ap (λ p. uint_at 12 1 (p ++ more)) (encode-packet id m ∙ ap (packet (type_of m) (id_of id m)) e)
    ∙ ap (uint_at 12 1) (packet-append (type_of m) (id_of id m) ((v ∷ []) ∷ rest) more)
    ∙ byte_at-packet (type_of m) (id_of id m) [] v (rest ++ more ∷ []) refl

-- The length of the description of an error.
pub second_byte-encode :
    (id : ℕ) (m : Message) (more : List ℕ) {u v : ℕ} {rest : List (List ℕ)}
    → fields id m ≡ (u ∷ []) ∷ (v ∷ []) ∷ rest
    → uint_at 13 1 (encode id m ++ more) ≡ ok v
second_byte-encode id m more {u} {v} {rest} e =
    ap (λ p. uint_at 13 1 (p ++ more)) (encode-packet id m ∙ ap (packet (type_of m) (id_of id m)) e)
    ∙ ap (uint_at 13 1) (packet-append (type_of m) (id_of id m) ((u ∷ []) ∷ (v ∷ []) ∷ rest) more)
    ∙ byte_at-packet (type_of m) (id_of id m) ((u ∷ []) ∷ []) v (rest ++ more ∷ []) refl
