-- ===== src/Trace/Shown.antt =====
-- What a debug build prints of the packets that the program sends (`sqmp_dbg_recv_pkt` of src/shared/sqmp.c).
use mathlib.Core.List.{append_assoc}
use squimpchat.Base.{
  sym, ℕ, ◌+◌, ◌-◌, ◌≤◌, ◌<◌, ◌^◌, ◌≡◌, refl, ap, ◌∙◌, true, some, List, [], ◌∷◌, ◌++◌, arith,
  length, min, take, drop, zeros, take-append_le, take_all, length-take, length-append, ◌==◌, ok,
}
use squimpchat.Wire.{
  packet, join, le_bytes, msg_type_at, type_hello, type_hello_ack, type_auth_req, type_auth_resp,
  type_key_req, type_key_resp, type_error, type_bye, type_chat_send, type_chat_deliver,
  error_desc_max_len,
}
use squimpchat.Wire.Fields.{total, total-append, le_value-le_bytes4}
use squimpchat.Wire.Packets.{
  hello_packet, hello_ack_packet, auth_req_packet, auth_resp_packet, key_req_packet,
  key_resp_packet, error_packet, bye_packet, Chat, chat_packet, text_of,
}
use squimpchat.Wire.Reads.{
  msg_type-packet, session_id-packet, packet-append, uint_at-packet, byte_at-packet, drop-packet,
  chat_fields, IsChat, chat_packet-ReadsChat,
}
use squimpchat.Server.Users.{c_string}
use squimpchat.Client.Chat.{printed_lem}
use squimpchat.Trace.{
  Traced, hello, hello_ack, auth_req, auth_resp, key_req, key_resp, error, bye, chat_send,
  chat_deliver, text_at, traced, dbg_recv_pkt,
}
use squimpchat.Wire.Messages.{
  Message, sends_hello, acks_hello, asks_login, answers_login, asks_key, answers_key, reports,
  leaves, sends_chat, delivers_chat, encode,
}

-- The sizes of what stands in the packet.
abbrev pub IsMessage : Message → Type 0
IsMessage sends_hello = Unit
IsMessage acks_hello = Unit
IsMessage (asks_login n name hash key) = n ≤ length name
IsMessage (answers_login status) = Unit
IsMessage (asks_key n name) = n ≤ length name
IsMessage (answers_key n name key) = n ≤ length name
IsMessage (reports code desc) = Unit
IsMessage leaves = Unit
IsMessage (sends_chat c) = (c.name_len ≤ 32) × IsChat c
IsMessage (delivers_chat c) = (c.name_len ≤ 32) × IsChat c

-- What is printed of a name or a text: its first `n` bytes, up to a 0.
abbrev pub shown_text : ℕ → List ℕ → List ℕ
shown_text n text = c_string (take n text)

abbrev pub shown : ℕ → Message → Traced
shown id sends_hello = hello 1
shown id acks_hello = hello_ack id 1
shown id (asks_login n name hash key) = auth_req (shown_text n name)
shown id (answers_login status) = auth_resp (status == 0) id
shown id (asks_key n name) = key_req (shown_text n name)
shown id (answers_key n name key) = key_resp (shown_text n name)
shown id (reports code desc) =
    error code (shown_text (min (length (text_of desc)) error_desc_max_len) (text_of desc))
shown id leaves = bye id
shown id (sends_chat c) = chat_send (shown_text c.name_len c.name) c.ciphertext_len
shown id (delivers_chat c) = chat_deliver (shown_text c.name_len c.name) c.ciphertext_len

module _ (t id : ℕ) where
  text_at-packet :
      (pre : List (List ℕ)) (n : ℕ) (text : List ℕ) (post : List (List ℕ)) {off : ℕ}
      → off ≡ 12 + total pre
      → n ≤ length text
      → text_at off (packet t id (pre ++ (n ∷ []) ∷ text ∷ post)) ≡ ok (shown_text n text)
  unfolding text_at
  text_at-packet pre n text post {off} e h =
      rw
        (
          byte_at-packet t id pre n (text ∷ post) e,
          ap (λ ms. drop (off + 1) (packet t id ms))
              (sym (append_assoc pre ((n ∷ []) ∷ []) (text ∷ post))),
          drop-packet t id (pre ++ (n ∷ []) ∷ []) (text ∷ post) (off + 1)
              (omega (arith, total-append pre ((n ∷ []) ∷ []))),
        )
        (printed_lem n (text ++ join post) (omega (arith, length-append text (join post)))
          ∙ ap (λ x. ok (c_string x)) (take-append_le n text (join post) h))

dbg_recv_pkt_lem :
    (pkt : List ℕ) {t : ℕ} {line : Traced}
    → msg_type_at pkt ≡ ok t
    → traced t pkt ≡ ok line
    → dbg_recv_pkt true pkt ≡ ok (some line)
unfolding dbg_recv_pkt
dbg_recv_pkt_lem pkt h e = rw (h, e) refl

dbg_recv_pkt-packet :
    (t id : ℕ) (msg : List (List ℕ)) (more : List ℕ) {line : Traced}
    → traced t (packet t id (msg ++ more ∷ [])) ≡ ok line
    → dbg_recv_pkt true (packet t id msg ++ more) ≡ ok (some line)
dbg_recv_pkt-packet t id msg more e =
    ap (dbg_recv_pkt true) (packet-append t id msg more)
    ∙ dbg_recv_pkt_lem (packet t id (msg ++ more ∷ [])) (msg_type-packet t id (msg ++ more ∷ [])) e

chat_msg_type :
    (t id : ℕ) (c : Chat) (more : List ℕ) → msg_type_at (chat_packet t id c ++ more) ≡ ok t
unfolding chat_packet
chat_msg_type t id c more =
    ap msg_type_at (packet-append t id (chat_fields c) more)
    ∙ msg_type-packet t id (chat_fields c ++ more ∷ [])

chat_name :
    (t id : ℕ) {c : Chat} (more : List ℕ)
    → c.name_len ≤ 32
    → IsChat c
    → text_at 12 (chat_packet t id c ++ more) ≡ ok (shown_text c.name_len c.name)
unfolding chat_packet
chat_name t id {c} more h w =
    ap (text_at 12) (packet-append t id (chat_fields c) more)
    ∙ text_at-packet t id [] c.name_len c.name
        (le_bytes 2 c.enc_key_len
          ∷ c.encrypted_key
          ∷ c.nonce
          ∷ le_bytes 4 c.ciphertext_len
          ∷ c.ciphertext
          ∷ more
          ∷ [])
        refl (omega (arith, w.name_size))

-- The description is what the length allows, and padding is behind it.
traced-error :
    (id code d : ℕ) (text padding more : List ℕ)
    → d ≤ length text
    → dbg_recv_pkt true
        (packet type_error id ((code ∷ []) ∷ (d ∷ []) ∷ take d text ∷ padding ∷ []) ++ more)
      ≡ ok (some (error code (shown_text d text)))
unfolding traced
traced-error id code d text padding more h =
    dbg_recv_pkt-packet type_error id ((code ∷ []) ∷ (d ∷ []) ∷ take d text ∷ padding ∷ []) more (
      rw
        (
          byte_at-packet type_error id [] code ((d ∷ []) ∷ take d text ∷ padding ∷ more ∷ [])
              {off = 12} refl,
          text_at-packet type_error id ((code ∷ []) ∷ []) d (take d text) (padding ∷ more ∷ [])
              {off = 13} refl (omega (arith, length-take d text)),
        )
        (ap (λ x. ok (error code (c_string x)))
          (take_all d (take d text) (omega (arith, length-take d text)))))

-- A debug build prints of each packet that the client or the server sends (with any bytes behind it
-- in the buffer) its kind and its fields: the session id, the version, the status or the code, the
-- length of a ciphertext, and a name or a description as far as its length, or up to a 0.
pub dbg_recv_pkt-encode :
    (id : ℕ) (m : Message) (more : List ℕ)
    → id < 2 ^ 32
    → IsMessage m
    → dbg_recv_pkt true (encode id m ++ more) ≡ ok (some (shown id m))
unfolding traced hello_packet hello_ack_packet auth_req_packet auth_resp_packet key_req_packet
    key_resp_packet error_packet bye_packet
dbg_recv_pkt-encode id sends_hello more h w =
    dbg_recv_pkt-packet type_hello 0
      ((1 ∷ []) ∷ (1 ∷ zeros 7) ∷ (1 ∷ []) ∷ le_bytes 4 65535 ∷ zeros 2 ∷ []) more
      (rw
        (byte_at-packet type_hello 0 [] 1
          ((1 ∷ zeros 7) ∷ (1 ∷ []) ∷ le_bytes 4 65535 ∷ zeros 2 ∷ more ∷ []) {off = 12} refl)
        refl)
dbg_recv_pkt-encode id acks_hello more h w =
    dbg_recv_pkt-packet type_hello_ack id ((1 ∷ []) ∷ le_bytes 4 65535 ∷ zeros 2 ∷ []) more (
      rw
        (
          session_id-packet type_hello_ack id ((1 ∷ []) ∷ le_bytes 4 65535 ∷ zeros 2 ∷ more ∷ []) h,
          byte_at-packet type_hello_ack id [] 1 (le_bytes 4 65535 ∷ zeros 2 ∷ more ∷ []) {off = 12}
              refl,
        )
        refl)
dbg_recv_pkt-encode id (asks_login n name hash key) more h w =
    dbg_recv_pkt-packet type_auth_req id ((n ∷ []) ∷ name ∷ hash ∷ le_bytes 2 32 ∷ key ∷ []) more (
      rw
        (text_at-packet type_auth_req id [] n name (hash ∷ le_bytes 2 32 ∷ key ∷ more ∷ [])
          {off = 12} refl w)
        refl)
dbg_recv_pkt-encode id (answers_login status) more h w =
    dbg_recv_pkt-packet type_auth_resp id ((status ∷ []) ∷ le_bytes 4 id ∷ zeros 3 ∷ []) more (
      rw
        (
          byte_at-packet type_auth_resp id [] status (le_bytes 4 id ∷ zeros 3 ∷ more ∷ [])
              {off = 12} refl,
          uint_at-packet type_auth_resp id ((status ∷ []) ∷ []) (le_bytes 4 id)
              (zeros 3 ∷ more ∷ []) {off = 13} {n = 4} refl refl,
        )
        (ap (λ x. ok (auth_resp (status == 0) x)) (le_value-le_bytes4 id h)))
dbg_recv_pkt-encode id (asks_key n name) more h w =
    dbg_recv_pkt-packet type_key_req id ((n ∷ []) ∷ name ∷ []) more
      (rw (text_at-packet type_key_req id [] n name (more ∷ []) {off = 12} refl w) refl)
dbg_recv_pkt-encode id (answers_key n name key) more h w =
    dbg_recv_pkt-packet type_key_resp id ((n ∷ []) ∷ name ∷ le_bytes 2 32 ∷ key ∷ []) more (
      rw
        (text_at-packet type_key_resp id [] n name (le_bytes 2 32 ∷ key ∷ more ∷ []) {off = 12} refl
          w)
        refl)
dbg_recv_pkt-encode id (reports code desc) more h w =
    traced-error id code (min (length (text_of desc)) error_desc_max_len) (text_of desc)
      (zeros (error_desc_max_len - min (length (text_of desc)) error_desc_max_len)) more
      (omega arith)
dbg_recv_pkt-encode id leaves more h w =
    dbg_recv_pkt-packet type_bye id [] more (rw (session_id-packet type_bye id (more ∷ []) h) refl)
dbg_recv_pkt-encode id (sends_chat c) more h (fits, w) =
    dbg_recv_pkt_lem (chat_packet type_chat_send id c ++ more)
      (chat_msg_type type_chat_send id c more)
      (rw
        (
          chat_name type_chat_send id more fits w,
          (chat_packet-ReadsChat type_chat_send id more w).ciphertext_len,
        )
        refl)
dbg_recv_pkt-encode id (delivers_chat c) more h (fits, w) =
    dbg_recv_pkt_lem (chat_packet type_chat_deliver id c ++ more)
      (chat_msg_type type_chat_deliver id c more)
      (rw
        (
          chat_name type_chat_deliver id more fits w,
          (chat_packet-ReadsChat type_chat_deliver id more w).ciphertext_len,
        )
        refl)
