-- ===== src/Client/Chat.antt =====
-- `send_chat` and `sqmp_process_chat_deliver` of src/client/client.c. `send_chat` is modelled in two parts,
-- before and after it waits for the key, since another thread receives the key in between.
use squimpchat.Base.{
  ℕ, zero, suc, ◌%◌, ◌≤◌, ◌<◌, ◌^◌, ◌≡◌, refl, ap, sym, ◌∙◌, Bool, true, false, Option, none, some,
  List, [], ◌∷◌, ◌++◌, arith, ltb, if◌then◌else◌, negate, length, take, drop, zeros, length-append,
  take-append_eq, take-append_le, Run, ok, ◌>>=◌, memcpy, memcmp_eq,
}
use squimpchat.Session.{conn_established, is_established}
use squimpchat.Net.{answer, asked, stream_send}
use squimpchat.Wire.{type_chat_send, type_chat_deliver, bytes_at}
use squimpchat.Wire.Packets.{Chat, chat_packet, key_req_packet}
use squimpchat.Wire.Reads.{ReadsChat, chat_packet-ReadsChat}
use squimpchat.Server.Users.{c_string}
use squimpchat.Client.{Client, chat, printed, process_chat_deliver, show_chat}
use squimpchat.Client.Crypto.{
  OpenSsl, IsOpenSsl, Encrypted, encrypt_chat, decrypt_chat-encrypt_chat,
}

-- `send_chat` up to the wait: the KEY_REQ.
unfoldable pub request_key : ℕ → List ℕ → Client → Run Client
request_key stream recipient c = do
  name ← memcpy (zeros 32) recipient (length recipient)
  (_, n) ←
      stream_send stream (key_req_packet c.session.session_id (length recipient % 256) name) c.net
  ok (record c { net = n })

-- The message of the CHAT_SEND.
abbrev pub chat_message : ℕ → List ℕ → Encrypted → Chat
chat_message recipient_len recipient e = record {
  name_len = recipient_len;
  name = recipient;
  enc_key_len = 32;
  encrypted_key = e.ephemeral_pub ++ zeros 224;
  nonce = e.nonce;
  ciphertext_len = length e.ciphertext;
  ciphertext = e.ciphertext;
}

-- The calls of `calloc`, of `memcpy` and of `sqmp_stream_send`.
unfoldable pub send_encrypted : ℕ → List ℕ → Encrypted → Client → Run (Bool × Client)
send_encrypted stream recipient e c =
    let c1 = record c { net = asked c.net } in
    if negate (answer c.net) then ok (false, c1) else (do
      name ← memcpy (zeros 32) recipient (length recipient)
      (sent, n) ←
          stream_send stream
            (chat_packet type_chat_send c.session.session_id
              (chat_message (length recipient % 256) name e))
            c1.net
      ok (sent, record c1 { net = n }))

abbrev if_encrypted : ℕ → List ℕ → Option Encrypted → Client → Run (Bool × Client)
if_encrypted stream recipient none c = ok (false, c)
if_encrypted stream recipient (some e) c = send_encrypted stream recipient e c

-- `send_chat` once the wait has ended without a timeout: `true` for 0, `false` for -1. `turn` counts the
-- calls of `encrypt_chat`.
unfoldable pub send_message : OpenSsl → ℕ → ℕ → List ℕ → List ℕ → Client → Run (Bool × Client)
unfolding send_encrypted
send_message o turn stream recipient msg c = do
  no_key ← memcmp_eq c.session.key_fetch_result (zeros 32) 32
  let c1 = record c { net = asked c.net }
  if no_key
      then ok (false, c)
      else if negate (answer c.net)
      then ok (false, c1)
      else if_encrypted stream recipient (encrypt_chat o turn c.session.key_fetch_result msg) c1

pub printed_lem : (n : ℕ) (s : List ℕ) → n ≤ length s → printed n s ≡ ok (c_string (take n s))
unfolding printed c_string
printed_lem zero s h = refl
printed_lem (suc n) [] h = absurd (omega arith)
printed_lem (suc n) (c ∷ s) h = ground (arith, printed_lem n s (omega arith))

take-take : (n m : ℕ) (xs : List ℕ) → n ≤ m → take n (take m xs) ≡ take n xs
take-take zero m xs h = refl
take-take (suc n) zero xs h = absurd (omega arith)
take-take (suc n) (suc m) [] h = refl
take-take (suc n) (suc m) (x ∷ xs) h = ap (λ r. x ∷ r) (take-take n m xs (omega arith))

bytes_at-take :
    (off n m : ℕ) (p : List ℕ) {xs : List ℕ}
    → n ≤ m
    → bytes_at off m p ≡ ok xs
    → bytes_at off n p ≡ ok (take n xs)
unfolding bytes_at
bytes_at-take off n m p h e = ground (arith, take-take n m (drop off p) h)

-- The sizes of what OpenSSL returns, and of the message.
pub record IsEncrypted (e : Encrypted) : Type 0 where
  pub key_size : length e.ephemeral_pub ≡ 32
  pub nonce_size : length e.nonce ≡ 12
  pub tagged : 16 ≤ length e.ciphertext
  pub small : length e.ciphertext < 2 ^ 32

show_chat_lem :
    {o : OpenSsl} (turn n : ℕ) (name plaintext from p : List ℕ) {e : Encrypted} (c : Client)
    → IsOpenSsl o
    → o.is_private c.session.client_privkey ≡ true
    → encrypt_chat o turn (o.public_of c.session.client_privkey) plaintext ≡ some e
    → length e.ephemeral_pub ≡ 32
    → ReadsChat p (chat_message n name e)
    → answer c.net ≡ true
    → show_chat o from p (length e.ciphertext) c
      ≡ ok (record c { net = asked c.net; lines = chat from (c_string plaintext) ∷ c.lines })
unfolding show_chat
show_chat_lem turn n name plaintext from p {e} c w priv made size reads room = rw (
  room,
  bytes_at-take 47 32 256 p (omega arith) reads.encrypted_key,
  take-append_eq 32 e.ephemeral_pub (zeros 224) (sym size),
  reads.nonce,
  reads.ciphertext,
  decrypt_chat-encrypt_chat turn plaintext w priv made,
)

read_name :
    {p : List ℕ} {c : Chat}
    → ReadsChat p c
    → c.name_len ≤ length c.name
    → printed c.name_len (drop 13 p) ≡ ok (c_string (take c.name_len c.name))
read_name {p} {c} reads h =
    let (rest, e) = reads.tail in
    rw e (
      printed_lem c.name_len (c.name ++ rest) (omega (arith, length-append c.name rest))
      ∙ ap (λ x. ok (c_string x)) (take-append_le c.name_len c.name rest h))

-- A CHAT_DELIVER with a message that was encrypted for the client's public key (whatever is behind it in
-- the buffer), in state CONN_ESTABLISHED and with memory found: the message is decrypted and printed,
-- up to its first 0 byte, with the name in the packet. Nothing else changes.
pub process_chat_deliver-chat :
    {o : OpenSsl} (turn id n : ℕ) (name plaintext more : List ℕ) {e : Encrypted} (c : Client)
    → IsOpenSsl o
    → o.is_private c.session.client_privkey ≡ true
    → encrypt_chat o turn (o.public_of c.session.client_privkey) plaintext ≡ some e
    → IsEncrypted e
    → n ≤ 32
    → length name ≡ 32
    → c.session.state ≡ conn_established
    → answer c.net ≡ true
    → process_chat_deliver o (chat_packet type_chat_deliver id (chat_message n name e) ++ more) c
      ≡ ok (record c {
        net = asked c.net;
        lines = chat (c_string (take n name)) (c_string plaintext) ∷ c.lines;
      })
unfolding process_chat_deliver
process_chat_deliver-chat {o} turn id n name plaintext more {e} c w priv made size fits long st
      room =
    rw
      (
        ap is_established st,
        reads.name_len,
        read_name reads (omega arith),
        reads.enc_key_len,
        reads.ciphertext_len,
        long_enough,
      )
      (show_chat_lem turn n name plaintext (c_string (take n name)) _ c w priv made size.key_size
        reads room)
  where
    message : Chat
    message = chat_message n name e

    reads : ReadsChat (chat_packet type_chat_deliver id message ++ more) message
    reads = chat_packet-ReadsChat type_chat_deliver id more (record {
      name_byte = omega arith;
      name_size = long;
      key_word = omega arith;
      key_size = omega (arith, length-append e.ephemeral_pub (zeros 224), size.key_size);
      nonce_size = size.nonce_size;
      text_word = size.small;
      text_size = refl;
    })

    long_enough : ltb (length e.ciphertext) 16 ≡ false
    long_enough = ground (arith, size.tagged)
