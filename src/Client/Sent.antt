-- ===== src/Client/Sent.antt =====
-- A message from the sender's client (`send_chat` of src/client/client.c) through the server
-- (`sqmp_process_chat_send` of src/shared/sqmp.c) to the recipient's screen.
use squimpchat.Base.{
  ℕ, ◌+◌, ◌%◌, ◌≤◌, ◌<◌, ◌^◌, ◌≡◌, refl, ap, ◌∙◌, Bool, true, false, some, List, ◌∷◌, ◌++◌, arith,
  ◌==◌, length, length-append, length-take, take, take-append_eq, drop, zeros, ◌-◌, sym, bytes_eq,
  memcmp_eq_lem, ok, Succeeds,
}
use squimpchat.Session.{Session, conn_established}
use squimpchat.Net.{Net, answer, asked}
use squimpchat.Net.Send.{
  IsOpen, IsOpen-asked, accepts, after_send, stream_send-after_send, sent-after_send,
}
use squimpchat.Wire.{type_chat_send, type_chat_deliver}
use squimpchat.Wire.Packets.{Chat, chat_packet}
use squimpchat.Wire.Reads.{IsChat, length-chat_packet}
use squimpchat.Server.{Server}
use squimpchat.Server.Users.{c_string}
use squimpchat.Server.Shape.{name_of, padded, memcpy-padded, length-padded}
use squimpchat.Server.Handlers.{process_chat_send}
use squimpchat.Server.Chat.{Sending, delivered, process_chat_send-delivers}
use squimpchat.Client.{Client, chat, process_chat_deliver}
use squimpchat.Client.Crypto.{OpenSsl, IsOpenSsl, Encrypted, encrypt_chat}
use squimpchat.Client.Chat.{
  chat_message, send_message, send_encrypted, IsEncrypted, process_chat_deliver-chat,
}
use squimpchat.Client.Commands.{again, message_turn}

-- A client that has the recipient's key and encrypts the text; memory is found, and MsQuic takes the
-- packet.
pub record Composing (o : OpenSsl) (turn dest : ℕ) (recipient text : List ℕ) (e : Encrypted)
    (c : Client) : Type 0 where
  pub key_came : (c.session.key_fetch_sem == 0) ≡ false
  pub key_size : length c.session.key_fetch_result ≡ 32
  pub some_key : bytes_eq (take 32 c.session.key_fetch_result) (zeros 32) ≡ false
  pub fits : length recipient ≤ 32
  pub made : encrypt_chat o turn c.session.key_fetch_result text ≡ some e
  pub sizes : IsEncrypted e
  pub small : 319 + length e.ciphertext < 2 ^ 32
  pub live : IsOpen dest c.net
  pub room : answer c.net ≡ true
  pub more_room : answer (asked c.net) ≡ true
  pub taken : accepts (asked (asked c.net)) ≡ true

-- The message for a recipient.
abbrev pub message_to : List ℕ → Encrypted → Chat
message_to recipient e = chat_message (length recipient) (padded (length recipient) recipient) e

module _ {o : OpenSsl} (turn dest : ℕ) {recipient text : List ℕ} {e : Encrypted} {c : Client}
    (w : Composing o turn dest recipient text e c) where
  abbrev chat_send : List ℕ
  chat_send = chat_packet type_chat_send c.session.session_id (message_to recipient e)

  -- The fields of the message have their sizes.
  message_to-IsChat : IsChat (message_to recipient e)
  message_to-IsChat = record {
    name_byte = omega (arith, w.fits);
    name_size = length-padded (length recipient) recipient w.fits (omega arith);
    key_word = omega arith;
    key_size = omega (arith, length-append e.ephemeral_pub (zeros 224), w.sizes.key_size);
    nonce_size = w.sizes.nonce_size;
    text_word = w.sizes.small;
    text_size = refl;
  }

  small_packet : length chat_send < 2 ^ 32
  small_packet =
      omega
        (arith, length-chat_packet type_chat_send c.session.session_id message_to-IsChat, w.small)

  byte : length recipient % 256 ≡ length recipient
  byte = omega (arith, w.fits)

  -- The client once the key is taken and memory found.
  abbrev ready : ℕ → Client
  ready k = record c { session = record c.session { key_fetch_sem = k }; net = asked c.net }

  -- The packet is built and sent.
  sent_encrypted :
      (k : ℕ)
      → send_encrypted dest recipient e (ready k)
        ≡ ok (true, record (ready k) { net = after_send dest chat_send (asked (asked c.net)) })
  unfolding send_encrypted
  sent_encrypted k =
      rw
        (
          w.more_room,
          memcpy-padded (length recipient) recipient w.fits (omega arith),
          byte,
          stream_send-after_send chat_send (IsOpen-asked (IsOpen-asked w.live)),
          w.taken,
        )
        refl

  sent_message :
      (k : ℕ)
      → send_message o turn dest recipient text
          (record c { session = record c.session { key_fetch_sem = k } })
        ≡ ok (true, record (ready k) { net = after_send dest chat_send (asked (asked c.net)) })
  unfolding send_message
  sent_message k =
      rw
        (
          memcmp_eq_lem c.session.key_fetch_result (zeros 32) 32 (omega (arith, w.key_size))
              (omega arith),
          w.some_key,
          w.room,
          w.made,
        )
        (sent_encrypted k)

  -- The key has come for a client that encrypts the text: the client takes one CHAT_SEND for the
  -- recipient to MsQuic, and reads the next line.
  pub message_turn-again :
      (timed_out : Bool)
      → Succeeds
          (λ r. (r.0 ≡ again) × (r.1.net.sent ≡ (dest, chat_send) ∷ c.net.sent))
          (message_turn o turn dest timed_out recipient text c)
  unfolding message_turn
  message_turn-again timed_out =
      rw (w.key_came, sent_message (c.session.key_fetch_sem - 1))
        (refl, sent-after_send dest chat_send (asked (asked c.net)) w.taken small_packet)

  -- A message goes through. The sender's client has the key of the recipient, whose private key is
  -- the recipient's client's; the sender's session is logged in at the server, and the recipient is in
  -- its directory; everybody finds memory, and MsQuic takes the packets. Then the sender's client sends
  -- a packet, for which the server sends the recipient one packet, for which the recipient's client
  -- prints the name under which the sender logged in and the text, up to their first 0 byte.
  pub message_turn-chat :
      (timed_out : Bool) (more more' : List ℕ) {p r : ℕ} {s : Session} {sv : Server} (stream : ℕ)
      (friend : Client)
      → IsOpenSsl o
      → c.session.key_fetch_result ≡ o.public_of friend.session.client_privkey
      → o.is_private friend.session.client_privkey ≡ true
      → Sending p s c.session.session_id (message_to recipient e) r sv
      → IsOpen r sv.net
      → answer sv.net ≡ true
      → accepts (asked sv.net) ≡ true
      → friend.session.state ≡ conn_established
      → answer friend.net ≡ true
      → let out =
          chat_packet type_chat_deliver c.session.session_id
            (delivered s (message_to recipient e)) in
        Succeeds
          (λ t. (t.0 ≡ again) × (t.1.net.sent ≡ (dest, chat_send) ∷ c.net.sent))
          (message_turn o turn dest timed_out recipient text c)
        × (n : Net) × (process_chat_send stream (some p) (chat_send ++ more) sv
            ≡ ok (record sv { net = n }))
        × (n.sent ≡ (r, out) ∷ sv.net.sent)
        × (process_chat_deliver o (out ++ more') friend
            ≡ ok (record friend {
              net = asked friend.net;
              lines = chat (c_string (name_of s)) (c_string text) ∷ friend.lines;
            }))
  message_turn-chat timed_out more more' {p} {r} {s} {sv} stream friend laws same priv q live room
        taken st mem =
      let (n, is, out) = process_chat_send-delivers q more stream live room taken in
      (message_turn-again timed_out, n, is, out, shown)
    where
      name : take s.username_len (padded s.username_len s.username) ≡ name_of s
      name = take-append_eq s.username_len (name_of s) (drop s.username_len (zeros 32)) (
          omega
            (arith, length-take s.username_len s.username, q.shape.name_size, q.shape.name_fits))

      shown :
          process_chat_deliver o
            (chat_packet type_chat_deliver c.session.session_id
                (delivered s (message_to recipient e))
              ++ more')
            friend
          ≡ ok (record friend {
            net = asked friend.net;
            lines = chat (c_string (name_of s)) (c_string text) ∷ friend.lines;
          })
      shown =
          process_chat_deliver-chat turn c.session.session_id s.username_len
            (padded s.username_len s.username) text more' friend laws priv
            (ap (λ k. encrypt_chat o turn k text) (sym same) ∙ w.made) w.sizes q.shape.name_fits
            (length-padded s.username_len s.username q.shape.name_fits
              (omega (arith, q.shape.name_size, q.shape.name_fits)))
            st mem
          ∙ ap
              (λ x. ok (record friend {
                net = asked friend.net;
                lines = chat (c_string x) (c_string text) ∷ friend.lines;
              }))
              name
