-- ===== src/Server/Chat.antt =====
-- `sqmp_process_chat_send` of src/shared/sqmp.c, for a recipient who is online.
use squimpchat.Base.{
  none, fault, if◌then◌else◌, ℕ, ◌+◌, ◌≤◌, ◌<◌, ◌^◌, ◌≡◌, ap, ◌∙◌, true, false, some, List, ◌∷◌,
  ◌++◌, arith, if◌then◌else◌, codes, length, take, drop, length-append, take-append_le, ok,
}
use squimpchat.Session.{Session, conn_established}
use squimpchat.Registry.{Registry, registry_find}
use squimpchat.Registry.Lookup.{IsRegistry, view, stream_at, find-view}
use squimpchat.Net.{open_stream, stream_send, Net, answer, asked}
use squimpchat.Net.Send.{
  IsOpen, IsOpen-asked, accepts, after_send, sent-after_send, sent-after_send_fail,
  IsOpen-after_send,
}
use squimpchat.Wire.{type_chat_send, type_chat_deliver, error_could_not_send}
use squimpchat.Wire.Packets.{Chat, chat_packet, error_packet}
use squimpchat.Wire.Reads.{
  IsChat, ReadsChat, chat_packet-ReadsChat, length-chat_packet, length-error_packet,
  session_id-chat_packet,
}
use squimpchat.Server.{send, Server, session_at, send_error}
use squimpchat.Server.Shape.{
  IsSession, send-after, send_error-after, padded, length-padded, memcpy-padded,
}
use squimpchat.Server.Handlers.{process_chat_send, forward, deliver_chat}

-- What the recipient is sent for the message `c` of the session `s`.
abbrev pub delivered : Session → Chat → Chat
delivered s c = record c { name_len = s.username_len; name = padded s.username_len s.username }

find_recipient :
    {p : List ℕ} {c : Chat} {r : Registry}
    → ReadsChat p c
    → IsRegistry r
    → c.name_len ≤ 32
    → length c.name ≡ 32
    → registry_find (drop 13 p) c.name_len r ≡ ok (stream_at (view r (take c.name_len c.name)))
find_recipient {p} {c} {r} reads w short size =
    let (rest, e) = reads.tail in
    rw e (
      (find-view {uname = c.name ++ rest} w
        (record { short = short; inside = omega (arith, length-append c.name rest) })).0
      ∙ ap (λ n. ok (stream_at (view r n))) (take-append_le c.name_len c.name rest (omega arith)))

deliver_chat_lem :
    {p : List ℕ} {c : Chat} {s : Session}
    → ReadsChat p c
    → IsSession s
    → deliver_chat s p c.ciphertext_len ≡ ok (delivered s c)
unfolding deliver_chat
deliver_chat_lem {s} reads w = rw (
  memcpy-padded s.username_len s.username w.name_fits (omega (arith, w.name_size, w.name_fits)),
  reads.enc_key_len,
  reads.encrypted_key,
  reads.nonce,
  reads.ciphertext,
)

-- A session that is logged in sends the message `c` to a user who is online.
pub record Sending (p : ℕ) (s : Session) (id : ℕ) (c : Chat) (r : ℕ) (sv : Server) : Type 0 where
  pub at : sv.sessions p ≡ some s
  pub logged_in : s.state ≡ conn_established
  pub shape : IsSession s
  pub registry : IsRegistry sv.registry
  pub id_word : id < 2 ^ 32
  pub chat : IsChat c
  pub short : c.name_len ≤ 32
  pub small : 319 + c.ciphertext_len < 2 ^ 32
  pub key : List ℕ
  pub found : view sv.registry (take c.name_len c.name) ≡ some (some r, key)

module _ {p : ℕ} {s : Session} {id : ℕ} {c : Chat} {r : ℕ} {sv : Server} (w : Sending p s id c r sv)
    (more : List ℕ) where
  -- The buffer with the packet.
  abbrev pkt : List ℕ
  pkt = chat_packet type_chat_send id c ++ more

  reads : ReadsChat pkt c
  reads = chat_packet-ReadsChat type_chat_send id more w.chat

  -- The packet that the recipient is sent.
  abbrev out : List ℕ
  out = chat_packet type_chat_deliver id (delivered s c)

  short_packet : length out < 2 ^ 32
  short_packet = omega (
    arith,
    length-chat_packet type_chat_deliver id {c = delivered s c} (record {
      name_byte = omega (arith, w.shape.name_fits);
      name_size =
          length-padded s.username_len s.username w.shape.name_fits
            (omega (arith, w.shape.name_size, w.shape.name_fits));
      key_word = w.chat.key_word;
      key_size = w.chat.key_size;
      nonce_size = w.chat.nonce_size;
      text_word = w.chat.text_word;
      text_size = w.chat.text_size;
    }),
    w.small,
  )

  routed :
      (stream : ℕ) → process_chat_send stream (some p) pkt sv ≡ forward stream (some p) s pkt r sv
  unfolding process_chat_send session_at
  routed stream = rw (
    w.at,
    w.logged_in,
    reads.name_len,
    find_recipient reads w.registry w.short w.chat.name_size,
    w.found,
  )

  -- The packet is built, and the rest depends on whether it is sent.
  forwarded :
      (stream : ℕ)
      → IsOpen r sv.net
      → answer sv.net ≡ true
      → forward stream (some p) s pkt r sv ≡ (
          let sv2 = record sv { net = after_send r out (asked sv.net) } in
          if accepts (asked sv.net)
          then ok sv2
          else send_error stream
              (some p)
              error_could_not_send
              (some (codes "could not deliver message"))
              sv2)
  unfolding forward
  forwarded stream live room = rw (
    reads.ciphertext_len,
    room,
    session_id-chat_packet type_chat_send id c more w.id_word,
    deliver_chat_lem reads w.shape,
    send-after out (record sv { net = asked sv.net }) (IsOpen-asked live),
  )

  -- A session that is logged in (of the right shape, on a well-formed registry) sends a CHAT_SEND, with
  -- more bytes behind it or none, to a user of the directory whose stream is open; the packet fits in
  -- 2 ^ 32 bytes. If memory is found and MsQuic takes the packet, `sqmp_process_chat_send` sends the
  -- recipient, and nobody else, one CHAT_DELIVER: it names the session's user as the sender, whatever
  -- the packet says, and has the key, nonce and ciphertext of the message bit for bit. Only the
  -- network changes.
  pub process_chat_send-delivers :
      (stream : ℕ)
      → IsOpen r sv.net
      → answer sv.net ≡ true
      → accepts (asked sv.net) ≡ true
      → (n : Net) × (process_chat_send stream (some p) pkt sv ≡ ok (record sv { net = n }))
        × (n.sent ≡ (r, chat_packet type_chat_deliver id (delivered s c)) ∷ sv.net.sent)
  process_chat_send-delivers stream live room taken = (
    after_send r out (asked sv.net),
    routed stream ∙ forwarded stream live room ∙ rw taken,
    sent-after_send r out (asked sv.net) taken short_packet,
  )

  -- With the same CHAT_SEND, if memory for the packet is found but it is not sent, the sender, whose
  -- stream is open too, is told so by an ERROR with code 2, if that can be sent, and nothing else is
  -- sent. Only the network changes.
  process_chat_send_fails :
      (stream : ℕ)
      → IsOpen r sv.net
      → answer sv.net ≡ true
      → accepts (asked sv.net) ≡ false
      → IsOpen stream sv.net
      → accepts (after_send r out (asked sv.net)) ≡ true
      → (n : Net) × (process_chat_send stream (some p) pkt sv ≡ ok (record sv { net = n }))
        × (n.sent
            ≡ (
              stream,
              error_packet s.session_id error_could_not_send
                  (some (codes "could not deliver message")),
            )
              ∷ sv.net.sent)
  process_chat_send_fails stream live room refused o taken = (
    after_send stream told (after_send r out (asked sv.net)),
    routed stream
        ∙ forwarded stream live room
        ∙ rw refused (
            send_error-after error_could_not_send (some (codes "could not deliver message"))
              (record sv { net = after_send r out (asked sv.net) }) w.at
              (IsOpen-after_send r out (IsOpen-asked o))),
    sent-after_send stream told _ taken (
          omega (
            arith,
            length-error_packet s.session_id error_could_not_send
                (some (codes "could not deliver message")),
          ))
        ∙ ap (◌∷◌ (stream, told)) (sent-after_send_fail r out (asked sv.net) refused),
  )
    where
      told : List ℕ
      told =
          error_packet s.session_id error_could_not_send (some (codes "could not deliver message"))

  -- With the same CHAT_SEND, if the stream in the registry has been freed (a stream that closes is not
  -- taken out of the registry) and memory is found for both buffers, the send goes through the dangling
  -- pointer, which is undefined behaviour.
  pub process_chat_send-dangling :
      (stream : ℕ)
      → sv.net.streams r ≡ none
      → answer sv.net ≡ true
      → answer (asked sv.net) ≡ true
      → process_chat_send stream (some p) pkt sv ≡ fault
  unfolding forward send stream_send open_stream
  process_chat_send-dangling stream gone room room2 =
      routed stream
      ∙ rw (
        reads.ciphertext_len,
        room,
        session_id-chat_packet type_chat_send id c more w.id_word,
        deliver_chat_lem reads w.shape,
        room2,
        gone,
      )
