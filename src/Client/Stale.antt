-- ===== src/Client/Stale.antt =====
-- A KEY_RESP that comes too late (`send_chat` and `sqmp_process_key_resp`, src/client/client.c and
-- src/shared/sqmp.c): the key of one user for a message to another.
use squimpchat.Base.{
  ℕ, ◌+◌, ◌%◌, ◌≤◌, ◌<◌, ◌^◌, ◌≡◌, refl, ap, Bool, true, false, some, List, ◌∷◌, ◌++◌, arith, ◌==◌,
  length, take, zeros, bytes_eq, ok, Succeeds,
}
use squimpchat.Net.{Net, answer, asked}
use squimpchat.Net.Send.{IsOpen, IsOpen-after_send, accepts, after_send, stream_send-after_send}
use squimpchat.Wire.{type_chat_send}
use squimpchat.Wire.Packets.{chat_packet, key_req_packet, key_resp_packet}
use squimpchat.Server.Shape.{padded, memcpy-padded}
use squimpchat.Client.{Client, sent_to, send_failed, key_timeout, process_key_resp}
use squimpchat.Client.Crypto.{OpenSsl, Encrypted, encrypt_chat}
use squimpchat.Client.Chat.{request_key, IsEncrypted}
use squimpchat.Client.Commands.{again, waits, begin_message, message_turn}
use squimpchat.Client.Replies.{process_key_resp-key_resp_packet}
use squimpchat.Client.Sent.{Composing, message_to, message_turn-again}

-- The client whose wait has ended by the time, and what the network is once it asks for another key.
abbrev asked_for : ℕ → List ℕ → Client → Net
asked_for dest recipient c =
    after_send dest
      (key_req_packet c.session.session_id (length recipient % 256)
        (padded (length recipient) recipient))
      c.net

-- The message is given up.
abbrev given_up : List ℕ → Client → Client
given_up early c = record c { lines = send_failed ∷ key_timeout early ∷ c.lines }

abbrev with_key : List ℕ → Client → Client
with_key key c = record c {
  session = record c.session {
    key_fetch_result = key;
    key_fetch_sem = c.session.key_fetch_sem + 1;
  };
}

abbrev asking : ℕ → List ℕ → List ℕ → Client → Client
asking dest recipient text c = record c {
  lines = sent_to recipient text ∷ c.lines;
  net = asked_for dest recipient c;
}

-- A client that waits for a key, and what it is going to encrypt; memory is found, and MsQuic takes the packet.
pub record Late (o : OpenSsl) (turn dest : ℕ) (recipient text key : List ℕ) (e : Encrypted)
    (c : Client) : Type 0 where
  pub nothing_came : c.session.key_fetch_sem ≡ 0
  pub result_size : length c.session.key_fetch_result ≡ 32
  pub key_size : length key ≡ 32
  pub some_key : bytes_eq (take 32 key) (zeros 32) ≡ false
  pub fits : length recipient ≤ 32
  pub made : encrypt_chat o turn key text ≡ some e
  pub sizes : IsEncrypted e
  pub small : 319 + length e.ciphertext < 2 ^ 32
  pub live : IsOpen dest c.net
  pub room : answer (asked_for dest recipient c) ≡ true
  pub more_room : answer (asked (asked_for dest recipient c)) ≡ true
  pub taken : accepts (asked (asked (asked_for dest recipient c))) ≡ true

-- The client after the timeout, after the late KEY_RESP, and once it waits for the key of `recipient`.
pub record Stale (o : OpenSsl) (turn dest : ℕ) (early draft late_resp recipient text : List ℕ)
    (timed_out : Bool) (e : Encrypted) (c : Client) : Type 0 where
  pub c1 : Client
  pub times_out : message_turn o turn dest true early draft c ≡ ok (again, c1)
  pub c2 : Client
  pub comes_late : process_key_resp late_resp c1 ≡ ok c2
  pub c3 : Client
  pub asks : begin_message dest recipient text c2 ≡ ok (waits recipient text, c3)
  pub goes_on :
      Succeeds
        (λ r.
          (r.0 ≡ again)
          × (r.1.net.sent
              ≡ (dest, chat_packet type_chat_send c.session.session_id (message_to recipient e))
                ∷ c3.net.sent))
        (message_turn o turn dest timed_out recipient text c3)

-- The client waits for the key of the user `early`, the time is over, and then the KEY_RESP with
-- his key comes. If the user now enters a message for another user, `recipient`, the client asks
-- for the key of `recipient`, but does not wait for it: without any further packet it sends
-- `recipient` the text encrypted with the key of `early`.
pub message_turn-Stale :
    {o : OpenSsl} (turn dest id n : ℕ) (early draft name : List ℕ) {recipient text key : List ℕ}
    (more : List ℕ) (timed_out : Bool) {e : Encrypted} {c : Client}
    → Late o turn dest recipient text key e c
    → length name ≡ 32
    → Stale o turn dest early draft
        (key_resp_packet id n name key ++ more)
        recipient
        text
        timed_out
        e
        c
unfolding message_turn begin_message request_key
message_turn-Stale {o} turn dest id n early draft name {recipient} {text} {key} more timed_out {e}
      {c} w named =
    let c1 = given_up early c in
    let c2 = with_key key c1 in
    let c3 = asking dest recipient text c2 in
    record {
      c1 = c1;
      times_out = rw (ap (λ k. k == 0) w.nothing_came) refl;
      c2 = c2;
      comes_late =
          process_key_resp-key_resp_packet id n name key more c1 named w.key_size w.result_size;
      c3 = c3;
      asks =
          rw
            (
              memcpy-padded (length recipient) recipient w.fits (omega arith),
              stream_send-after_send
                  (key_req_packet c.session.session_id (length recipient % 256)
                    (padded (length recipient) recipient))
                  w.live,
            )
            refl;
      goes_on = message_turn-again turn dest composing timed_out;
    }
  where
    composing :
        Composing o turn dest recipient text e
          (asking dest recipient text (with_key key (given_up early c)))
    composing = record {
      key_came = ground arith;
      key_size = w.key_size;
      some_key = w.some_key;
      fits = w.fits;
      made = w.made;
      sizes = w.sizes;
      small = w.small;
      live = IsOpen-after_send dest _ w.live;
      room = w.room;
      more_room = w.more_room;
      taken = w.taken;
    }
