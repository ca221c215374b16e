-- ===== src/Client/Heard.antt =====
-- What the client and the server send, heard by the client (`on_stream_recv` of src/client/client.c).
use mathlib.Core.Path.{subst}
use squimpchat.Base.{
  ℕ, ◌≡◌, refl, sym, ◌∙◌, Bool, false, ◌||◌, List, ◌++◌, arith, length, length-append, ◌==◌,
  ok_injective, Succeeds,
}
use squimpchat.Net.Send.{IsOpen}
use squimpchat.Wire.{type_hello_ack, type_auth_resp, type_key_resp, type_error, type_chat_deliver}
use squimpchat.Wire.Reads.{chat_packet-ReadsChat}
use squimpchat.Wire.Messages.{
  Message, sends_hello, acks_hello, asks_login, answers_login, asks_key, answers_key, reports,
  leaves, sends_chat, delivers_chat, encode, type_of,
}
use squimpchat.Wire.Sizes.{
  IsSized, size-encode, msg_type-encode, first_byte-encode, second_byte-encode,
}
use squimpchat.Base.{some, ok}
use squimpchat.Net.{stream_get_user_data}
use squimpchat.Client.{Client, on_stream_recv}
use squimpchat.Client.Crypto.{OpenSsl}
use squimpchat.Client.Handled.{Handled}
use squimpchat.Client.Sound.{IsComplete, on_stream_recv-Succeeds}

-- The types of which the client reads more than the header.
abbrev is_reply : ℕ → Bool
is_reply t =
    t == type_hello_ack
    || t == type_auth_resp
    || t == type_key_resp
    || t == type_error
    || t == type_chat_deliver

-- Of other packets the client reads the header only.
other : (t : ℕ) (pkt : List ℕ) → is_reply t ≡ false → IsComplete t pkt
other t pkt h = record {
  hello_ack = λ e. ground arith;
  auth_resp = λ e. ground arith;
  key_resp = λ e. ground arith;
  error = λ e. ground arith;
  desc = λ e n f. ground arith;
  chat_deliver = λ e. ground arith;
  sender = λ e n f. ground arith;
  ciphertext = λ e n f. ground arith;
}

encode-IsComplete :
    (id : ℕ) (m : Message) (more : List ℕ)
    → IsSized m
    → IsComplete (type_of m) (encode id m ++ more)
encode-IsComplete id acks_hello more w = record {
  hello_ack = λ e. omega (arith, size-encode id acks_hello more w);
  auth_resp = λ e. omega arith;
  key_resp = λ e. omega arith;
  error = λ e. omega arith;
  desc = λ e n f. omega arith;
  chat_deliver = λ e. omega arith;
  sender = λ e n f. omega arith;
  ciphertext = λ e n f. omega arith;
}
encode-IsComplete id (answers_login status) more w = record {
  hello_ack = λ e. omega arith;
  auth_resp = λ e. omega (arith, size-encode id (answers_login status) more w);
  key_resp = λ e. omega arith;
  error = λ e. omega arith;
  desc = λ e n f. omega arith;
  chat_deliver = λ e. omega arith;
  sender = λ e n f. omega arith;
  ciphertext = λ e n f. omega arith;
}
encode-IsComplete id (answers_key n name key) more w = record {
  hello_ack = λ e. omega arith;
  auth_resp = λ e. omega arith;
  key_resp = λ e. omega (arith, size-encode id (answers_key n name key) more w);
  error = λ e. omega arith;
  desc = λ e n f. omega arith;
  chat_deliver = λ e. omega arith;
  sender = λ e n f. omega arith;
  ciphertext = λ e n f. omega arith;
}
encode-IsComplete id (reports code desc) more w = record {
  hello_ack = λ e. omega arith;
  auth_resp = λ e. omega arith;
  key_resp = λ e. omega arith;
  error = λ e. omega (arith, size-encode id (reports code desc) more w);
  desc = λ e n f. omega (
    arith,
    size-encode id (reports code desc) more w,
    ok_injective (sym (second_byte-encode id (reports code desc) more refl) ∙ f),
  );
  chat_deliver = λ e. omega arith;
  sender = λ e n f. omega arith;
  ciphertext = λ e n f. omega arith;
}
encode-IsComplete id (delivers_chat c) more w = record {
  hello_ack = λ e. omega arith;
  auth_resp = λ e. omega arith;
  key_resp = λ e. omega arith;
  error = λ e. omega arith;
  desc = λ e n f. omega arith;
  chat_deliver = λ e. omega (arith, size-encode id (delivers_chat c) more w);
  sender = λ e n f.
      omega (arith, w.0, ok_injective (sym (first_byte-encode id (delivers_chat c) more refl) ∙ f));
  ciphertext = λ e n f. omega (
    arith,
    size-encode id (delivers_chat c) more w,
    ok_injective (sym ((chat_packet-ReadsChat type_chat_deliver id more w.1).ciphertext_len) ∙ f),
  );
}
encode-IsComplete id sends_hello more w = other _ _ refl
encode-IsComplete id (asks_login n name hash key) more w = other _ _ refl
encode-IsComplete id (asks_key n name) more w = other _ _ refl
encode-IsComplete id leaves more w = other _ _ refl
encode-IsComplete id (sends_chat c) more w = other _ _ refl

-- Whatever packet the program's own code builds, with arrays of the right sizes and names of at
-- most 32 bytes, and with whatever bytes behind it in the buffer: the client handles it without
-- undefined behaviour, in every state, for all answers of the environment and for any OpenSSL, if
-- its stream is open and leads to its session, and the array for a key has its 32 bytes. Its state
-- goes at most from HELLO to AUTH or from AUTH to CONN_ESTABLISHED, its keys stay, no semaphore
-- goes down, and at most one line is printed.
pub on_stream_recv-encode :
    (o : OpenSsl) (p a id : ℕ) (m : Message) (more : List ℕ) (c : Client)
    → IsSized m
    → length c.session.key_fetch_result ≡ 32
    → IsOpen p c.net
    → stream_get_user_data p c.net ≡ ok (some a)
    → Succeeds (Handled c) (on_stream_recv o p (encode id m ++ more) (length (encode id m)) c)
on_stream_recv-encode o p a id m more c w key live owner =
    on_stream_recv-Succeeds o p a (encode id m ++ more) (length (encode id m)) c
      (omega (arith, length-append (encode id m) more))
      (λ t l e.
        subst (λ u. IsComplete u (encode id m ++ more))
          (ok_injective (sym (msg_type-encode id m more) ∙ e)) (encode-IsComplete id m more w))
      key live owner
