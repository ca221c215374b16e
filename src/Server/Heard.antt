-- ===== src/Server/Heard.antt =====
-- What the client and the server send, heard by the server (`on_stream_recv` of src/server/server.c).
use mathlib.Core.Path.{subst}
use squimpchat.Base.{
  ℕ, ◌≡◌, refl, sym, ◌∙◌, Bool, false, ◌||◌, List, [], ◌∷◌, ◌++◌, arith, ◌==◌, ok_injective,
  Succeeds,
}
use squimpchat.Session.{Session}
use squimpchat.Wire.{join, type_hello, type_auth_req, type_key_req, type_chat_send}
use squimpchat.Wire.Reads.{chat_packet-ReadsChat}
use squimpchat.Wire.Messages.{
  Message, sends_hello, acks_hello, asks_login, answers_login, asks_key, answers_key, reports,
  leaves, sends_chat, delivers_chat, encode, type_of,
}
use squimpchat.Wire.Sizes.{IsSized, size-encode, msg_type-encode, first_byte-encode}
use squimpchat.Server.{Server}
use squimpchat.Server.Kept.{IsServer}
use squimpchat.Server.Callbacks.{stream_cb_receive}
use squimpchat.Server.Sound.{IsComplete, Served, stream_cb_receive-Succeeds}

-- The types of which the server reads more than the header.
abbrev is_request : ℕ → Bool
is_request t = t == type_hello || t == type_auth_req || t == type_key_req || t == type_chat_send

-- Of other packets the server reads the header only.
other : (t : ℕ) (pkt : List ℕ) → is_request t ≡ false → IsComplete t pkt
other t pkt h = record {
  hello = λ e. ground arith;
  auth_req = λ e. ground arith;
  auth_name = λ e n f. ground arith;
  key_req = λ e. ground arith;
  chat_send = λ e. ground arith;
  ciphertext = λ e n f. ground arith;
}

encode-IsComplete :
    (id : ℕ) (m : Message) (more : List ℕ)
    → IsSized m
    → IsComplete (type_of m) (encode id m ++ more)
encode-IsComplete id sends_hello more w = record {
  hello = λ e. omega (arith, size-encode id sends_hello more w);
  auth_req = λ e. omega arith;
  auth_name = λ e n f. omega arith;
  key_req = λ e. omega arith;
  chat_send = λ e. omega arith;
  ciphertext = λ e n f. omega arith;
}
encode-IsComplete id (asks_login n name hash key) more w = record {
  hello = λ e. omega arith;
  auth_req = λ e. omega (arith, size-encode id (asks_login n name hash key) more w);
  auth_name = λ e k f. omega (
    arith,
    w.0,
    ok_injective (sym (first_byte-encode id (asks_login n name hash key) more refl) ∙ f),
  );
  key_req = λ e. omega arith;
  chat_send = λ e. omega arith;
  ciphertext = λ e n f. omega arith;
}
encode-IsComplete id (asks_key n name) more w = record {
  hello = λ e. omega arith;
  auth_req = λ e. omega arith;
  auth_name = λ e n f. omega arith;
  key_req = λ e. omega (arith, size-encode id (asks_key n name) more w);
  chat_send = λ e. omega arith;
  ciphertext = λ e n f. omega arith;
}
encode-IsComplete id (sends_chat c) more w = record {
  hello = λ e. omega arith;
  auth_req = λ e. omega arith;
  auth_name = λ e n f. omega arith;
  key_req = λ e. omega arith;
  chat_send = λ e. omega (arith, size-encode id (sends_chat c) more w);
  ciphertext = λ e n f. omega (
    arith,
    size-encode id (sends_chat c) more w,
    ok_injective (sym ((chat_packet-ReadsChat type_chat_send id more w.1).ciphertext_len) ∙ f),
  );
}
encode-IsComplete id acks_hello more w = other _ _ refl
encode-IsComplete id (answers_login status) more w = other _ _ refl
encode-IsComplete id (answers_key n name key) more w = other _ _ refl
encode-IsComplete id (reports code desc) more w = other _ _ refl
encode-IsComplete id leaves more w = other _ _ refl
encode-IsComplete id (delivers_chat c) more w = other _ _ refl

-- Whatever packet the program's own code builds, with arrays of the right sizes and names of at most 32
-- bytes, and in whatever pieces it comes in: the server handles it without undefined behaviour and keeps
-- its invariant. This holds in every state of the session and for all answers of the environment, if the
-- invariant holds, the stream leads to a session that is allocated and not in the queue, the queue is well
-- formed, and the streams of the sender and of all users are open.
pub stream_cb_receive-encode :
    {stream p : ℕ} {s : Session} {xs : List ℕ} {sv : Server} (id : ℕ) (m : Message)
    (buffers : List (List ℕ))
    → IsSized m
    → join buffers ≡ encode id m
    → Served stream p s xs sv
    → Succeeds IsServer (stream_cb_receive stream buffers sv)
stream_cb_receive-encode id m buffers w same served =
    stream_cb_receive-Succeeds buffers
      (rw same λ t l e.
        subst (λ u. IsComplete u (encode id m ++ 0 ∷ []))
          (ok_injective (sym (msg_type-encode id m (0 ∷ [])) ∙ e))
          (encode-IsComplete id m (0 ∷ []) w))
      served
