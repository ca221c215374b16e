-- ===== src/Client/Tests.antt =====
-- Runs of the client's code (src/client/client.c, src/shared/sqmp.c), with an OpenSSL that does not encrypt.
mod Flows
mod Setup
mod Heard
use squimpchat.Base.{
  ℕ, ◌+◌, ◌≡◌, refl, true, false, Option, none, some, List, [], ◌∷◌, ◌++◌, arith, codes, replicate,
  zeros, ok,
}
use squimpchat.Session.{SessionState, hello, auth, conn_established, zero_session}
use squimpchat.Net.{asked}
use squimpchat.Wire.{type_chat_deliver}
use squimpchat.Wire.Packets.{chat_packet, hello_ack_packet, auth_resp_packet, key_resp_packet}
use squimpchat.Server.Worker.{auth_status}
use squimpchat.Server.Users.{c_string}
use squimpchat.Client.{
  Client, chat, process_chat_deliver, process_hello_ack, process_auth_resp, process_key_resp,
}
use squimpchat.Client.Crypto.{OpenSsl, IsOpenSsl, Encrypted, encrypt_chat, decrypt_chat}
use squimpchat.Client.Chat.{chat_message, process_chat_deliver-chat}

abbrev tagged_plainly : List ℕ → Option (List ℕ × List ℕ)
tagged_plainly p = some (p, zeros 16)

abbrev pub openssl : OpenSsl
openssl = record {
  keygen = λ n. some (replicate 32 3);
  public_of = λ a. a;
  is_public = λ a. true;
  is_private = λ a. true;
  derive = λ a b. some [];
  sha256 = λ s. s;
  rand = λ n. some (replicate 12 5);
  seal = λ k n p. tagged_plainly p;
  unseal = λ k n c t. some c;
}

sealed_parts : {p c t : List ℕ} → tagged_plainly p ≡ some (c, t) → (p ≡ c) × (zeros 16 ≡ t)
sealed_parts e = (cc, cc)

pub openssl-IsOpenSsl : IsOpenSsl openssl
openssl-IsOpenSsl = record {
  agree = λ a b. refl;
  is_public = λ a. refl;
  tag_size = λ k n p e. rw (← (sealed_parts e).1) refl;
  opens = λ k n p e. rw ((sealed_parts e).0) refl;
}

abbrev pub client : SessionState → Client
client st = record {
  session = record zero_session { state = st; session_id = 1; client_privkey = replicate 32 9 };
  interrupted = false;
  conn_alive = true;
  lines = [];
  net = record {
    streams = λ a. none;
    conns = λ a. none;
    sent = [];
    shutdowns = [];
    api = [];
    fresh = λ k. 1000 + k;
    answers = λ n. true;
    calls = 0;
  };
}

abbrev pub sealed : Encrypted
sealed = record {
  ephemeral_pub = replicate 32 3;
  nonce = replicate 12 5;
  ciphertext = codes "hi" ++ zeros 16;
}

pub made : encrypt_chat openssl 0 (replicate 32 9) (codes "hi") ≡ some sealed
unfolding encrypt_chat
made = refl
