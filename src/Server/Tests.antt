-- ===== src/Server/Tests.antt =====
-- A server (src/server/server.c) with two users and a third client.
mod Packets
mod Logins
mod Races
mod Sound
mod Lasting
mod Wrapper
use squimpchat.Base.{
  ℕ, ◌+◌, ◌<◌, ◌≡◌, ◌≢◌, refl, Bool, true, false, Option, none, some, List, [], ◌∷◌, ◌++◌, arith,
  codes, ◌==◌, if◌then◌else◌, replicate, zeros, length, take, Run, ok, fault, bytes_eq,
}
use squimpchat.Session.{
  Session, SessionState, Sessions, hello, auth, conn_established, zero_session, write,
}
use squimpchat.Queue.{AuthQueue, auth_queue_init}
use squimpchat.Queue.Chains.{IsQueue}
use squimpchat.Registry.{Registry, init}
use squimpchat.Registry.Lookup.{IsRegistry, lookup, view}
use squimpchat.Registry.Names.{has_name}
use squimpchat.Registry.Tests.{two_users, two_users-IsRegistry, ada_key, bob_key}
use squimpchat.Net.{Net, Stream, Conn, asked, conn_get_user_data}
use squimpchat.Net.Send.{IsOpen}
use squimpchat.Wire.{
  type_hello, type_auth_req, type_key_req, type_chat_send, type_chat_deliver, error_unexpected_msg,
}
use squimpchat.Wire.Packets.{
  Chat, chat_packet, key_req_packet, key_resp_packet, auth_req_packet, error_packet, hello_packet,
}
use squimpchat.Wire.Reads.{IsChat}
use squimpchat.Server.{Server}
use squimpchat.Server.Shape.{IsSession, after}
use squimpchat.Server.Handlers.{
  process_chat_send, process_key_req, process_auth_req, process_hello, process_bye,
}
use squimpchat.Server.Chat.{Sending, delivered, process_chat_send-delivers}

-- The streams 1, 2 and 3 of the connections 10, 20 and 30, with the sessions 100, 200 and 300.
abbrev pub streams : ℕ → Option Stream
streams a =
    if a == 1
    then some (record { handle = 1; conn = 10; user_data = some 100 })
    else if a == 2
    then some (record { handle = 2; conn = 20; user_data = some 200 })
    else if a == 3
    then some (record { handle = 3; conn = 30; user_data = some 300 })
    else none

-- A connection that the server has accepted, with a session.
abbrev pub accepted_conn : ℕ → ℕ → Conn
accepted_conn handle session = record {
  handle = handle;
  connect_sem = 1;
  closed_sem = 0;
  connected = true;
  is_server = true;
  user_data = some session;
}

abbrev pub conns : ℕ → Option Conn
conns a =
    if a == 10
    then some (accepted_conn 10 100)
    else if a == 20
    then some (accepted_conn 20 200)
    else if a == 30
    then some (accepted_conn 30 300)
    else none

-- The environment, by its answers.
abbrev pub net : (ℕ → Bool) → Net
net answers = record {
  streams = streams;
  conns = conns;
  sent = [];
  shutdowns = [];
  api = [];
  fresh = λ k. 1000 + k;
  answers = answers;
  calls = 0;
}

abbrev pub willing : ℕ → Bool
willing n = true

-- A session that is logged in under a name of three letters.
abbrev pub user : List ℕ → ℕ → Session
user name id = record zero_session {
  state = conn_established;
  session_id = id;
  username_len = 3;
  username = name ++ zeros 29;
  auth_stream = some id;
}

pub user-IsSession :
    (name : List ℕ) (id : ℕ) → length (name ++ zeros 29) ≡ 32 → IsSession (user name id)
user-IsSession name id h = record {
  name_size = h;
  name_fits = omega arith;
  auth_name_size = refl;
  auth_name_fits = omega arith;
  hash_size = refl;
  key_size = refl;
}

-- The third client's session is in any state.
abbrev pub server : Session → (ℕ → Bool) → Server
server s answers = record {
  sessions = λ a.
      if a == 100
      then some (user (codes "ada") 1)
      else if a == 200
      then some (user (codes "bob") 2)
      else if a == 300
      then some s
      else none;
  queue = auth_queue_init;
  registry = two_users;
  next_session_id = 4;
  net = net answers;
}

abbrev pub at_login : Session
at_login = record zero_session { state = auth; session_id = 3 }

pub ada-IsOpen : (answers : ℕ → Bool) → IsOpen 1 (net answers)
ada-IsOpen answers = record {
  stream = record { handle = 1; conn = 10; user_data = some 100 };
  conn = accepted_conn 10 100;
  at = refl;
  over = refl;
}

pub bob-IsOpen : (answers : ℕ → Bool) → IsOpen 2 (net answers)
bob-IsOpen answers = record {
  stream = record { handle = 2; conn = 20; user_data = some 200 };
  conn = accepted_conn 20 200;
  at = refl;
  over = refl;
}

pub eve-IsOpen : (answers : ℕ → Bool) → IsOpen 3 (net answers)
eve-IsOpen answers = record {
  stream = record { handle = 3; conn = 30; user_data = some 300 };
  conn = accepted_conn 30 300;
  at = refl;
  over = refl;
}

-- Ada's message to Bob.
abbrev pub message : Chat
message = record {
  name_len = 3;
  name = codes "bob" ++ zeros 29;
  enc_key_len = 0;
  encrypted_key = zeros 256;
  nonce = replicate 12 5;
  ciphertext_len = 2;
  ciphertext = 8 ∷ 9 ∷ [];
}

message-IsChat : IsChat message
message-IsChat = record {
  name_byte = omega arith;
  name_size = refl;
  key_word = omega arith;
  key_size = refl;
  nonce_size = refl;
  text_word = omega arith;
  text_size = refl;
}

pub ada_sends :
    (n : Net)
    → Sending 100 (user (codes "ada") 1) 1 message 2 (record (server at_login willing) { net = n })
unfolding view lookup has_name bytes_eq
ada_sends n = record {
  at = refl;
  logged_in = refl;
  shape = user-IsSession (codes "ada") 1 refl;
  registry = two_users-IsRegistry;
  id_word = omega arith;
  chat = message-IsChat;
  short = omega arith;
  small = omega arith;
  key = bob_key;
  found = refl;
}
