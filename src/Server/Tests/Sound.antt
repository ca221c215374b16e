-- ===== src/Server/Tests/Sound.antt =====
-- A packet that is long enough for its message (src/server/server.c).
use squimpchat.Server.Heard.{stream_cb_receive-encode}
use squimpchat.Wire.Messages.{Message, asks_login as asks, encode}
use squimpchat.Base.{
  length, ◌≤◌, codes, zeros, replicate, take, drop, ℕ, [], ◌++◌, ◌∷◌, ◌≡◌, ◌≢◌, refl, some, ok,
  List, arith, ok_injective, Succeeds, memcpy,
}
use squimpchat.Session.{Session, modify, write}
use squimpchat.Registry.Names.{has_name}
use squimpchat.Registry.Lookup.{view, lookup, stream_at}
use squimpchat.Registry.Slots.{used}
use squimpchat.Net.{conn_set_user_data, stream_get_user_data, stream_send}
use squimpchat.Wire.{join, msg_type_at, uint_at, bytes_at}
use squimpchat.Wire.Packets.{hello_packet, auth_req_packet}
use squimpchat.Server.{session_at, modify_session, send}
use squimpchat.Server.Handlers.{process_hello}
use squimpchat.Server.Callbacks.{on_connected, stream_cb_receive}
use squimpchat.Server.Kept.{IsServer}
use squimpchat.Server.Steps.{Steps-IsServer}
use squimpchat.Server.Sound.{IsComplete, Served, stream_cb_receive-Succeeds}
use squimpchat.Server.Tests.Logins.{after_hello, after_hello-Steps, asks_login}

-- What the server has of Eve's AUTH_REQ.
abbrev received : List ℕ
received = join (asks_login ∷ []) ++ 0 ∷ []

received-IsComplete :
    (t : ℕ)
    → 12 ≤ length (join (asks_login ∷ []))
    → msg_type_at received ≡ ok t
    → IsComplete t received
unfolding msg_type_at uint_at bytes_at auth_req_packet
received-IsComplete t l e = record {
  hello = λ k. omega arith;
  auth_req = λ k. omega arith;
  auth_name = λ k n f. omega (arith, ok_injective f);
  key_req = λ k. omega arith;
  chat_send = λ k. omega (arith, ok_injective e, k);
  ciphertext = λ k n f. omega (arith, ok_injective e, k);
}

none_online : (n : List ℕ) {r : ℕ} → stream_at (view after_hello.registry n) ≢ some r
unfolding on_connected conn_set_user_data stream_cb_receive stream_get_user_data msg_type_at uint_at
    bytes_at hello_packet process_hello session_at modify_session modify write send stream_send
    memcpy view lookup used has_name
none_online n e = cc

pub after_hello-Served : (s : Session) × Served 1 100 s [] after_hello
unfolding on_connected conn_set_user_data stream_cb_receive stream_get_user_data msg_type_at uint_at
    bytes_at hello_packet process_hello session_at modify_session modify write send stream_send
    memcpy view lookup used
after_hello-Served = (
  _,
  record {
    invariant = Steps-IsServer after_hello-Steps;
    at = refl;
    live = record { stream = _; conn = _; at = refl; over = refl };
    owner = refl;
    queue = record { chain = refl; last = refl; distinct = tt; posted = refl };
    absent = refl;
    users = λ n r e. absurd (none_online n e);
  },
)

stream_cb_receive-Succeeds_example :
    Succeeds IsServer (stream_cb_receive 1 (asks_login ∷ []) after_hello)
stream_cb_receive-Succeeds_example =
    stream_cb_receive-Succeeds (asks_login ∷ []) received-IsComplete after_hello-Served.1

-- The same request, in two pieces.
abbrev login : Message
login = asks 3 (codes "eve" ++ zeros 29) (replicate 32 7) (replicate 32 6)

abbrev pieces : List (List ℕ)
pieces = take 50 (encode 1 login) ∷ drop 50 (encode 1 login) ∷ []

login_in_pieces : join pieces ≡ encode 1 login
unfolding auth_req_packet
login_in_pieces = refl

stream_cb_receive-encode_example : Succeeds IsServer (stream_cb_receive 1 pieces after_hello)
stream_cb_receive-encode_example =
    stream_cb_receive-encode 1 login pieces (omega arith, refl, refl, refl) login_in_pieces
      after_hello-Served.1
