-- ===== src/Server/Tests/Logins.antt =====
-- Runs of the server's callbacks and of its main loop (src/server/server.c).
use squimpchat.Base.{
  zero, suc, memcmp_eq, ℕ, ◌≡◌, refl, true, Option, some, List, [], ◌∷◌, ◌++◌, arith, codes,
  replicate, zeros, Run, ok, fault, bytes_eq, memcpy, inr, false,
}
use squimpchat.Session.{Session, closing, write, modify}
use squimpchat.Registry.{Registry}
use squimpchat.Registry.Tests.{two_users, two_users-IsRegistry}
use squimpchat.Net.{Net, conn_set_user_data, stream_get_user_data, stream_send, conn_get_user_data}
use squimpchat.Wire.{msg_type_at, uint_at, bytes_at}
use squimpchat.Wire.Packets.{hello_packet, auth_req_packet}
use squimpchat.Queue.{auth_queue_enqueue}
use squimpchat.Queue.Chains.{IsQueue}
use squimpchat.Server.{Server, session_at, modify_session, send}
use squimpchat.Server.Shape.{IsSession}
use squimpchat.Server.Handlers.{process_hello, process_auth_req, enqueue, process_bye}
use squimpchat.Registry.{empty_entry}
use squimpchat.Server.Farewell.{Reached, farewells, registry_send_bye_all-farewells}
use squimpchat.Server.Worker.{registry_send_bye_all}
use squimpchat.Server.Tests.{
  ada-IsOpen, bob-IsOpen, net, willing, user, user-IsSession, server, at_login, eve-IsOpen,
}
use squimpchat.Server.Users.{verify_credentials, fgets_lines, split_colon, c_string, strip_eol}
use squimpchat.Server.Worker.{asleep, handle_pending, worker_loop}
use squimpchat.Server.Waiting.{AllReady}
use squimpchat.Server.Drained.{Drained, worker_loop-Drained}
use squimpchat.Server.Login.{Login, dequeued, login_name, handle_pending-Login}
use squimpchat.Server.Leave.{Offline, Left, process_bye-Offline, on_disconnected-Left}
use squimpchat.Server.Callbacks.{on_connected, on_disconnected, stream_cb_receive}
use squimpchat.Server.Kept.{IsServer, Turned}
use squimpchat.Server.Received.{stream_cb_receive-Kept}
use squimpchat.Server.Steps.{start, Steps, here, on, connected, received, Steps-IsServer}

-- The file of users, with the hash of 32 bytes 7 for Eve.
abbrev pub users_file : Option (List ℕ)
users_file = some (
    codes "bob:00\neve:"
    ++ (codes "0707070707070707070707070707070707070707070707070707070707070707" ++ (10 ∷ [])))

-- Eve's session in the queue.
abbrev pending : Session
pending = record at_login {
  auth_queued = true;
  auth_username_len = 3;
  auth_username = codes "eve" ++ zeros 29;
  auth_password_hash = replicate 32 7;
  auth_stream = some 3;
}

pending-IsSession : IsSession pending
pending-IsSession = record {
  name_size = refl;
  name_fits = omega arith;
  auth_name_size = refl;
  auth_name_fits = omega arith;
  hash_size = refl;
  key_size = refl;
}

verify_eve : verify_credentials users_file (login_name pending) pending.auth_password_hash ≡ ok true
unfolding verify_credentials fgets_lines split_colon c_string bytes_eq strip_eol memcmp_eq
verify_eve = refl

handle_pending-Login_example :
    Login 300
      (dequeued pending)
      true
      (record (server pending willing) {
        sessions = write (server pending willing).sessions 300 (some (dequeued pending));
      })
      (handle_pending users_file 300 (server pending willing))
handle_pending-Login_example =
    handle_pending-Login users_file (server pending willing) true refl refl pending-IsSession
      two_users-IsRegistry (eve-IsOpen willing) verify_eve

process_bye-Offline_example :
    (r : Registry) × (process_bye (some 100) (server at_login willing)
      ≡ ok (record (server at_login willing) {
        registry = r;
        sessions =
            write
              (server at_login willing).sessions
              100
              (some (record (user (codes "ada") 1) { state = closing }));
      }))
    × Offline (user (codes "ada") 1) (server at_login willing) r
process_bye-Offline_example =
    process_bye-Offline (server at_login willing) refl refl (user-IsSession (codes "ada") 1 refl)
      two_users-IsRegistry

on_disconnected-Left_example :
    Left 200
      (user (codes "bob") 2)
      (server at_login willing)
      (on_disconnected 20 (server at_login willing))
unfolding conn_get_user_data
on_disconnected-Left_example =
    on_disconnected-Left 20 (server at_login willing) refl refl
      (user-IsSession (codes "bob") 2 refl) two_users-IsRegistry

-- The server that a run leaves.
abbrev pub left_by : Server → Run Server → Server
left_by sv (ok sv') = sv'
left_by sv fault = sv

abbrev pub began : Server
began = start (net willing)

-- The client of connection 10 has connected, and has said HELLO.
abbrev pub one_client : Server
one_client = left_by began (on_connected 10 (some 100) began)

abbrev pub after_hello : Server
after_hello = left_by one_client (stream_cb_receive 1 (hello_packet ∷ []) one_client)

pub connects : on_connected 10 (some 100) began ≡ ok one_client
unfolding on_connected conn_set_user_data
connects = refl

pub says_hello : stream_cb_receive 1 (hello_packet ∷ []) one_client ≡ ok after_hello
unfolding on_connected conn_set_user_data stream_cb_receive stream_get_user_data msg_type_at uint_at
    bytes_at hello_packet process_hello session_at modify_session write send stream_send
says_hello = refl

pub after_hello-Steps : Steps began after_hello
after_hello-Steps =
    on (on here (connected 10 (some 100) refl connects)) (received 1 (hello_packet ∷ []) says_hello)

Steps-IsServer_example : IsServer after_hello
Steps-IsServer_example = Steps-IsServer after_hello-Steps

stream_cb_receive-Kept_example :
    IsServer after_hello × ((a : ℕ) → Turned (one_client.sessions a) (after_hello.sessions a))
stream_cb_receive-Kept_example =
    stream_cb_receive-Kept 1 (hello_packet ∷ [])
      (Steps-IsServer (on here (connected 10 (some 100) refl connects))) says_hello

-- No entry is in use behind the two users.
nobody : (k : ℕ) (n : Net) → Reached (replicate k empty_entry) n
nobody zero n = tt
nobody (suc k) n = (tt, nobody k n)

registry_send_bye_all-farewells_example :
    (n : Net) × (registry_send_bye_all two_users (server at_login willing)
      ≡ ok (record (server at_login willing) { net = n }))
    × (n.sent ≡ farewells two_users [])
registry_send_bye_all-farewells_example =
    registry_send_bye_all-farewells two_users (server at_login willing) (λ k. refl)
      (ada-IsOpen willing, (bob-IsOpen willing, nobody 62 (net willing)))

-- Then the client asks to log in as Eve.
abbrev pub asks_login : List ℕ
asks_login = auth_req_packet 1 3 (codes "eve" ++ zeros 29) (replicate 32 7) (replicate 32 6)

abbrev pub after_request : Server
after_request = left_by after_hello (stream_cb_receive 1 (asks_login ∷ []) after_hello)

pub asks : stream_cb_receive 1 (asks_login ∷ []) after_hello ≡ ok after_request
unfolding on_connected conn_set_user_data stream_cb_receive stream_get_user_data msg_type_at uint_at
    bytes_at hello_packet auth_req_packet process_hello process_auth_req enqueue auth_queue_enqueue
    session_at modify_session modify write send stream_send memcpy
asks = refl

pub waiting : IsQueue after_request.queue after_request.sessions (100 ∷ [])
unfolding on_connected conn_set_user_data stream_cb_receive stream_get_user_data msg_type_at uint_at
    bytes_at hello_packet auth_req_packet process_hello process_auth_req enqueue auth_queue_enqueue
    session_at modify_session modify write send stream_send memcpy
waiting = record {
  chain = (_, refl, refl, refl);
  last = refl;
  distinct = (refl, tt);
  posted = refl;
}

ready : AllReady users_file after_request.net after_request.sessions (100 ∷ [])
unfolding on_connected conn_set_user_data stream_cb_receive stream_get_user_data msg_type_at uint_at
    bytes_at hello_packet auth_req_packet process_hello process_auth_req enqueue auth_queue_enqueue
    session_at modify_session modify write send stream_send memcpy verify_credentials fgets_lines
    split_colon c_string bytes_eq strip_eol memcmp_eq
ready = (inr (refl, record { stream = _; conn = _; at = refl; over = refl }, true, refl), tt)

worker_loop-Drained_example :
    (sv' : Server) × (worker_loop users_file (replicate 2 (false, false) ++ []) after_request
      ≡ ok (asleep, sv'))
    × Drained (100 ∷ []) after_request sv'
worker_loop-Drained_example =
    worker_loop-Drained users_file (100 ∷ []) [] after_request
      (Steps-IsServer (on after_hello-Steps (received 1 (asks_login ∷ []) asks))) waiting ready
