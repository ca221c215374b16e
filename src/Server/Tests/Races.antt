-- ===== src/Server/Tests/Races.antt =====
-- Runs of the main loop between the server's callbacks (src/server/server.c).
use squimpchat.Base.{
  ap, List, Run, [], arith, bytes_eq, codes, false, fault, memcmp_eq, memcpy, none, ok, refl,
  replicate, some, true, zeros, ℕ, ◌++◌, ◌∷◌, ◌≡◌,
}
use squimpchat.Session.{modify, write}
use squimpchat.Queue.{auth_queue_enqueue, auth_queue_dequeue}
use squimpchat.Queue.Chains.{IsQueue, has, unlinked}
use squimpchat.Registry.Names.{has_name}
use squimpchat.Registry.Lookup.{view, lookup}
use squimpchat.Registry.Slots.{used}
use squimpchat.Registry.{Scan, free, add_scan, registry_add, store, fill, same_name}
use squimpchat.Net.{conn_set_user_data, stream_get_user_data, stream_send}
use squimpchat.Net.Send.{IsOpen}
use squimpchat.Wire.{msg_type_at, uint_at, bytes_at}
use squimpchat.Wire.Packets.{hello_packet, auth_req_packet}
use squimpchat.Server.{Server, session_at, modify_session, send}
use squimpchat.Server.Users.{verify_credentials, fgets_lines, split_colon, c_string, strip_eol}
use squimpchat.Server.Handlers.{process_hello, process_auth_req, enqueue}
use squimpchat.Server.Callbacks.{on_connected, stream_cb_receive}
use squimpchat.Server.Steps.{Steps, on, connected, received, Steps-IsServer}
use squimpchat.Server.Worker.{ends, worker_loop}
use squimpchat.Server.Turns.{
  Place, waiting, taken, cleared, alive, named, checked, scanned, added, next_pending, clear_queued,
  test_closed, copy_name, check_hash_of, register, write_entry, worker_step,
}
use squimpchat.Server.Moves.{Moves, works, called, Holds}
use squimpchat.Server.Moves as M
use squimpchat.Server.Login.{asked_name}
use squimpchat.Server.Interleaved.{Moves-Holds}
use squimpchat.Server.Impostor.{Impostor, process_auth_req-Impostor}
use squimpchat.Server.Requeued.{some_injective, process_auth_req-ends}
use squimpchat.Server.Tests.Logins.{
  users_file, left_by, after_hello, after_hello-Steps, asks_login, after_request, asks,
}
use squimpchat.Server.Tests.Logins as Logins

after_request-Steps : Steps Logins.began after_request
after_request-Steps = on after_hello-Steps (received 1 (asks_login ∷ []) asks)

-- Eve's client asks for Ada's name, with a hash of zeros.
abbrev asks_ada : List ℕ
asks_ada = auth_req_packet 1 3 (codes "ada" ++ zeros 29) (zeros 32) (replicate 32 6) ++ []

stream_open : IsOpen 1 after_request.net
unfolding on_connected conn_set_user_data stream_cb_receive stream_get_user_data msg_type_at uint_at
    bytes_at hello_packet auth_req_packet process_hello process_auth_req enqueue auth_queue_enqueue
    session_at modify_session modify write send stream_send memcpy
stream_open = record { stream = _; conn = _; at = refl; over = refl }

process_auth_req-Impostor_example :
    Impostor users_file 1 100 asks_ada (codes "ada") (replicate 32 6) after_request
unfolding on_connected conn_set_user_data stream_cb_receive stream_get_user_data msg_type_at uint_at
    bytes_at hello_packet auth_req_packet process_hello process_auth_req enqueue auth_queue_enqueue
    session_at modify_session modify write send stream_send memcpy verify_credentials fgets_lines
    split_colon c_string bytes_eq strip_eol memcmp_eq used view lookup has_name
process_auth_req-Impostor_example =
    process_auth_req-Impostor users_file 1 1 {n = 3} {name = codes "ada" ++ zeros 29}
      {hash = zeros 32} [] after_request (Steps-IsServer after_request-Steps) Logins.waiting refl
      refl refl refl
      (record { fits = omega arith; name_size = refl; hash_size = refl; key_size = refl }) refl
      (omega arith) stream_open

-- A second client connects, says HELLO and asks to log in as Bob, with Eve's hash.
abbrev joined : Server
joined = left_by after_request (on_connected 20 (some 200) after_request)

abbrev greeted : Server
greeted = left_by joined (stream_cb_receive 2 (hello_packet ∷ []) joined)

abbrev asks_bob : List ℕ
asks_bob = auth_req_packet 2 3 (codes "bob" ++ zeros 29) (replicate 32 7) (replicate 32 5)

abbrev two_wait : Server
two_wait = left_by greeted (stream_cb_receive 2 (asks_bob ∷ []) greeted)

joins : on_connected 20 (some 200) after_request ≡ ok joined
unfolding on_connected conn_set_user_data stream_cb_receive stream_get_user_data msg_type_at uint_at
    bytes_at hello_packet auth_req_packet process_hello process_auth_req enqueue auth_queue_enqueue
    session_at modify_session modify write send stream_send memcpy
joins = refl

greets : stream_cb_receive 2 (hello_packet ∷ []) joined ≡ ok greeted
unfolding on_connected conn_set_user_data stream_cb_receive stream_get_user_data msg_type_at uint_at
    bytes_at hello_packet auth_req_packet process_hello process_auth_req enqueue auth_queue_enqueue
    session_at modify_session modify write send stream_send memcpy
greets = refl

requests : stream_cb_receive 2 (asks_bob ∷ []) greeted ≡ ok two_wait
unfolding on_connected conn_set_user_data stream_cb_receive stream_get_user_data msg_type_at uint_at
    bytes_at hello_packet auth_req_packet process_hello process_auth_req enqueue auth_queue_enqueue
    session_at modify_session modify write send stream_send memcpy
requests = refl

unused : after_request.sessions 200 ≡ none
unfolding on_connected conn_set_user_data stream_cb_receive stream_get_user_data msg_type_at uint_at
    bytes_at hello_packet auth_req_packet process_hello process_auth_req enqueue auth_queue_enqueue
    session_at modify_session modify write send stream_send memcpy
unused = refl

two_wait-Steps : Steps Logins.began two_wait
two_wait-Steps =
    on
      (on (on after_request-Steps (connected 20 (some 200) unused joins))
        (received 2 (hello_packet ∷ []) greets))
      (received 2 (asks_bob ∷ []) requests)

two_wait-IsQueue : IsQueue two_wait.queue two_wait.sessions (100 ∷ 200 ∷ [])
unfolding on_connected conn_set_user_data stream_cb_receive stream_get_user_data msg_type_at uint_at
    bytes_at hello_packet auth_req_packet process_hello process_auth_req enqueue auth_queue_enqueue
    session_at modify_session modify write send stream_send memcpy
two_wait-IsQueue = record {
  chain = (_, refl, refl, (_, refl, refl, refl));
  last = refl;
  distinct = (refl, (refl, tt));
  posted = refl;
}

still_open : IsOpen 1 two_wait.net
unfolding on_connected conn_set_user_data stream_cb_receive stream_get_user_data msg_type_at uint_at
    bytes_at hello_packet auth_req_packet process_hello process_auth_req enqueue auth_queue_enqueue
    session_at modify_session modify write send stream_send memcpy
still_open = record { stream = _; conn = _; at = refl; over = refl }

process_auth_req-ends_example :
    (sv1 : Server) × (process_auth_req 1 (some 100) asks_ada two_wait ≡ ok sv1)
    × (sv2 : Server) × (worker_loop users_file ((false, false) ∷ (false, false) ∷ []) sv1
        ≡ ok (ends, sv2))
    × ((a : ℕ)
        → has a (200 ∷ []) ≡ true
        → unlinked (sv2.sessions a) ≡ unlinked (two_wait.sessions a))
unfolding on_connected conn_set_user_data stream_cb_receive stream_get_user_data msg_type_at uint_at
    bytes_at hello_packet auth_req_packet process_hello process_auth_req enqueue auth_queue_enqueue
    session_at modify_session modify write send stream_send memcpy verify_credentials fgets_lines
    split_colon c_string bytes_eq strip_eol memcmp_eq
process_auth_req-ends_example =
    process_auth_req-ends users_file 1 1 {n = 3} {name = codes "ada" ++ zeros 29} {hash = zeros 32}
      {key = replicate 32 6} [] [] false two_wait (Steps-IsServer two_wait-Steps) two_wait-IsQueue
      refl refl refl
      (record { fits = omega arith; name_size = refl; hash_size = refl; key_size = refl }) refl
      still_open

-- The main thread takes Eve's session, whose credentials are right, and adds her to the registry.
-- Before it writes to her session, a second client connects.
abbrev placed : Server → Run (Place × Server) → Server
placed sv (ok (place, sv')) = sv'
placed sv fault = sv

abbrev name_copied : List ℕ
name_copied = codes "eve" ++ zeros 30

abbrev taken_then : Server
taken_then = placed after_request (worker_step users_file false false waiting after_request)

takes : worker_step users_file false false waiting after_request ≡ ok (taken 100, taken_then)
unfolding on_connected conn_set_user_data stream_cb_receive stream_get_user_data msg_type_at uint_at
    bytes_at hello_packet auth_req_packet process_hello process_auth_req enqueue auth_queue_enqueue
    session_at modify_session modify write send stream_send memcpy worker_step next_pending
    clear_queued auth_queue_dequeue test_closed copy_name check_hash_of register write_entry
    verify_credentials fgets_lines split_colon c_string bytes_eq strip_eol memcmp_eq has_name used
    registry_add add_scan store fill same_name
takes = refl

abbrev cleared_then : Server
cleared_then = placed taken_then (worker_step users_file false false (taken 100) taken_then)

clears : worker_step users_file false false (taken 100) taken_then ≡ ok (cleared 100, cleared_then)
unfolding on_connected conn_set_user_data stream_cb_receive stream_get_user_data msg_type_at uint_at
    bytes_at hello_packet auth_req_packet process_hello process_auth_req enqueue auth_queue_enqueue
    session_at modify_session modify write send stream_send memcpy worker_step next_pending
    clear_queued auth_queue_dequeue test_closed copy_name check_hash_of register write_entry
    verify_credentials fgets_lines split_colon c_string bytes_eq strip_eol memcmp_eq has_name used
    registry_add add_scan store fill same_name
clears = refl

lives : worker_step users_file false false (cleared 100) cleared_then ≡ ok (alive 100, cleared_then)
unfolding on_connected conn_set_user_data stream_cb_receive stream_get_user_data msg_type_at uint_at
    bytes_at hello_packet auth_req_packet process_hello process_auth_req enqueue auth_queue_enqueue
    session_at modify_session modify write send stream_send memcpy worker_step next_pending
    clear_queued auth_queue_dequeue test_closed copy_name check_hash_of register write_entry
    verify_credentials fgets_lines split_colon c_string bytes_eq strip_eol memcmp_eq has_name used
    registry_add add_scan store fill same_name
lives = refl

names :
    worker_step users_file false false (alive 100) cleared_then
    ≡ ok (named 100 name_copied, cleared_then)
unfolding on_connected conn_set_user_data stream_cb_receive stream_get_user_data msg_type_at uint_at
    bytes_at hello_packet auth_req_packet process_hello process_auth_req enqueue auth_queue_enqueue
    session_at modify_session modify write send stream_send memcpy worker_step next_pending
    clear_queued auth_queue_dequeue test_closed copy_name check_hash_of register write_entry
    verify_credentials fgets_lines split_colon c_string bytes_eq strip_eol memcmp_eq has_name used
    registry_add add_scan store fill same_name
names = refl

checks :
    worker_step users_file false false (named 100 name_copied) cleared_then
    ≡ ok (checked 100 true, cleared_then)
unfolding on_connected conn_set_user_data stream_cb_receive stream_get_user_data msg_type_at uint_at
    bytes_at hello_packet auth_req_packet process_hello process_auth_req enqueue auth_queue_enqueue
    session_at modify_session modify write send stream_send memcpy worker_step next_pending
    clear_queued auth_queue_dequeue test_closed copy_name check_hash_of register write_entry
    verify_credentials fgets_lines split_colon c_string bytes_eq strip_eol memcmp_eq has_name used
    registry_add add_scan store fill same_name
checks = refl

abbrev slot : Scan
slot = free (some 0)

scans :
    worker_step users_file false false (checked 100 true) cleared_then
    ≡ ok (scanned 100 3 (some 1) slot, cleared_then)
unfolding on_connected conn_set_user_data stream_cb_receive stream_get_user_data msg_type_at uint_at
    bytes_at hello_packet auth_req_packet process_hello process_auth_req enqueue auth_queue_enqueue
    session_at modify_session modify write send stream_send memcpy worker_step next_pending
    clear_queued auth_queue_dequeue test_closed copy_name check_hash_of register write_entry
    verify_credentials fgets_lines split_colon c_string bytes_eq strip_eol memcmp_eq has_name used
    registry_add add_scan store fill same_name
scans = refl

abbrev added_then : Server
added_then =
    placed cleared_then
      (worker_step users_file false false (scanned 100 3 (some 1) slot) cleared_then)

adds :
    worker_step users_file false false (scanned 100 3 (some 1) slot) cleared_then
    ≡ ok (added 100, added_then)
unfolding on_connected conn_set_user_data stream_cb_receive stream_get_user_data msg_type_at uint_at
    bytes_at hello_packet auth_req_packet process_hello process_auth_req enqueue auth_queue_enqueue
    session_at modify_session modify write send stream_send memcpy worker_step next_pending
    clear_queued auth_queue_dequeue test_closed copy_name check_hash_of register write_entry
    verify_credentials fgets_lines split_colon c_string bytes_eq strip_eol memcmp_eq has_name used
    registry_add add_scan store fill same_name
adds = refl

abbrev joined_then : Server
joined_then = left_by added_then (on_connected 20 (some 200) added_then)

joins_then : on_connected 20 (some 200) added_then ≡ ok joined_then
unfolding on_connected conn_set_user_data stream_cb_receive stream_get_user_data msg_type_at uint_at
    bytes_at hello_packet auth_req_packet process_hello process_auth_req enqueue auth_queue_enqueue
    session_at modify_session modify write send stream_send memcpy worker_step next_pending
    clear_queued auth_queue_dequeue test_closed copy_name check_hash_of register write_entry
    verify_credentials fgets_lines split_colon c_string bytes_eq strip_eol memcmp_eq has_name used
    registry_add add_scan store fill same_name
joins_then = refl

unused_then : added_then.sessions 200 ≡ none
unfolding on_connected conn_set_user_data stream_cb_receive stream_get_user_data msg_type_at uint_at
    bytes_at hello_packet auth_req_packet process_hello process_auth_req enqueue auth_queue_enqueue
    session_at modify_session modify write send stream_send memcpy worker_step next_pending
    clear_queued auth_queue_dequeue test_closed copy_name check_hash_of register write_entry
    verify_credentials fgets_lines split_colon c_string bytes_eq strip_eol memcmp_eq has_name used
    registry_add add_scan store fill same_name
unused_then = refl

undisturbed : M.Undisturbed (added 100) added_then joined_then
unfolding on_connected conn_set_user_data stream_cb_receive stream_get_user_data msg_type_at uint_at
    bytes_at hello_packet auth_req_packet process_hello process_auth_req enqueue auth_queue_enqueue
    session_at modify_session modify write send stream_send memcpy worker_step next_pending
    clear_queued auth_queue_dequeue test_closed copy_name check_hash_of register write_entry
    verify_credentials fgets_lines split_colon c_string bytes_eq strip_eol memcmp_eq has_name used
    registry_add add_scan store fill same_name
undisturbed s at = (_, refl, ap asked_name (some_injective at))

after_request-Moves : Moves Logins.began waiting after_request
after_request-Moves =
    M.on
      (M.on (M.on M.here (called (connected 10 (some 100) refl Logins.connects) tt tt))
        (called (received 1 (hello_packet ∷ []) Logins.says_hello) tt tt))
      (called (received 1 (asks_login ∷ []) asks) tt tt)

added-Moves : Moves Logins.began (added 100) added_then
added-Moves =
    M.on
      (M.on
        (M.on
          (M.on
            (M.on
              (M.on (M.on after_request-Moves (works users_file false false takes))
                (works users_file false false clears))
              (works users_file false false lives))
            (works users_file false false names))
          (works users_file false false checks))
        (works users_file false false scans))
      (works users_file false false adds)

Moves-Holds_example : Holds (added 100) joined_then
Moves-Holds_example =
    Moves-Holds
      (M.on added-Moves (called (connected 20 (some 200) unused_then joins_then) tt undisturbed))
