-- ===== src/Server/Tests/Packets.antt =====
-- Runs of the server's handlers (src/shared/sqmp.c) on packets.
use squimpchat.Base.{
  none, if◌then◌else◌, ℕ, ◌≡◌, refl, Bool, true, false, some, [], ◌∷◌, ◌++◌, arith, codes, ◌==◌,
  if◌then◌else◌, replicate, zeros, ok, fault, bytes_eq,
}
use squimpchat.Session.{Session, hello, zero_session}
use squimpchat.Registry.Lookup.{lookup, view}
use squimpchat.Registry.Names.{has_name}
use squimpchat.Registry.Tests.{two_users-IsRegistry, bob_key}
use squimpchat.Wire.{type_key_req, type_chat_send, error_unexpected_msg}
use squimpchat.Wire.Packets.{chat_packet, key_req_packet, error_packet}
use squimpchat.Server.Shape.{IsSession, after}
use squimpchat.Server.Handlers.{process_chat_send, process_key_req, process_auth_req}
use squimpchat.Server.Chat.{process_chat_send-dangling}
use squimpchat.Server.{Server}
use squimpchat.Server.Tests.{
  net, streams, willing, user, server, at_login, ada-IsOpen, eve-IsOpen, message, ada_sends,
}
use squimpchat.Server.AuthReq.{auth_req_overflow, auth_req_truncated}
use squimpchat.Server.Guards.{key_req_early, dispatch-Misplaced}
use squimpchat.Server.Keys.{KeyReply, process_key_req-KeyReply}
use squimpchat.Server.Callbacks.{dispatch}
use squimpchat.Wire.{uint_at, bytes_at}

-- MsQuic takes every packet but the first.
abbrev but_first : ℕ → Bool
but_first n = if n == 2 then false else true

abbrev new : Session
new = record zero_session { state = hello }

at_login-IsSession : IsSession at_login
at_login-IsSession = record {
  name_size = refl;
  name_fits = omega arith;
  auth_name_size = refl;
  auth_name_fits = omega arith;
  hash_size = refl;
  key_size = refl;
}

auth_req_overflow_example :
    process_auth_req 3 (some 300) (replicate 200 255) (server at_login willing) ≡ fault
unfolding uint_at bytes_at
auth_req_overflow_example =
    auth_req_overflow 3 300 255 (replicate 200 255) (server at_login willing) refl refl
      at_login-IsSession refl (omega arith)

auth_req_truncated_example :
    process_auth_req 3 (some 300) (replicate 13 3) (server at_login willing) ≡ fault
auth_req_truncated_example =
    auth_req_truncated 3 300 (replicate 13 3) (server at_login willing) refl refl (omega arith)

dispatch-Misplaced_example :
    dispatch type_key_req 3 (some 300) [] (server at_login willing)
    ≡ ok (
        after 3
          (error_packet 3 error_unexpected_msg (some (codes "unexpected KEY_REQ")))
          (server at_login willing))
dispatch-Misplaced_example =
    dispatch-Misplaced [] (server at_login willing) refl (eve-IsOpen willing)
      (key_req_early λ e. cc)

process_key_req-KeyReply_example :
    process_key_req 1
      (some 100)
      (key_req_packet 1 3 (codes "bob" ++ zeros 29) ++ 0 ∷ [])
      (server at_login willing)
    ≡ KeyReply 1
        (user (codes "ada") 1)
        1
        3
        (codes "bob" ++ zeros 29)
        (some bob_key)
        (server at_login willing)
unfolding view lookup has_name bytes_eq
process_key_req-KeyReply_example =
    process_key_req-KeyReply 1 3 (codes "bob" ++ zeros 29) (0 ∷ []) (omega arith) refl 1
      (server at_login willing) refl refl two_users-IsRegistry (ada-IsOpen willing) (omega arith)

-- The server after the memory of Bob's stream is freed.
abbrev without_bob : Server
without_bob = record (server at_login willing) {
  net = record (net willing) { streams = λ a. if a == 2 then none else streams a };
}

process_chat_send-dangling_example :
    process_chat_send 1 (some 100) (chat_packet type_chat_send 1 message ++ 0 ∷ []) without_bob
    ≡ fault
process_chat_send-dangling_example =
    process_chat_send-dangling (ada_sends without_bob.net) (0 ∷ []) 1 refl refl refl
