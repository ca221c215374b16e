-- ===== src/Client/Tests/Flows.antt =====
-- Runs through the tool, the clients and the server: a login, and a message from Ada to Bob.
use squimpchat.Base.{
  ℕ, ◌≡◌, ◌<◌, none, refl, true, false, some, List, [], ◌∷◌, ◌++◌, codes, replicate, ok, Succeeds,
  arith, bytes_eq, zeros,
}
use squimpchat.Session.{auth, conn_established}
use squimpchat.Net.{Net, asked}
use squimpchat.Wire.{type_chat_send, type_chat_deliver}
use squimpchat.Wire.Packets.{chat_packet, key_resp_packet}
use squimpchat.Server.Shape.{name_of}
use squimpchat.Server.Chat.{Sending, delivered}
use squimpchat.Server.Users.{c_string}
use squimpchat.Server.Handlers.{process_chat_send}
use squimpchat.Server.Tests.{
  net, willing, server, user, at_login, ada-IsOpen, bob-IsOpen, eve-IsOpen, ada_sends,
}
use squimpchat.AddUser.{add_user}
use squimpchat.AddUser.Tests.{secret, secret-IsHash, some_file, eve-IsUsername, eve_new}
use squimpchat.Client.{Client, process_auth_resp, process_chat_deliver, chat}
use squimpchat.Client.SignIn.{Typing}
use squimpchat.Client.Admitted.{Waiting, Admitted}
use squimpchat.Client.Joined.{Joined, welcome, added-Joined}
use squimpchat.Client.Replies.{informed}
use squimpchat.Registry.{registry_max}
use squimpchat.Registry.Names.{has_name}
use squimpchat.Registry.Lookup.{view, lookup}
use squimpchat.Registry.Slots.{used}
use squimpchat.Registry.Tests.{two_users-IsRegistry}
use squimpchat.Client.Commands.{again, message_turn}
use squimpchat.Client.Sent.{Composing, message_to, message_turn-chat}
use squimpchat.Client.Stale.{Late, Stale, message_turn-Stale}
use squimpchat.Net.Send.{after_send}
use squimpchat.Client.Tests.{openssl, openssl-IsOpenSsl, client, sealed, made}

-- Eve's client when it asks for the name.
abbrev eves : Client
eves = record (client auth) { net = net willing }

eve_types : Typing openssl 0 3 (codes "eve") secret (replicate 32 3) eves
eve_types = record {
  plain_name = refl;
  plain_password = refl;
  some_name = omega arith;
  fits = omega arith;
  made = refl;
  own_name_size = refl;
  hash_size = refl;
  key_size = refl;
  live = eve-IsOpen willing;
  taken = refl;
}

eve_waits : Waiting 300 at_login [] (server at_login willing)
eve_waits = record {
  at = refl;
  in_auth = refl;
  shape = record {
    name_size = refl;
    name_fits = omega arith;
    auth_name_size = refl;
    auth_name_fits = omega arith;
    hash_size = refl;
    key_size = refl;
  };
  queue = record { chain = refl; last = refl; distinct = tt; posted = refl };
  absent = refl;
}

eve_is_free : view (server at_login willing).registry (codes "eve") ≡ none
unfolding view lookup has_name bytes_eq
eve_is_free = refl

there_is_room : used (server at_login willing).registry < registry_max
unfolding used
there_is_room = omega arith

added-Joined_example :
    (file' : List ℕ) × (add_user openssl.sha256 (codes "eve") secret some_file true ≡ some file')
    × (adm : Admitted openssl 0 3 3 300
        (codes "eve")
        secret
        (replicate 32 3)
        file'
        (0 ∷ [])
        at_login
        []
        eves
        (server at_login willing))
    × Joined
        (some file')
        300
        3
        at_login
        (codes "eve")
        (openssl.public_of (replicate 32 3))
        adm.queued.sv'
    × (process_auth_resp (welcome at_login ++ 0 ∷ []) eves
        ≡ ok (record eves { session = informed true eves.session }))
added-Joined_example =
    added-Joined 0 3 3 some_file (0 ∷ []) (0 ∷ []) eves eve_types eve-IsUsername secret-IsHash refl
      eve_new eve_waits refl two_users-IsRegistry eve_is_free there_is_room (eve-IsOpen willing)
      refl refl

-- Ada's client when Bob's key has come.
abbrev adas : Client
adas = record (client conn_established) {
  session = record (client conn_established).session {
    key_fetch_sem = 1;
    key_fetch_result = replicate 32 9;
  };
  net = net willing;
}

ada_composes : Composing openssl 0 1 (codes "bob") (codes "hi") sealed adas
unfolding bytes_eq
ada_composes = record {
  key_came = refl;
  key_size = refl;
  some_key = refl;
  fits = omega arith;
  made = made;
  sizes = record { key_size = refl; nonce_size = refl; tagged = omega arith; small = omega arith };
  small = omega arith;
  live = ada-IsOpen willing;
  room = refl;
  more_room = refl;
  taken = refl;
}

-- The same message at the server.
ada_is_served :
    Sending 100
      (user (codes "ada") 1)
      1
      (message_to (codes "bob") sealed)
      2
      (server at_login willing)
ada_is_served =
    let w = ada_sends (net willing) in
    record {
      at = w.at;
      logged_in = w.logged_in;
      shape = w.shape;
      registry = w.registry;
      id_word = w.id_word;
      chat = record {
        name_byte = omega arith;
        name_size = refl;
        key_word = omega arith;
        key_size = refl;
        nonce_size = refl;
        text_word = omega arith;
        text_size = refl;
      };
      short = omega arith;
      small = omega arith;
      key = w.key;
      found = w.found;
    }

-- The packet that the server sends to Bob.
abbrev to_bob : List ℕ
to_bob =
    chat_packet type_chat_deliver 1
      (delivered (user (codes "ada") 1) (message_to (codes "bob") sealed))

message_turn-chat_example :
    Succeeds
      (λ t.
        (t.0 ≡ again)
        × (t.1.net.sent ≡ (1, chat_packet type_chat_send 1 (message_to (codes "bob") sealed)) ∷ []))
      (message_turn openssl 0 1 false (codes "bob") (codes "hi") adas)
    × (n : Net) × (process_chat_send 1
          (some 100)
          (chat_packet type_chat_send 1 (message_to (codes "bob") sealed) ++ 0 ∷ [])
          (server at_login willing)
        ≡ ok (record (server at_login willing) { net = n }))
    × (n.sent ≡ (2, to_bob) ∷ [])
    × (process_chat_deliver openssl (to_bob ++ 0 ∷ []) (client conn_established)
        ≡ ok (record (client conn_established) {
          net = asked (client conn_established).net;
          lines = chat (c_string (name_of (user (codes "ada") 1))) (c_string (codes "hi")) ∷ [];
        }))
message_turn-chat_example =
    message_turn-chat 0 1 ada_composes false (0 ∷ []) (0 ∷ []) 1 (client conn_established)
      openssl-IsOpenSsl refl refl ada_is_served (bob-IsOpen willing) refl refl refl refl

-- Ada's client while it waits for Eve's key.
abbrev adas_wait : Client
adas_wait = record adas { session = record adas.session { key_fetch_sem = 0 } }

abbrev eves_key : List ℕ
eves_key = key_resp_packet 1 3 (codes "eve" ++ zeros 29) (replicate 32 9) ++ 0 ∷ []

ada_gives_up : Late openssl 0 1 (codes "bob") (codes "hi") (replicate 32 9) sealed adas_wait
unfolding bytes_eq after_send
ada_gives_up = record {
  nothing_came = refl;
  result_size = refl;
  key_size = refl;
  some_key = refl;
  fits = omega arith;
  made = made;
  sizes = record { key_size = refl; nonce_size = refl; tagged = omega arith; small = omega arith };
  small = omega arith;
  live = ada-IsOpen willing;
  room = refl;
  more_room = refl;
  taken = refl;
}

message_turn-Stale_example :
    Stale openssl 0 1
      (codes "eve")
      (codes "psst")
      eves_key
      (codes "bob")
      (codes "hi")
      false
      sealed
      adas_wait
message_turn-Stale_example =
    message_turn-Stale 0 1 1 3 (codes "eve") (codes "psst") (codes "eve" ++ zeros 29) (0 ∷ []) false
      ada_gives_up refl
