-- ===== src/Server/Handlers.antt =====
-- The server's handlers of received packets: those of src/shared/sqmp.c, and `sqmp_process_bye` of
-- src/server/server.c. `pkt` is the buffer that holds the received packet, to its last byte.
use squimpchat.Base.{
  ℕ, zero, suc, ◌+◌, ◌%◌, ◌^◌, Bool, true, false, Option, none, some, List, ltb, ◌==◌,
  if◌then◌else◌, negate, codes, drop, zeros, Run, ok, ◌>>=◌, deref, memcpy,
}
use squimpchat.Session.{Session, auth, closing, is_hello, is_auth, is_established}
use squimpchat.Queue.{auth_queue_enqueue}
use squimpchat.Registry.{registry_find, registry_get_pubkey, registry_remove}
use squimpchat.Net.{answer, asked}
use squimpchat.Wire.{
  bytes_at, uint_at, session_id_at, type_chat_deliver, error_user_not_found, error_could_not_send,
  error_version_mismatch, error_unexpected_msg,
}
use squimpchat.Wire.Packets.{hello_ack_packet, key_resp_packet, Chat, chat_packet}
use squimpchat.Server.{Server, session_at, modify_session, send, send_bye, send_error}

-- The search for version 1 among the versions of a HELLO; `k` rounds of the eight are left.
unfoldable pub has_v1 : ℕ → ℕ → ℕ → List ℕ → Run Bool
has_v1 zero i num_versions pkt = ok false
has_v1 (suc k) i num_versions pkt =
    let rest = has_v1 k (suc i) num_versions pkt in
    if ltb i num_versions
    then (do v ← uint_at (13 + i) 1 pkt; if v == 1 then ok true else rest)
    else ok false

-- The rest of `sqmp_process_hello` once version 1 is found.
unfoldable pub accept_hello : ℕ → Option ℕ → Server → Run Server
accept_hello stream sp sv = do
  let id = sv.next_session_id
  let sv1 = record sv { next_session_id = (id + 1) % 2 ^ 32 }
  sv2 ← modify_session sp (λ s. record s { session_id = id }) sv1
  (_, sv3) ← send stream (hello_ack_packet id) sv2
  modify_session sp (λ s. record s { state = auth }) sv3

-- `sqmp_process_hello`
unfoldable pub process_hello : ℕ → Option ℕ → List ℕ → Server → Run Server
unfolding has_v1 accept_hello
process_hello stream sp pkt sv = do
  s ← session_at sp sv
  if negate (is_hello s.state)
      then send_error stream sp error_unexpected_msg (some (codes "unexpected HELLO")) sv
      else (do
        num_versions ← uint_at 12 1 pkt
        found ← has_v1 8 0 num_versions pkt
        if negate found
            then (do
              sv1 ←
                  send_error stream sp error_version_mismatch
                    (some (codes "no supported protocol version")) sv
              send_bye stream sp sv1)
            else accept_hello stream sp sv)

-- The writes of `sqmp_process_auth_req` to the session.
unfoldable pub take_credentials : ℕ → List ℕ → Session → Run Session
take_credentials stream pkt s = do
  ulen ← uint_at 12 1 pkt
  name ← memcpy s.auth_username (drop 13 pkt) ulen
  hash ← memcpy s.auth_password_hash (drop 45 pkt) 32
  klen ← uint_at 77 2 pkt
  key ← if klen == 32 then memcpy s.auth_pubkey (drop 79 pkt) 32 else ok s.auth_pubkey
  ok (record s {
    auth_username_len = ulen;
    auth_username = name;
    auth_password_hash = hash;
    auth_pubkey = key;
    auth_stream = some stream;
    auth_queued = true;
  })

-- `auth_queue_enqueue` on the server's queue.
unfoldable pub enqueue : Option ℕ → Server → Run Server
enqueue sp sv = do
  p ← deref sp
  (q, h) ← auth_queue_enqueue p sv.queue sv.sessions
  ok (record sv { queue = q; sessions = h })

-- `sqmp_process_auth_req`
unfoldable pub process_auth_req : ℕ → Option ℕ → List ℕ → Server → Run Server
unfolding take_credentials enqueue
process_auth_req stream sp pkt sv = do
  s ← session_at sp sv
  if negate (is_auth s.state)
      then send_error stream sp error_unexpected_msg (some (codes "unexpected AUTH_REQ")) sv
      else (do
        s' ← take_credentials stream pkt s
        sv1 ← modify_session sp (λ _. s') sv
        enqueue sp sv1)

-- The weak `sqmp_process_error`, which is the server's
abbrev pub process_error : ℕ → Option ℕ → List ℕ → Server → Run Server
process_error stream sp pkt sv = ok sv

-- The server's `sqmp_process_bye`
unfoldable pub process_bye : Option ℕ → Server → Run Server
process_bye sp sv = do
  s ← session_at sp sv
  if is_established s.state
      then (do
        r ← registry_remove s.username s.username_len sv.registry
        modify_session sp (λ t. record t { state = closing }) (record sv { registry = r }))
      else ok sv

-- The rest of `sqmp_process_key_req` once the key is found.
unfoldable pub send_key : ℕ → List ℕ → ℕ → List ℕ → Server → Run Server
send_key stream pkt ulen key sv =
    let sv1 = record sv { net = asked sv.net } in
    if answer sv.net
    then (do
      id ← session_id_at pkt
      name ← memcpy (zeros 32) (drop 13 pkt) ulen
      (_, sv2) ← send stream (key_resp_packet id ulen name key) sv1
      ok sv2)
    else ok sv1

unfoldable pub reply_key : ℕ → Option ℕ → List ℕ → ℕ → Option (List ℕ) → Server → Run Server
unfolding send_key
reply_key stream sp pkt ulen none sv =
    send_error stream sp error_user_not_found (some (codes "user not found")) sv
reply_key stream sp pkt ulen (some key) sv = send_key stream pkt ulen key sv

-- `sqmp_process_key_req`
unfoldable pub process_key_req : ℕ → Option ℕ → List ℕ → Server → Run Server
unfolding reply_key
process_key_req stream sp pkt sv = do
  s ← session_at sp sv
  if negate (is_established s.state)
      then send_error stream sp error_unexpected_msg (some (codes "unexpected KEY_REQ")) sv
      else (do
        ulen ← uint_at 12 1 pkt
        key ← registry_get_pubkey (drop 13 pkt) ulen sv.registry
        reply_key stream sp pkt ulen key sv)

-- The message that is forwarded: all but the name comes from the packet.
unfoldable pub deliver_chat : Session → List ℕ → ℕ → Run Chat
deliver_chat s pkt ciphertext_len = do
  sender ← memcpy (zeros 32) s.username s.username_len
  enc_key_len ← uint_at 45 2 pkt
  encrypted_key ← bytes_at 47 256 pkt
  nonce ← bytes_at 303 12 pkt
  ciphertext ← bytes_at 319 ciphertext_len pkt
  ok (record {
    name_len = s.username_len;
    name = sender;
    enc_key_len = enc_key_len;
    encrypted_key = encrypted_key;
    nonce = nonce;
    ciphertext_len = ciphertext_len;
    ciphertext = ciphertext;
  })

-- The rest of `sqmp_process_chat_send` once the recipient is found.
unfoldable pub forward : ℕ → Option ℕ → Session → List ℕ → ℕ → Server → Run Server
unfolding deliver_chat
forward stream sp s pkt recipient sv = do
  ciphertext_len ← uint_at 315 4 pkt
  let sv1 = record sv { net = asked sv.net }
  if negate (answer sv.net) then ok sv1 else (do
    id ← session_id_at pkt
    c ← deliver_chat s pkt ciphertext_len
    (sent, sv2) ← send recipient (chat_packet type_chat_deliver id c) sv1
    if sent
        then ok sv2
        else send_error stream sp error_could_not_send (some (codes "could not deliver message"))
            sv2)

unfoldable pub route : ℕ → Option ℕ → Session → List ℕ → Option ℕ → Server → Run Server
unfolding forward
route stream sp s pkt none sv =
    send_error stream sp error_user_not_found (some (codes "recipient not online")) sv
route stream sp s pkt (some recipient) sv = forward stream sp s pkt recipient sv

-- `sqmp_process_chat_send`
unfoldable pub process_chat_send : ℕ → Option ℕ → List ℕ → Server → Run Server
unfolding route
process_chat_send stream sp pkt sv = do
  s ← session_at sp sv
  if negate (is_established s.state)
      then send_error stream sp error_unexpected_msg (some (codes "unexpected CHAT_SEND")) sv
      else (do
        rlen ← uint_at 12 1 pkt
        recipient ← registry_find (drop 13 pkt) rlen sv.registry
        route stream sp s pkt recipient sv)
