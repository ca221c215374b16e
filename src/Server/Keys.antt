-- ===== src/Server/Keys.antt =====
-- `sqmp_process_key_req` of src/shared/sqmp.c: how a user gets the public key of another.
use squimpchat.Base.{
  ℕ, ◌≤◌, ◌<◌, ◌^◌, ◌≡◌, refl, ap, ◌∙◌, Option, none, some, List, [], ◌∷◌, ◌++◌, arith,
  if◌then◌else◌, codes, length, take, drop, zeros, length-append, take-append_le, Run, ok,
  memcpy_lem,
}
use squimpchat.Session.{Session, conn_established, is_established}
use squimpchat.Registry.{Registry, registry_get_pubkey}
use squimpchat.Registry.Lookup.{IsRegistry, view, key_at, find-view}
use squimpchat.Net.{answer, asked}
use squimpchat.Net.Send.{IsOpen, IsOpen-asked}
use squimpchat.Wire.{uint_at, type_key_req, error_user_not_found, session_id_at}
use squimpchat.Wire.Packets.{key_req_packet, key_resp_packet, error_packet}
use squimpchat.Wire.Reads.{byte_at-packet, drop-packet, session_id-packet, packet-append}
use squimpchat.Server.{Server, session_at}
use squimpchat.Server.Shape.{after, send-after, send_error-after, padded}
use squimpchat.Server.Handlers.{process_key_req, reply_key, send_key}

-- What a KEY_REQ for the name comes to, by the key that the directory has.
abbrev pub KeyReply : ℕ → Session → ℕ → ℕ → List ℕ → Option (List ℕ) → Server → Run Server
KeyReply stream s id n name none sv = ok (
    after stream (error_packet s.session_id error_user_not_found (some (codes "user not found")))
      sv)
KeyReply stream s id n name (some key) sv =
    let sv1 = record sv { net = asked sv.net } in
    if answer sv.net
    then ok (after stream (key_resp_packet id n (padded n name) key) sv1)
    else ok sv1

module _ (id : ℕ) (n : ℕ) (name more : List ℕ) (fits : n ≤ 32) (size : length name ≡ 32) where
  -- The buffer with the packet.
  abbrev request : List ℕ
  request = key_req_packet id n name ++ more

  name_len : uint_at 12 1 request ≡ ok n
  unfolding key_req_packet
  name_len =
      rw (packet-append type_key_req id ((n ∷ []) ∷ name ∷ []) more)
        (byte_at-packet type_key_req id [] n (name ∷ more ∷ []) {off = 12} refl)

  behind : drop 13 request ≡ name ++ (more ++ [])
  unfolding key_req_packet
  behind =
      rw (packet-append type_key_req id ((n ∷ []) ∷ name ∷ []) more)
        (drop-packet type_key_req id ((n ∷ []) ∷ []) (name ∷ more ∷ []) 13 refl)

  the_id : id < 2 ^ 32 → session_id_at request ≡ ok id
  unfolding key_req_packet
  the_id h =
      rw (packet-append type_key_req id ((n ∷ []) ∷ name ∷ []) more)
        (session_id-packet type_key_req id ((n ∷ []) ∷ name ∷ more ∷ []) h)

  found_key :
      {r : Registry}
      → IsRegistry r
      → registry_get_pubkey (drop 13 request) n r ≡ ok (key_at (view r (take n name)))
  found_key {r} w = rw behind (
      (find-view {uname = name ++ (more ++ [])} w
        (record { short = fits; inside = omega (arith, length-append name (more ++ [])) })).1
      ∙ ap (λ k. ok (key_at (view r k))) (take-append_le n name (more ++ []) (omega arith)))

  reply_key_lem :
      (stream : ℕ) {p : ℕ} {s : Session} (key : Option (List ℕ)) (sv : Server)
      → sv.sessions p ≡ some s
      → IsOpen stream sv.net
      → id < 2 ^ 32
      → reply_key stream (some p) request n key sv ≡ KeyReply stream s id n name key sv
  unfolding reply_key send_key
  reply_key_lem stream none sv at o h =
      send_error-after error_user_not_found (some (codes "user not found")) sv at o
  reply_key_lem stream (some key) sv at o h = rw (
    the_id h,
    behind,
    memcpy_lem (zeros 32) (name ++ (more ++ [])) n (omega arith)
        (omega (arith, length-append name (more ++ []))),
    take-append_le n name (more ++ []) (omega arith),
    send-after (key_resp_packet id n (padded n name) key) (record sv { net = asked sv.net })
        (IsOpen-asked o),
  )

  -- A KEY_REQ from a session that is logged in, for a name of at most 32 bytes, on a well-formed
  -- registry (whatever is behind it in the buffer). If the name is in the directory (and memory is
  -- found), a KEY_RESP with the name and the directory's key is sent; if it is not, an ERROR with
  -- code 1. Both go to the stream that asked, and only the network changes.
  pub process_key_req-KeyReply :
      (stream : ℕ) {p : ℕ} {s : Session} (sv : Server)
      → sv.sessions p ≡ some s
      → s.state ≡ conn_established
      → IsRegistry sv.registry
      → IsOpen stream sv.net
      → id < 2 ^ 32
      → process_key_req stream (some p) request sv
        ≡ KeyReply stream s id n name (key_at (view sv.registry (take n name))) sv
  unfolding process_key_req session_at
  process_key_req-KeyReply stream sv at st w o h =
      rw (at, ap is_established st, name_len, found_key w)
        (reply_key_lem stream (key_at (view sv.registry (take n name))) sv at o h)
