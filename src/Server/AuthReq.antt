-- ===== src/Server/AuthReq.antt =====
-- `sqmp_process_auth_req` of src/shared/sqmp.c, on packets of all lengths.
use mathlib.Core.List.{append-nil}
use squimpchat.Base.{
  ℕ, ◌≤◌, ◌<◌, ◌≡◌, refl, ap, ◌∙◌, true, false, some, List, [], ◌∷◌, ◌++◌, arith, ◌==◌, length,
  take, drop, drop_all, take-append_eq, take-append_le, length-append, Run, ok, fault, memcpy,
  memcpy_lem, memcpy_fault, >>=-fault,
}
use squimpchat.Session.{Session, auth, is_auth, write}
use squimpchat.Queue.Chains.{IsQueue, has, unlinked, IsQueue-write, write_self, write_ne}
use squimpchat.Queue.Fifo.{enqueue-append}
use squimpchat.Wire.{le_bytes, join, uint_at, type_auth_req}
use squimpchat.Wire.Packets.{auth_req_packet}
use squimpchat.Wire.Fields.{uint_at_fault}
use squimpchat.Wire.Reads.{byte_at-packet, uint_at-packet, drop-packet, packet-append}
use squimpchat.Server.{Server, session_at, modify_session}
use squimpchat.Server.Shape.{IsSession}
use squimpchat.Server.Handlers.{process_auth_req, take_credentials, enqueue}

-- The session with the credentials of a login.
abbrev pub credentials : ℕ → ℕ → List ℕ → List ℕ → List ℕ → Session → Session
credentials stream n name hash key s = record s {
  auth_username_len = n;
  auth_username = take n name ++ drop n s.auth_username;
  auth_password_hash = hash;
  auth_pubkey = key;
  auth_stream = some stream;
  auth_queued = true;
}

-- The arrays of an AUTH_REQ have their sizes, and the length of the name fits.
pub record IsAuthReq (n : ℕ) (name hash key : List ℕ) : Type 0 where
  pub fits : n ≤ 32
  pub name_size : length name ≡ 32
  pub hash_size : length hash ≡ 32
  pub key_size : length key ≡ 32

memcpy_whole :
    (dst src rest : List ℕ)
    → length dst ≡ 32
    → length src ≡ 32
    → memcpy dst (src ++ rest) 32 ≡ ok src
memcpy_whole dst src rest d s =
    memcpy_lem dst (src ++ rest) 32 (omega arith) (omega (arith, length-append src rest))
    ∙ ap ok (
        rw (take-append_eq 32 src rest (omega arith), drop_all 32 dst (omega arith), append-nil)
          refl)

pub take_credentials_lem :
    (stream id n : ℕ) {name hash key : List ℕ} (more : List ℕ) {s : Session}
    → IsAuthReq n name hash key
    → IsSession s
    → take_credentials stream (auth_req_packet id n name hash key ++ more) s
      ≡ ok (credentials stream n name hash key s)
unfolding take_credentials auth_req_packet
take_credentials_lem stream id n {name} {hash} {key} more {s} w v =
    rw (packet-append t id (n1 ∷ name ∷ hash ∷ le_bytes 2 32 ∷ key ∷ []) more) (
      rw
        (
          byte_at-packet t id [] n (name ∷ hash ∷ le_bytes 2 32 ∷ key ∷ more ∷ []) {off = 12} refl,
          drop-packet t id (n1 ∷ []) (name ∷ hash ∷ le_bytes 2 32 ∷ key ∷ more ∷ []) 13 refl,
          drop-packet t id (n1 ∷ name ∷ []) (hash ∷ le_bytes 2 32 ∷ key ∷ more ∷ []) 45
              (omega arith),
          uint_at-packet t id (n1 ∷ name ∷ hash ∷ []) (le_bytes 2 32) (key ∷ more ∷ []) {off = 77}
              {n = 2} (omega arith) refl,
          drop-packet t id (n1 ∷ name ∷ hash ∷ le_bytes 2 32 ∷ []) (key ∷ more ∷ []) 79
              (omega arith),
        )
        (rw (
          memcpy_lem s.auth_username (name ++ join (hash ∷ le_bytes 2 32 ∷ key ∷ more ∷ [])) n
              (omega (arith, w.fits))
              (omega (
                arith,
                w.fits,
                length-append name (join (hash ∷ le_bytes 2 32 ∷ key ∷ more ∷ [])),
              )),
          take-append_le n name (join (hash ∷ le_bytes 2 32 ∷ key ∷ more ∷ []))
              (omega (arith, w.fits)),
          memcpy_whole s.auth_password_hash hash (join (le_bytes 2 32 ∷ key ∷ more ∷ []))
              v.hash_size w.hash_size,
          memcpy_whole s.auth_pubkey key (more ++ []) v.key_size w.key_size,
        )))
  where
    t : ℕ
    t = type_auth_req

    n1 : List ℕ
    n1 = n ∷ []

-- What an AUTH_REQ comes to: the session has the credentials and is the last in the queue.
pub record Queued (p : ℕ) (s : Session) (xs : List ℕ) (sv : Server) (x : Run Server) : Type 0 where
  pub sv' : Server
  pub result : x ≡ ok sv'
  pub stored : unlinked (sv'.sessions p) ≡ unlinked (some s)
  pub others : (a : ℕ) → (a == p) ≡ false → unlinked (sv'.sessions a) ≡ unlinked (sv.sessions a)
  pub queue : IsQueue sv'.queue sv'.sessions (xs ++ p ∷ [])
  pub registry : sv'.registry ≡ sv.registry
  pub net : sv'.net ≡ sv.net

-- A well-formed AUTH_REQ (whatever is behind it in the buffer) in state AUTH, from a session that
-- is not in the queue: the name, the hash, the key and the stream are stored in the session, its
-- state stays AUTH, and it is put at the end of the queue. No other session, the registry and the
-- network are changed.
pub process_auth_req-Queued :
    (stream id : ℕ) {n p : ℕ} {name hash key : List ℕ} {s : Session} {xs : List ℕ} {sv : Server}
    (more : List ℕ)
    → IsAuthReq n name hash key
    → sv.sessions p ≡ some s
    → s.state ≡ auth
    → IsSession s
    → IsQueue sv.queue sv.sessions xs
    → has p xs ≡ false
    → Queued p
        (credentials stream n name hash key s)
        xs
        sv
        (process_auth_req stream (some p) (auth_req_packet id n name hash key ++ more) sv)
unfolding process_auth_req session_at modify_session enqueue
process_auth_req-Queued stream id {n} {p} {name} {hash} {key} {s} {xs} {sv} more w at st v q out =
    let s' = credentials stream n name hash key s in
    let h = write sv.sessions p (some s') in
    let (q', h', e, is, same) =
      enqueue-append p (IsQueue-write p (some s') out q) (write_self sv.sessions p (some s')) out in
    record {
      sv' = record sv { queue = q'; sessions = h' };
      result = rw (at, ap is_auth st, take_credentials_lem stream id n more w v, e);
      stored = same p ∙ ap unlinked (write_self sv.sessions p (some s'));
      others = λ a ne. same a ∙ ap unlinked (write_ne sv.sessions p (some s') a ne);
      queue = is;
      registry = refl;
      net = refl;
    }

-- An AUTH_REQ whose `username_len` is above 32 is copied past the end of `auth_username`, which is
-- undefined behaviour, whatever else the packet holds.
pub auth_req_overflow :
    (stream p n : ℕ) (pkt : List ℕ) {s : Session} (sv : Server)
    → sv.sessions p ≡ some s
    → s.state ≡ auth
    → IsSession s
    → uint_at 12 1 pkt ≡ ok n
    → 32 < n
    → process_auth_req stream (some p) pkt sv ≡ fault
unfolding process_auth_req session_at take_credentials
auth_req_overflow stream p n pkt {s} sv at st v e long = rw (
  at,
  ap is_auth st,
  e,
  memcpy_fault s.auth_username (drop 13 pkt) n (omega (arith, v.auth_name_size)),
)

take_credentials_truncated :
    (stream : ℕ) (pkt : List ℕ) (s : Session)
    → length pkt < 79
    → take_credentials stream pkt s ≡ fault
unfolding take_credentials
take_credentials_truncated stream pkt s short = >>=-fault (uint_at 12 1 pkt) _ λ ulen.
    >>=-fault (memcpy s.auth_username (drop 13 pkt) ulen) _ λ name.
      >>=-fault (memcpy s.auth_password_hash (drop 45 pkt) 32) _
        λ hash. rw (uint_at_fault 77 2 pkt short)

-- An AUTH_REQ in a buffer of less than 79 bytes in state AUTH is read past its end, which is
-- undefined behaviour: the handler asks only for the 12 bytes of the header.
pub auth_req_truncated :
    (stream p : ℕ) (pkt : List ℕ) {s : Session} (sv : Server)
    → sv.sessions p ≡ some s
    → s.state ≡ auth
    → length pkt < 79
    → process_auth_req stream (some p) pkt sv ≡ fault
unfolding process_auth_req session_at
auth_req_truncated stream p pkt {s} sv at st short =
    rw (at, ap is_auth st, take_credentials_truncated stream pkt s short)
