-- ===== src/Server/Shape.antt =====
-- The sizes of the arrays of a session (include/sqmp.h) and the names in them, and the senders and
-- writers of the server on known streams and sessions.
use squimpchat.Base.{
  Bool, some, Option, ℕ, ◌≤◌, ◌≡◌, List, ◌++◌, arith, length, take, drop, zeros, length-append,
  length-take, length-drop, ok, memcpy, memcpy_lem,
}
use squimpchat.Registry.Names.{IsName}
use squimpchat.Net.Send.{IsOpen, accepts, after_send, stream_send-after_send}
use squimpchat.Wire.Packets.{error_packet, bye_packet}
use squimpchat.Session.{Session, SessionState, write}
use squimpchat.Server.{modify_session, Server, send, send_error, send_bye}

pub record IsSession (s : Session) : Type 0 where
  pub name_size : length s.username ≡ 32
  pub name_fits : s.username_len ≤ 32
  pub auth_name_size : length s.auth_username ≡ 32
  pub auth_name_fits : s.auth_username_len ≤ 32
  pub hash_size : length s.auth_password_hash ≡ 32
  pub key_size : length s.auth_pubkey ≡ 32

-- The name of a session that is logged in.
abbrev pub name_of : Session → List ℕ
name_of s = take s.username_len s.username

-- `n` bytes of a name in a cleared array of 32 bytes.
abbrev pub padded : ℕ → List ℕ → List ℕ
padded n name = take n name ++ drop n (zeros 32)

pub length-padded : (n : ℕ) (name : List ℕ) → n ≤ 32 → n ≤ length name → length (padded n name) ≡ 32
length-padded n name h k = omega (
  arith,
  length-append (take n name) (drop n (zeros 32)),
  length-take n name,
  length-drop n (zeros 32),
)

pub memcpy-padded :
    (n : ℕ) (name : List ℕ)
    → n ≤ 32
    → n ≤ length name
    → memcpy (zeros 32) name n ≡ ok (padded n name)
memcpy-padded n name h k = memcpy_lem (zeros 32) name n (omega arith) k

-- The server after a send.
abbrev pub after : ℕ → List ℕ → Server → Server
after stream bytes sv = record sv { net = after_send stream bytes sv.net }

pub send-after :
    {stream : ℕ} (bytes : List ℕ) (sv : Server)
    → IsOpen stream sv.net
    → send stream bytes sv ≡ ok (accepts sv.net, after stream bytes sv)
unfolding send
send-after bytes sv o = rw (stream_send-after_send bytes o)

pub send_error-after :
    {stream p : ℕ} {s : Session} (code : ℕ) (desc : Option (List ℕ)) (sv : Server)
    → sv.sessions p ≡ some s
    → IsOpen stream sv.net
    → send_error stream (some p) code desc sv
      ≡ ok (after stream (error_packet s.session_id code desc) sv)
unfolding send_error
send_error-after code desc sv at o = rw (at, send-after _ sv o)

pub send_bye-after :
    {stream p : ℕ} {s : Session} (sv : Server)
    → sv.sessions p ≡ some s
    → IsOpen stream sv.net
    → send_bye stream (some p) sv ≡ ok (after stream (bye_packet s.session_id) sv)
unfolding send_bye
send_bye-after sv at o = rw (at, send-after _ sv o)

pub modify_session_lem :
    {p : ℕ} {s : Session} (f : Session → Session) (sv : Server)
    → sv.sessions p ≡ some s
    → modify_session (some p) f sv ≡ ok (record sv { sessions = write sv.sessions p (some (f s)) })
unfolding modify_session
modify_session_lem f sv at = rw at

-- What is not a name, a hash or a key does not count.
pub touched :
    {s : Session} {st : SessionState} {id : ℕ} {stream : Option ℕ} {queued gone : Bool}
    {n : Option ℕ}
    → IsSession s
    → IsSession (record s {
      state = st;
      session_id = id;
      auth_stream = stream;
      auth_queued = queued;
      conn_closed = gone;
      next = n;
    })
touched w = record {
  name_size = w.name_size;
  name_fits = w.name_fits;
  auth_name_size = w.auth_name_size;
  auth_name_fits = w.auth_name_fits;
  hash_size = w.hash_size;
  key_size = w.key_size;
}

pub session-IsName : {s : Session} → IsSession s → IsName s.username s.username_len
session-IsName w = record { short = w.name_fits; inside = omega (arith, w.name_size, w.name_fits) }
