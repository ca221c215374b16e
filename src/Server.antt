-- ===== src/Server.antt =====
-- The server: its global state, and the senders that its handlers share (src/shared/sqmp.c and
-- src/server/server.c). A pointer to a session is an address, `none` for NULL.
pub mod Handlers
pub mod Users
pub mod Callbacks
pub mod Worker
pub mod Shape
pub mod Chat
pub mod Hello
pub mod AuthReq
pub mod Turns
pub mod Whole
pub mod Impostor
pub mod Requeued
pub mod Sound
pub mod Heard
pub mod Quiet
pub mod Moves
pub mod TurnsHold
pub mod Interleaved
pub mod Waiting
pub mod Drained
pub mod Exclusive
pub mod Kept
pub mod Frozen
pub mod Answered
pub mod Steady
pub mod Lasting
pub mod HandlersKept
pub mod Received
pub mod Login
pub mod Guards
pub mod Leave
pub mod Keys
pub mod Invariant
pub mod Passes
pub mod Farewell
pub mod Steps
pub mod Wrapper
pub mod Setup
pub mod Handles
pub mod Race
pub mod Tests
use squimpchat.Base.{ℕ, Bool, Option, none, some, List, Run, ok, ◌>>=◌, deref}
use squimpchat.Session.{Session, Sessions, modify}
use squimpchat.Queue.{AuthQueue, auth_queue_init}
use squimpchat.Registry.{Registry}
use squimpchat.Registry
use squimpchat.Net.{Net, stream_send}
use squimpchat.Wire.Packets.{error_packet, bye_packet}

-- The sessions that are allocated, and the globals of sqmp.c.
pub record Server : Type 0 where
  pub sessions : Sessions
  pub queue : AuthQueue
  pub registry : Registry
  pub next_session_id : ℕ
  pub net : Net

-- The session that a pointer leads to.
unfoldable pub session_at : Option ℕ → Server → Run Session
session_at sp sv = do p ← deref sp; deref (sv.sessions p)

unfoldable pub modify_session : Option ℕ → (Session → Session) → Server → Run Server
unfolding modify
modify_session sp f sv = do
  p ← deref sp
  h ← modify p f sv.sessions
  ok (record sv { sessions = h })

-- `sqmp_stream_send` on the server's network: `true` for 0.
unfoldable pub send : ℕ → List ℕ → Server → Run (Bool × Server)
unfolding stream_send
send stream bytes sv = do
  (sent, n) ← stream_send stream bytes sv.net
  ok (sent, record sv { net = n })

-- `session ? session->session_id : 0`
unfoldable pub session_id_of : Option ℕ → Server → Run ℕ
session_id_of none sv = ok 0
session_id_of (some p) sv = do s ← deref (sv.sessions p); ok s.session_id

-- `sqmp_send_bye`
unfoldable pub send_bye : ℕ → Option ℕ → Server → Run Server
unfolding session_id_of send
send_bye stream session sv = do
  id ← session_id_of session sv
  (_, sv') ← send stream (bye_packet id) sv
  ok sv'

-- `sqmp_send_error`
unfoldable pub send_error : ℕ → Option ℕ → ℕ → Option (List ℕ) → Server → Run Server
unfolding session_id_of send
send_error stream session code desc sv = do
  id ← session_id_of session sv
  (_, sv') ← send stream (error_packet id code desc) sv
  ok sv'
