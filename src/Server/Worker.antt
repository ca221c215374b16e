-- ===== src/Server/Worker.antt =====
-- The main thread of src/server/server.c: one login at a time, from the auth queue, and the shutdown.
-- A pass of the loop is one step here, with no callback in its middle.
use squimpchat.Base.{
  ℕ, Bool, true, false, Option, none, some, List, [], ◌∷◌, if◌then◌else◌, zeros, Run, ok, ◌>>=◌,
  deref, memcpy,
}
use squimpchat.Session.{Session, conn_established, write}
use squimpchat.Queue.{Dequeued, waits, null, session, auth_queue_dequeue}
use squimpchat.Registry.{Entry, Registry, registry_add}
use squimpchat.Net.{Net}
use squimpchat.Wire.Packets.{auth_resp_packet, bye_packet}
use squimpchat.Server.{Server, modify_session, send}
use squimpchat.Server.Users.{c_string, verify_credentials}

-- `enum sqmp_auth_status_e`
abbrev pub auth_status : Bool → ℕ
auth_status true = 0x00
auth_status false = 0x01

-- `send_auth_resp`
unfoldable pub send_auth_resp : ℕ → ℕ → Bool → Server → Run Server
send_auth_resp stream p accepted sv = do
  s ← deref (sv.sessions p)
  (_, sv1) ← send stream (auth_resp_packet s.session_id (auth_status accepted)) sv
  ok sv1

-- The writes to a session that is registered.
unfoldable pub establish : ℕ → Session → Server → Run Server
establish p s sv = do
  name ← memcpy s.username s.auth_username s.auth_username_len
  modify_session (some p)
      (λ t. record t {
        username_len = s.auth_username_len;
        username = name;
        state = conn_established;
      })
      sv

-- What follows the check of the credentials: the session is registered if they are right.
unfoldable pub login : ℕ → Session → Bool → Server → Run (Bool × Server)
unfolding establish
login p s false sv = ok (false, sv)
login p s true sv = do
  (added, r) ←
      registry_add s.auth_username s.auth_username_len s.auth_stream s.auth_pubkey sv.registry
  if added
      then (do sv1 ← establish p s (record sv { registry = r }); ok (true, sv1))
      else ok (false, sv)

unfoldable pub answer_login : ℕ → Option ℕ → Bool → Server → Run Server
answer_login p none accepted sv = ok sv
answer_login p (some stream) accepted sv = send_auth_resp stream p accepted sv

-- A login of a session whose connection is open.
unfoldable pub authenticate : Option (List ℕ) → ℕ → Session → Server → Run Server
unfolding login answer_login
authenticate users p s sv = do
  username ← memcpy (zeros 33) s.auth_username s.auth_username_len
  right ← verify_credentials users (c_string username) s.auth_password_hash
  (accepted, sv1) ← login p s right sv
  t ← deref (sv1.sessions p)
  answer_login p t.auth_stream accepted sv1

-- The body of the loop for the session at `p`.
unfoldable pub handle_pending : Option (List ℕ) → ℕ → Server → Run Server
unfolding authenticate
handle_pending users p sv = do
  sv1 ← modify_session (some p) (λ s. record s { auth_queued = false }) sv
  s ← deref (sv1.sessions p)
  if s.conn_closed
      then ok (record sv1 { sessions = write sv1.sessions p none })
      else authenticate users p s sv1

-- What a pass of the loop comes to: it waits, goes on, or the loop ends.
pub data Pass : Type 0 where
  asleep : Pass
  goes_on : Pass
  ends : Pass

unfoldable pub after_dequeue : Option (List ℕ) → Dequeued → Server → Run (Pass × Server)
unfolding handle_pending
after_dequeue users waits sv = ok (asleep, sv)
after_dequeue users null sv = ok (ends, sv)
after_dequeue users (session p) sv = do sv1 ← handle_pending users p sv; ok (goes_on, sv1)

-- A pass of the `while` loop of `main`; `stop` is `g_stop`, and a signal during the wait ends it.
unfoldable pub worker_pass :
    Option (List ℕ) → (stop : Bool) → (interrupted : Bool) → Server → Run (Pass × Server)
unfolding after_dequeue
worker_pass users true interrupted sv = ok (ends, sv)
worker_pass users false interrupted sv = do
  (d, q, h) ← auth_queue_dequeue interrupted sv.queue sv.sessions
  after_dequeue users d (record sv { queue = q; sessions = h })

-- The `while` loop of `main` until it waits or ends; each pass finds `g_stop` and whether a signal ends
-- its wait.
unfoldable pub worker_loop : Option (List ℕ) → List (Bool × Bool) → Server → Run (Pass × Server)
unfolding worker_pass
worker_loop users [] sv = ok (goes_on, sv)
worker_loop users ((stop, interrupted) ∷ more) sv = do
  (pass, sv1) ← worker_pass users stop interrupted sv
  elim pass [
    | asleep ↦ ok (asleep, sv1)
    | goes_on ↦ worker_loop users more sv1
    | ends ↦ ok (ends, sv1)
  ]

-- `sqmp_registry_send_bye_all`: a BYE with session id 0 to every user with a stream.
unfoldable pub bye_to : Entry → Server → Run Server
bye_to e sv = elim e.stream [
  | none ↦ ok sv
  | some stream ↦ if e.in_use then (do (_, sv1) ← send stream (bye_packet 0) sv; ok sv1) else ok sv
]

unfoldable pub registry_send_bye_all : Registry → Server → Run Server
unfolding bye_to
registry_send_bye_all [] sv = ok sv
registry_send_bye_all (e ∷ es) sv = do sv1 ← bye_to e sv; registry_send_bye_all es sv1

-- `sqmp_registry_shutdown_connections`
shutdown_entry : Entry → Net → Run Net
shutdown_entry e n = elim e.stream [
  | none ↦ ok n
  | some stream ↦
      if e.in_use
      then (do
        st ← deref (n.streams stream)
        c ← deref (n.conns st.conn)
        ok (record n { shutdowns = st.conn ∷ n.shutdowns }))
      else ok n
]

unfoldable pub registry_shutdown_connections : Registry → Net → Run Net
unfolding shutdown_entry
registry_shutdown_connections [] n = ok n
registry_shutdown_connections (e ∷ es) n = do
  n1 ← shutdown_entry e n
  registry_shutdown_connections es n1

-- What `main` does once the loop has ended, before it destroys the QUIC context.
unfoldable pub shut_down : (stop : Bool) → Server → Run Server
shut_down false sv = ok sv
shut_down true sv = do
  sv1 ← registry_send_bye_all sv.registry sv
  n ← registry_shutdown_connections sv1.registry sv1.net
  ok (record sv1 { net = n })
