-- ===== src/Server/Turns.antt =====
-- The main loop of src/server/server.c in steps, so that MsQuic's threads can come between them. Each step
-- reads the session anew. `sqmp_registry_add`, which reads the session's name while it holds the mutex of
-- the registry, is two steps, its scan of the entries and its writes to one of them. The three writes
-- behind it are one step. What comes inside of a step is not covered.
use squimpchat.Base.{
  ℕ, zero, suc, Bool, true, false, Option, none, some, List, if◌then◌else◌, zeros, Run, ok, ◌>>=◌,
  deref, memcpy,
}
use squimpchat.Session.{write}
use squimpchat.Queue.{Dequeued, waits, null, session, auth_queue_dequeue}
use squimpchat.Registry.{Scan, free, add_scan, store}
use squimpchat.Registry as R
use squimpchat.Server.{Server, modify_session}
use squimpchat.Server.Users.{c_string, verify_credentials}
use squimpchat.Server.Worker.{establish, answer_login}

-- Where the main thread is: before `sqmp_auth_queue_dequeue`; behind it, with `pending`; behind the
-- write to `auth_queued`; behind the test of `conn_closed`; behind the copy of the name; behind
-- `verify_credentials`; behind the scan of `sqmp_registry_add`, with the length and the stream that
-- it was passed; behind `sqmp_registry_add` that returned 0; before the read of `auth_stream`; behind it; behind the loop.
pub data Place : Type 0 where
  waiting : Place
  taken : ℕ → Place
  cleared : ℕ → Place
  alive : ℕ → Place
  named : ℕ → List ℕ → Place
  checked : ℕ → Bool → Place
  scanned : ℕ → ℕ → Option ℕ → Scan → Place
  added : ℕ → Place
  answering : ℕ → Bool → Place
  sending : ℕ → Bool → Option ℕ → Place
  ended : Place

abbrev pub place_of : Dequeued → Place
place_of waits = waiting
place_of null = ended
place_of (session p) = taken p

-- `g_stop` is tested, and a session taken from the queue.
unfoldable pub next_pending : (stop interrupted : Bool) → Server → Run (Place × Server)
next_pending true interrupted sv = ok (ended, sv)
next_pending false interrupted sv = do
  (d, q, h) ← auth_queue_dequeue interrupted sv.queue sv.sessions
  ok (place_of d, record sv { queue = q; sessions = h })

unfoldable pub clear_queued : ℕ → Server → Run (Place × Server)
clear_queued p sv = do
  sv1 ← modify_session (some p) (λ s. record s { auth_queued = false }) sv
  ok (cleared p, sv1)

unfoldable pub test_closed : ℕ → Server → Run (Place × Server)
test_closed p sv = do
  s ← deref (sv.sessions p)
  if s.conn_closed
      then ok (waiting, record sv { sessions = write sv.sessions p none })
      else ok (alive p, sv)

unfoldable pub copy_name : ℕ → Server → Run (Place × Server)
copy_name p sv = do
  s ← deref (sv.sessions p)
  username ← memcpy (zeros 33) s.auth_username s.auth_username_len
  ok (named p username, sv)

unfoldable pub check_hash_of : Option (List ℕ) → ℕ → List ℕ → Server → Run (Place × Server)
check_hash_of users p username sv = do
  s ← deref (sv.sessions p)
  right ← verify_credentials users (c_string username) s.auth_password_hash
  ok (checked p right, sv)

-- The reads of the name's length and of `auth_stream`, and the scan of `sqmp_registry_add`, which reads the
-- name at each entry.
unfoldable pub register : ℕ → Bool → Server → Run (Place × Server)
register p false sv = ok (answering p false, sv)
register p true sv = do
  s ← deref (sv.sessions p)
  scan ← add_scan 0 none sv.registry s.auth_username s.auth_username_len
  ok (scanned p s.auth_username_len s.auth_stream scan, sv)

-- The writes of `sqmp_registry_add` to the free entry, which read the name anew, and the key.
unfoldable pub write_entry : ℕ → ℕ → Option ℕ → Scan → Server → Run (Place × Server)
write_entry p ulen stream R.taken sv = ok (answering p false, sv)
write_entry p ulen stream (free none) sv = ok (answering p false, sv)
write_entry p ulen stream (free (some slot)) sv = do
  s ← deref (sv.sessions p)
  (done, r) ← store sv.registry (free (some slot)) s.auth_username ulen stream s.auth_pubkey
  if done then ok (added p, record sv { registry = r }) else ok (answering p false, sv)

-- The three writes to the session, and the reads of what they write, are one step.
unfoldable pub admit : ℕ → Server → Run (Place × Server)
admit p sv = do s ← deref (sv.sessions p); sv1 ← establish p s sv; ok (answering p true, sv1)

unfoldable pub read_stream : ℕ → Bool → Server → Run (Place × Server)
read_stream p granted sv = do s ← deref (sv.sessions p); ok (sending p granted s.auth_stream, sv)

-- `send_auth_resp`, if the stream is not NULL.
unfoldable pub answer_pending : ℕ → Bool → Option ℕ → Server → Run (Place × Server)
answer_pending p granted stream sv = do sv1 ← answer_login p stream granted sv; ok (waiting, sv1)

-- A step of the main thread. Behind the loop it does nothing more here.
unfoldable pub worker_step :
    Option (List ℕ) → (stop interrupted : Bool) → Place → Server → Run (Place × Server)
unfolding next_pending clear_queued test_closed copy_name check_hash_of register write_entry admit
    read_stream answer_pending
worker_step users stop interrupted waiting sv = next_pending stop interrupted sv
worker_step users stop interrupted (taken p) sv = clear_queued p sv
worker_step users stop interrupted (cleared p) sv = test_closed p sv
worker_step users stop interrupted (alive p) sv = copy_name p sv
worker_step users stop interrupted (named p username) sv = check_hash_of users p username sv
worker_step users stop interrupted (checked p right) sv = register p right sv
worker_step users stop interrupted (scanned p ulen stream scan) sv =
    write_entry p ulen stream scan sv
worker_step users stop interrupted (added p) sv = admit p sv
worker_step users stop interrupted (answering p granted) sv = read_stream p granted sv
worker_step users stop interrupted (sending p granted stream) sv =
    answer_pending p granted stream sv
worker_step users stop interrupted ended sv = ok (ended, sv)

-- The next steps, as long as the thread is in the body of the loop.
unfoldable pub resume : Option (List ℕ) → ℕ → Place → Server → Run (Place × Server)
unfolding worker_step
resume users k waiting sv = ok (waiting, sv)
resume users k ended sv = ok (ended, sv)
resume users zero place sv = ok (place, sv)
resume users (suc k) place sv = do
  (next, sv1) ← worker_step users false false place sv
  resume users k next sv1
