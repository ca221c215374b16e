-- ===== src/Server/Race.antt =====
-- The main thread and MsQuic's threads at one session (`main` and `on_disconnected` of src/server/server.c):
-- a connection that ends while its login is handled.
use squimpchat.Base.{
  ℕ, ◌≡◌, refl, Bool, true, false, Option, none, some, List, zeros, Run, ok, fault, ◌>>=◌,
  >>=-fault, memcpy, if◌then◌else◌, if_false,
}
use squimpchat.Session.{Session, is_established, write, modify}
use squimpchat.Queue.Chains.{write_self}
use squimpchat.Registry.{Registry}
use squimpchat.Net.{Conn, conn_get_user_data}
use squimpchat.Server.{Server, modify_session}
use squimpchat.Server.Users.{c_string, verify_credentials}
use squimpchat.Server.Callbacks.{on_disconnected, leave, drop_session}
use squimpchat.Server.Login.{dequeued, open_pending}
use squimpchat.Server.Worker.{establish, login, authenticate, handle_pending}

-- The session is freed.
abbrev Freed : ℕ → Server → Type 0
Freed p sv = sv.sessions p ≡ none

establish-fault : (p : ℕ) (s : Session) (sv : Server) → Freed p sv → establish p s sv ≡ fault
unfolding establish modify_session modify
establish-fault p s sv gone =
    >>=-fault (memcpy s.username s.auth_username s.auth_username_len) _ λ name. rw gone refl

added-fault :
    (p : ℕ) (s : Session) (sv : Server) (m : Run (Bool × Registry)) (f : Bool × Server → Run Server)
    → Freed p sv
    → f (false, sv) ≡ fault
    → ((do
      (added, r) ← m
      if added
          then (do sv1 ← establish p s (record sv { registry = r }); ok (true, sv1))
          else ok (false, sv))
        >>= f)
      ≡ fault
added-fault p s sv fault f gone h = refl
added-fault p s sv (ok (false, r)) f gone h = h
added-fault p s sv (ok (true, r)) f gone h =
    rw (establish-fault p s (record sv { registry = r }) gone) refl

-- A login of a freed session faults, or has done nothing.
login-fault :
    (p : ℕ) (s : Session) (right : Bool) (sv : Server) (f : Bool × Server → Run Server)
    → Freed p sv
    → f (false, sv) ≡ fault
    → (login p s right sv >>= f) ≡ fault
unfolding login
login-fault p s false sv f gone h = h
login-fault p s true sv f gone h = added-fault p s sv _ f gone h

authenticate-fault :
    (users : Option (List ℕ)) (p : ℕ) (s : Session) (sv : Server)
    → Freed p sv
    → authenticate users p s sv ≡ fault
unfolding authenticate
authenticate-fault users p s sv gone =
    >>=-fault (memcpy (zeros 33) s.auth_username s.auth_username_len) _ λ name.
      >>=-fault (verify_credentials users (c_string name) s.auth_password_hash) _
        λ right. login-fault p s right sv _ gone (rw gone refl)

-- Where the main thread has taken a session whose connection is open from the queue.
abbrev pub taken : ℕ → Session → Server → Server
taken p s sv = record sv { sessions = write sv.sessions p (some (dequeued s)) }

freed_lem :
    (conn p : ℕ) (sv : Server) (s : Session) {c : Conn}
    → is_established s.state ≡ false
    → sv.net.conns conn ≡ some c
    → c.user_data ≡ some p
    → on_disconnected conn (taken p s sv)
      ≡ ok (record sv { sessions = write (taken p s sv).sessions p none })
unfolding on_disconnected leave drop_session conn_get_user_data
freed_lem conn p sv s no_user at owner =
    rw (at, owner, write_self sv.sessions p (some (dequeued s)), if_false _ _ no_user) refl

-- The session at `p` is allocated, not logged in, its connection is open and has it as user data. The
-- main loop that takes it from the queue clears `auth_queued` and then runs `authenticate`. If
-- the connection ends between the two, `on_disconnected` frees the session, and `authenticate`
-- then uses freed memory.
pub authenticate-freed :
    (users : Option (List ℕ)) (conn p : ℕ) (sv : Server) (s : Session) {c : Conn}
    → sv.sessions p ≡ some s
    → s.conn_closed ≡ false
    → is_established s.state ≡ false
    → sv.net.conns conn ≡ some c
    → c.user_data ≡ some p
    → (handle_pending users p sv ≡ authenticate users p (dequeued s) (taken p s sv))
      × (sv2 : Server) × (on_disconnected conn (taken p s sv) ≡ ok sv2)
      × (authenticate users p (dequeued s) sv2 ≡ fault)
authenticate-freed users conn p sv s at live no_user open_conn owner = (
  open_pending users sv at live,
  _,
  freed_lem conn p sv s no_user open_conn owner,
  authenticate-fault users p (dequeued s) _ (write_self (taken p s sv).sessions p none),
)
