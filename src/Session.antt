-- ===== src/Session.antt =====
-- `sqmp_session_t` of include/sqmp.h, and the store in which the server allocates sessions. A
-- semaphore is the number that its value is. The one-byte flags are Booleans.
use squimpchat.Base.{
  ℕ, Bool, true, false, Option, none, some, List, ◌==◌, if◌then◌else◌, zeros, Run, ok, deref, ◌>>=◌,
}

-- `enum sqmp_session_state_e`
pub data SessionState : Type 0 where
  closed hello auth conn_established closing : SessionState

abbrev pub is_hello : SessionState → Bool
is_hello hello = true
is_hello _ = false

abbrev pub is_auth : SessionState → Bool
is_auth auth = true
is_auth _ = false

abbrev pub is_established : SessionState → Bool
is_established conn_established = true
is_established _ = false

pub record Session : Type 0 where
  pub state : SessionState
  pub session_id : ℕ
  pub username_len : ℕ
  pub username : List ℕ
  pub login_ready : ℕ
  pub auth_done : ℕ
  pub auth_ok : Bool
  pub client_pubkey : List ℕ
  pub client_privkey : List ℕ
  pub auth_stream : Option ℕ
  pub auth_queued : Bool
  pub conn_closed : Bool
  pub auth_username_len : ℕ
  pub auth_username : List ℕ
  pub auth_password_hash : List ℕ
  pub auth_pubkey : List ℕ
  pub key_fetch_sem : ℕ
  pub key_fetch_result : List ℕ
  pub next : Option ℕ

-- A session that `calloc` has cleared.
abbrev pub zero_session : Session
zero_session = record {
  state = closed;
  session_id = 0;
  username_len = 0;
  username = zeros 32;
  login_ready = 0;
  auth_done = 0;
  auth_ok = false;
  client_pubkey = zeros 32;
  client_privkey = zeros 32;
  auth_stream = none;
  auth_queued = false;
  conn_closed = false;
  auth_username_len = 0;
  auth_username = zeros 32;
  auth_password_hash = zeros 32;
  auth_pubkey = zeros 32;
  key_fetch_sem = 0;
  key_fetch_result = zeros 32;
  next = none;
}

-- The sessions by their addresses; `none` where no session is allocated, or no longer.
abbrev pub Sessions : Type 0
Sessions = ℕ → Option Session

-- What address `p` holds from now on: a session, or nothing after `free`.
unfoldable pub write : Sessions → ℕ → Option Session → Sessions
write h p c a = if a == p then c else h a

-- A change to the session at an address.
unfoldable pub modify : ℕ → (Session → Session) → Sessions → Run Sessions
unfolding write
modify p f h = do s ← deref (h p); ok (write h p (some (f s)))
