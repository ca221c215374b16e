-- ===== src/Client/Admitted.antt =====
-- From the tool of data/sqmp_add_user.c through `sqmp_login` of src/client/client.c to the server's queue and
-- its check of the credentials (src/shared/sqmp.c, src/server/server.c).
use squimpchat.Base.{
  ℕ, suc, zero, ◌≤◌, ◌<◌, ◌≡◌, refl, ap, ◌∙◌, true, false, Option, some, List, [], ◌∷◌, ◌++◌, arith,
  length, drop, take_all, take-append, zeros, ok, Succeeds,
}
use squimpchat.Session.{Session, auth}
use squimpchat.Queue.Chains.{IsQueue, has}
use squimpchat.Server.{Server}
use squimpchat.Server.Users.{newline, c_string, verify_credentials}
use squimpchat.Server.Shape.{IsSession, padded, length-padded}
use squimpchat.Server.Handlers.{process_auth_req}
use squimpchat.Server.AuthReq.{credentials, Queued, process_auth_req-Queued}
use squimpchat.Server.Login.{login_name}
use squimpchat.AddUser.{add_user, has_user, content}
use squimpchat.AddUser.File.{plain, is_text}
use squimpchat.AddUser.RoundTrip.{IsUsername, IsHash, Registered, add_user-Registered}
use squimpchat.Client.{Client}
use squimpchat.Client.Crypto.{OpenSsl}
use squimpchat.Client.Login.{login}
use squimpchat.Client.SignIn.{Typing, Sent, auth_req_of, login-Sent}

drop-zeros : (n m : ℕ) → n < m → (r : List ℕ) × (drop n (zeros m) ≡ 0 ∷ r)
drop-zeros zero zero h = absurd (omega arith)
drop-zeros zero (suc m) h = (zeros m, refl)
drop-zeros (suc n) zero h = absurd (omega arith)
drop-zeros (suc n) (suc m) h = drop-zeros n m (omega arith)

c_string-zero : (cs rest : List ℕ) → plain cs ≡ true → c_string (cs ++ 0 ∷ rest) ≡ cs
unfolding c_string
c_string-zero [] rest h = refl
c_string-zero (c ∷ cs) rest h = ground (arith, c_string-zero cs rest)

pub padded_all : (name : List ℕ) → padded (length name) name ≡ name ++ drop (length name) (zeros 32)
padded_all name =
    ap (λ x. x ++ drop (length name) (zeros 32)) (take_all (length name) name (omega arith))

-- The server's worker finds the name that the client sent.
login_name-credentials :
    (stream : ℕ) (name hash key : List ℕ) (s : Session)
    → plain name ≡ true
    → length name ≤ 32
    → login_name (credentials stream (length name) (padded (length name) name) hash key s) ≡ name
login_name-credentials stream name hash key s h k =
    let (r, zero_behind) = drop-zeros (length name) 33 (omega arith) in
    rw
      (
        padded_all name,
        take-append name (drop (length name) (zeros 32)),
        take-append name (drop (length name) s.auth_username),
        zero_behind,
      )
      (c_string-zero name r h)

-- A session of the server that may log in.
pub record Waiting (p : ℕ) (s : Session) (xs : List ℕ) (sv : Server) : Type 0 where
  pub at : sv.sessions p ≡ some s
  pub in_auth : s.state ≡ auth
  pub shape : IsSession s
  pub queue : IsQueue sv.queue sv.sessions xs
  pub absent : has p xs ≡ false

-- The session of the server with what the client sent.
abbrev pub logging_in : OpenSsl → ℕ → List ℕ → List ℕ → List ℕ → Session → Session
logging_in o stream name password key s =
    credentials stream (length name) (padded (length name) name) (o.sha256 password)
      (o.public_of key) s

-- What comes of a login: the packet is sent, and the server queues the session for its worker, which
-- finds the credentials right.
pub record Admitted (o : OpenSsl) (turn dest stream p : ℕ) (name password key file more : List ℕ)
    (s : Session) (xs : List ℕ) (c : Client) (sv : Server) : Type 0 where
  pub sent :
      Succeeds
        (Sent dest (auth_req_of o name password key c) key c)
        (login o turn dest (some (name ++ newline ∷ [])) (some (password ++ newline ∷ [])) c)
  pub queued :
      Queued p
        (logging_in o stream name password key s)
        xs
        sv
        (process_auth_req stream (some p) (auth_req_of o name password key c ++ more) sv)
  pub right :
      verify_credentials
        (some file)
        (login_name (logging_in o stream name password key s))
        (logging_in o stream name password key s).auth_password_hash
      ≡ ok true

-- The tool adds a user of at most 32 bytes to the file of users, and the user types the same name and
-- password in the client: the client's packet makes the server queue the session, and the check of
-- the queued name and hash against the new file lets the user in. (Whether the user is logged in then
-- depends on the directory alone.)
pub added-Admitted :
    {o : OpenSsl} (turn dest stream : ℕ) {p : ℕ} {name password key : List ℕ}
    (file : Option (List ℕ)) (more : List ℕ) {s : Session} {xs : List ℕ} {c : Client} {sv : Server}
    → Typing o turn dest name password key c
    → IsUsername name
    → IsHash (o.sha256 password)
    → is_text (content file) ≡ true
    → has_user name file ≡ false
    → Waiting p s xs sv
    → (file' : List ℕ) × (add_user o.sha256 name password file true ≡ some file')
      × Admitted o turn dest stream p name password key file' more s xs c sv
added-Admitted {o} turn dest stream {name = name} {password = password} {key = key} file more {s}
      {c = c} t n h text new w =
    let r : Registered o.sha256 name password file =
      add_user-Registered o.sha256 name password file n h text new in
    (
      r.file',
      r.made,
      record {
        sent = login-Sent turn dest t;
        queued =
            process_auth_req-Queued stream c.session.session_id more
              (record {
                fits = t.fits;
                name_size = length-padded (length name) name t.fits (omega arith);
                hash_size = t.hash_size;
                key_size = t.key_size;
              })
              w.at w.in_auth w.shape w.queue w.absent;
        right =
            ap (λ x. verify_credentials (some r.file') x (o.sha256 password))
              (login_name-credentials stream name (o.sha256 password) (o.public_of key) s
                t.plain_name t.fits)
            ∙ r.logs_in;
      },
    )
