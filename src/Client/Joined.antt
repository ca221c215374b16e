-- ===== src/Client/Joined.antt =====
-- A login from end to end: the tool of data/sqmp_add_user.c, `sqmp_login` of src/client/client.c,
-- the server's queue and main loop (src/shared/sqmp.c, src/server/server.c), and its answer at the
-- client.
use mathlib.Core.Path.{subst}
use squimpchat.Base.{
  ℕ, ◌<◌, ◌≡◌, refl, ap, sym, ◌∙◌, inl, inr, true, false, Option, none, some, List, [], ◌∷◌, ◌++◌,
  arith, bytes_eq_refl, length, drop, take, take-append, length-append, length-take, length-drop,
  zeros, Run, ok,
}
use squimpchat.Session.{Session, auth, write}
use squimpchat.Queue.Chains.{write_self}
use squimpchat.Queue.Fifo.{dequeue-cons}
use squimpchat.Registry.{registry_max}
use squimpchat.Registry.Lookup.{IsRegistry, view}
use squimpchat.Registry.Slots.{used}
use squimpchat.Net.{Net}
use squimpchat.Net.Send.{IsOpen, accepts, after_send, sent-after_send}
use squimpchat.Wire.Packets.{auth_resp_packet}
use squimpchat.Server.{Server}
use squimpchat.Server.Users.{verify_credentials}
use squimpchat.Server.Shape.{IsSession, touched, padded, length-padded}
use squimpchat.Server.Exclusive.{login_of}
use squimpchat.Server.Passes.{established-login}
use squimpchat.Server.AuthReq.{IsAuthReq, credentials, Queued}
use squimpchat.Server.Impostor.{found, asked_credentials}
use squimpchat.Server.Login.{
  rejected, logged_in, answered, login_name, asked_name, dequeued, established,
  handle_pending-Login,
}
use squimpchat.Server.Worker.{goes_on, auth_status, handle_pending, after_dequeue, worker_pass}
use squimpchat.AddUser.{add_user, has_user, content}
use squimpchat.AddUser.File.{is_text}
use squimpchat.AddUser.RoundTrip.{IsUsername, IsHash}
use squimpchat.Client.Crypto.{OpenSsl}
use squimpchat.Client.SignIn.{Typing}
use squimpchat.Client.Admitted.{Waiting, Admitted, padded_all, added-Admitted}
use squimpchat.Client.{Client, process_auth_resp}
use squimpchat.Client.Replies.{informed, process_auth_resp-auth_resp_packet}

-- The server's answer to a login that succeeds.
abbrev pub welcome : Session → List ℕ
welcome s = auth_resp_packet s.session_id (auth_status true)

-- The session that waits alone in the queue is logged in by the next pass of the main loop, and told so.
pub record Joined (users : Option (List ℕ)) (p stream : ℕ) (s : Session) (name key : List ℕ)
    (sv : Server) : Type 0 where
  pub sv' : Server
  pub pass : worker_pass users false false sv ≡ ok (goes_on, sv')
  pub user : login_of (sv'.sessions p) ≡ some name
  pub entry : view sv'.registry name ≡ some (some stream, key)
  pub told : sv'.net.sent ≡ (stream, welcome s) ∷ sv.net.sent

credentials-IsSession :
    (stream n : ℕ) {name hash key : List ℕ} {s : Session}
    → IsAuthReq n name hash key
    → IsSession s
    → IsSession (credentials stream n name hash key s)
credentials-IsSession stream n {name} {s = s} w k = record {
  name_size = k.name_size;
  name_fits = k.name_fits;
  auth_name_size = omega (
    arith,
    length-append (take n name) (drop n s.auth_username),
    length-take n name,
    length-drop n s.auth_username,
    w.fits,
    w.name_size,
    k.auth_name_size,
  );
  auth_name_fits = w.fits;
  hash_size = w.hash_size;
  key_size = w.key_size;
}

-- The main loop's body for a session whose name is free.
handle_pending-Joined :
    (users : Option (List ℕ)) (p stream : ℕ) {t : Session} (sv : Server)
    → sv.sessions p ≡ some t
    → IsSession t
    → t.conn_closed ≡ false
    → t.auth_stream ≡ some stream
    → IsRegistry sv.registry
    → view sv.registry (asked_name t) ≡ none
    → used sv.registry < registry_max
    → verify_credentials users (login_name t) t.auth_password_hash ≡ ok true
    → IsOpen stream sv.net
    → (sv' : Server) × (handle_pending users p sv ≡ ok sv')
      × (login_of (sv'.sessions p) ≡ some (asked_name t))
      × (view sv'.registry (asked_name t) ≡ some (some stream, t.auth_pubkey))
      × (sv'.net ≡ after_send stream (welcome t) sv.net)
handle_pending-Joined users p stream {t} sv at w live to reg fresh room right o =
    elim (handle_pending-Login users sv true at live w reg (rw to o) right) [
      | rejected (inl wrong) is ↦ cc
      | rejected (inr (inl online)) is ↦ absurd (online fresh)
      | rejected (inr (inr full)) is ↦ absurd (omega (arith, full, room))
      | logged_in r granted new more v wr is ↦ (
        _,
        is
            ∙ ap
                (λ a. ok (
                  answered a t.session_id true (record sv {
                    registry = r;
                    sessions =
                        write (write sv.sessions p (some (dequeued t))) p
                          (some (established (dequeued t)));
                  })))
                to,
        ap login_of (
              write_self (write sv.sessions p (some (dequeued t))) p
                (some (established (dequeued t))))
            ∙ established-login (let d : IsSession (dequeued t) = touched w in d),
        v (asked_name t) ∙ rw (bytes_eq_refl (asked_name t)) (ap (λ a. some (a, t.auth_pubkey)) to),
        refl,
      )
    ]

-- A session that is alone in the queue, with credentials that are right.
Queued-Joined :
    (users : Option (List ℕ)) (stream n p : ℕ) {name hash key : List ℕ} {s : Session} {sv : Server}
    {x : Run Server}
    → IsAuthReq n name hash key
    → IsSession s
    → IsRegistry sv.registry
    → s.conn_closed ≡ false
    → view sv.registry (take n name) ≡ none
    → used sv.registry < registry_max
    → verify_credentials users (login_name (credentials stream n name hash key s)) hash ≡ ok true
    → IsOpen stream sv.net
    → accepts sv.net ≡ true
    → (q : Queued p (credentials stream n name hash key s) [] sv x)
    → Joined users p stream s (take n name) key q.sv'
unfolding worker_pass after_dequeue auth_resp_packet
Queued-Joined users stream n p {name} {hash} {key} {s} {sv} w k reg live fresh room right o taken
      q =
    let c = credentials stream n name hash key s in
    let (a, h, deq, rest, same) = dequeue-cons q.queue in
    let (t, at, e) = found (h p) c (same p ∙ q.stored) in
    let sv1 = record q.sv' { queue = a; sessions = h } in
    let named : asked_name t ≡ take n name =
      ap (λ (x : Session). asked_name x) e
      ∙ asked_credentials stream n name hash key s (omega (arith, w.fits, w.name_size)) in
    let shape : IsSession t =
      touched {n = t.next}
        (subst IsSession (sym e) (touched (credentials-IsSession stream n w k))) in
    let (sv2, run, user, entry, net) =
      handle_pending-Joined users p stream sv1 at shape
        (ap (λ (x : Session). x.conn_closed) e ∙ live) (ap (λ (x : Session). x.auth_stream) e)
        (rw q.registry reg) (rw (named, q.registry) fresh) (rw q.registry room)
        (ap (λ (x : Session). verify_credentials users (login_name x) x.auth_password_hash) e
          ∙ right)
        (rw q.net o) in
    record {
      sv' = sv2;
      pass = rw (deq, run) refl;
      user = user ∙ ap some named;
      entry =
          ap (view sv2.registry) (sym named)
          ∙ entry
          ∙ ap (λ (x : Session). some (some stream, x.auth_pubkey)) e;
      told =
          ap (λ (x : Net). x.sent) net
          ∙ sent-after_send stream (welcome t) q.sv'.net (rw q.net taken) (omega arith)
          ∙ ap (λ (x : Session). (stream, welcome x) ∷ q.sv'.net.sent) e;
    }

-- The tool adds a user of at most 32 bytes to the file of users, and the user types the same name
-- and password in the client. If the server's session waits for a login with an open connection,
-- nobody is in the queue, the name is free in the well-formed registry and there is room, and
-- MsQuic takes the answer on the open stream, then: the client's packet makes the server queue the
-- session; the next pass of the main loop logs it in under the name, registers the name with the
-- stream and the client's public key, and sends one packet, AUTH_RESP; and a client in state AUTH
-- that receives it is logged in, and its login thread is woken.
pub added-Joined :
    {o : OpenSsl} (turn dest stream : ℕ) {p : ℕ} {name password key : List ℕ}
    (file : Option (List ℕ)) (more more' : List ℕ) {s : Session} {c : Client} {sv : Server}
    (client : Client)
    → Typing o turn dest name password key c
    → IsUsername name
    → IsHash (o.sha256 password)
    → is_text (content file) ≡ true
    → has_user name file ≡ false
    → Waiting p s [] sv
    → s.conn_closed ≡ false
    → IsRegistry sv.registry
    → view sv.registry name ≡ none
    → used sv.registry < registry_max
    → IsOpen stream sv.net
    → accepts sv.net ≡ true
    → client.session.state ≡ auth
    → (file' : List ℕ) × (add_user o.sha256 name password file true ≡ some file')
      × (adm : Admitted o turn dest stream p name password key file' more s [] c sv) × Joined
          (some file')
          p
          stream
          s
          name
          (o.public_of key)
          adm.queued.sv'
      × (process_auth_resp (welcome s ++ more') client
          ≡ ok (record client { session = informed true client.session }))
added-Joined {o} turn dest stream {p} {name} {password} {key} file more more' {s} {sv = sv} client t
      n h text new w live reg free room open_stream taken st =
    let (file', made, adm) = added-Admitted turn dest stream file more t n h text new w in
    let whole : take (length name) (padded (length name) name) ≡ name =
      ap (take (length name)) (padded_all name)
      ∙ take-append name (drop (length name) (zeros 32)) in
    (
      file',
      made,
      adm,
      subst (λ x. Joined (some file') p stream s x (o.public_of key) adm.queued.sv') whole
          (Queued-Joined (some file') stream (length name) p
            (record {
              fits = t.fits;
              name_size = length-padded (length name) name t.fits (omega arith);
              hash_size = t.hash_size;
              key_size = t.key_size;
            })
            w.shape reg live (ap (view sv.registry) whole ∙ free) room adm.right open_stream taken
            adm.queued),
      process_auth_resp-auth_resp_packet s.session_id true more' client st,
    )
