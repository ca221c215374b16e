-- ===== src/Server/Passes.antt =====
-- The invariant of the server in the main thread (src/server/server.c).
use squimpchat.Base.{
  ℕ, ◌≡◌, refl, ap, drop, take-append_eq, length-take, length-append, length-drop, inl, inr, Bool,
  true, false, Option, none, some, List, arith, if◌then◌else◌, Option-cases, zeros, memcpy, ok,
  ◌>>=◌, deref, Safe, Safe-bind, Safe-any, Safe-if,
}
use squimpchat.Session.{Session, Sessions, write}
use squimpchat.Queue.{AuthQueue, Dequeued, waits, null, session, auth_queue_dequeue}
use squimpchat.Queue.Chains.{SameBut}
use squimpchat.Queue.Links.{auth_queue_dequeue-SameBut}
use squimpchat.Registry.Insert.{refused, accepted, registry_add-Added}
use squimpchat.Server.{Server, modify_session, send}
use squimpchat.Server.Shape.{IsSession, touched}
use squimpchat.Server.Exclusive.{login_of, quiet-IsExclusive, insert-IsExclusive}
use squimpchat.Server.Login.{established, asked_name, asked-IsName, establish_lem}
use squimpchat.Server.Kept.{IsServer, Shaped-Turned, Turned-unlinked, Fewer-Turned}
use squimpchat.Server.Answered.{send-Frozen}
use squimpchat.Server.Frozen.{Frozen}
use squimpchat.Server.Users.{c_string, verify_credentials}
use squimpchat.Server.Worker.{
  send_auth_resp, login, answer_login, authenticate, handle_pending, after_dequeue, worker_pass,
}
use squimpchat.Server.Invariant.{
  Frozen-IsServer, write-Shaped, write-IsServer, session-IsSession, modify_session-IsServer,
}

send_auth_resp-IsServer :
    (stream p : ℕ) (granted : Bool) (sv : Server)
    → IsServer sv
    → Safe IsServer (send_auth_resp stream p granted sv)
unfolding send_auth_resp
send_auth_resp-IsServer stream p granted sv w = Safe-any IsServer (deref (sv.sessions p)) _ λ s.
    Safe-bind (λ r. Frozen sv r.1) IsServer (send stream _ sv) _ (send-Frozen stream _ sv)
      λ r f. Frozen-IsServer f w

pub answer_login-IsServer :
    (p : ℕ) (a : Option ℕ) (granted : Bool) (sv : Server)
    → IsServer sv
    → Safe IsServer (answer_login p a granted sv)
unfolding answer_login
answer_login-IsServer p none granted sv w = w
answer_login-IsServer p (some stream) granted sv w = send_auth_resp-IsServer stream p granted sv w

-- The session once it is logged in has the name of its login.
pub established-login :
    {s : Session} → IsSession s → login_of (some (established s)) ≡ some (asked_name s)
established-login {s} k = ap some (
    take-append_eq s.auth_username_len (asked_name s) (drop s.auth_username_len s.username) (
      omega (
        arith,
        length-take s.auth_username_len s.auth_username,
        k.auth_name_size,
        k.auth_name_fits,
      )))

pub established-IsSession : {s : Session} → IsSession s → IsSession (established s)
established-IsSession {s} k = record {
  name_size = omega (
    arith,
    length-append (asked_name s) (drop s.auth_username_len s.username),
    length-take s.auth_username_len s.auth_username,
    length-drop s.auth_username_len s.username,
    k.name_size,
    k.auth_name_size,
    k.auth_name_fits,
  );
  name_fits = k.auth_name_fits;
  auth_name_size = k.auth_name_size;
  auth_name_fits = k.auth_name_fits;
  hash_size = k.hash_size;
  key_size = k.key_size;
}

login-IsServer :
    (p : ℕ) {s : Session} (right : Bool) (sv : Server)
    → IsServer sv
    → IsSession s
    → sv.sessions p ≡ some s
    → Safe (λ r. IsServer r.1) (login p s right sv)
unfolding login
login-IsServer p {s} false sv w k at = w
login-IsServer p {s} true sv w k at =
    elim (registry_add-Added s.auth_stream w.registry (asked-IsName k) k.key_size) [
      | refused why is ↦ rw is w
      | accepted r fresh room is wr v more ↦
          rw (is, establish_lem p (record sv { registry = r }) at k)
            (record {
              registry = wr;
              sessions =
                  write-Shaped sv.sessions p (some (established s)) w.sessions
                    (established-IsSession k);
              logins =
                  insert-IsExclusive p (some (established s)) (asked_name s)
                    (s.auth_stream, s.auth_pubkey) w.logins fresh (established-login k) v;
            })
    ]

authenticate-IsServer :
    (users : Option (List ℕ)) (p : ℕ) {s : Session} (sv : Server)
    → IsServer sv
    → IsSession s
    → sv.sessions p ≡ some s
    → Safe IsServer (authenticate users p s sv)
unfolding authenticate
authenticate-IsServer users p {s} sv w k at =
    Safe-any IsServer (memcpy (zeros 33) s.auth_username s.auth_username_len) _ λ name.
      Safe-any IsServer (verify_credentials users (c_string name) s.auth_password_hash) _ λ right.
        Safe-bind (λ r. IsServer r.1) IsServer (login p s right sv) _
          (login-IsServer p right sv w k at)
          λ r v.
            Safe-any IsServer (deref (r.1.sessions p)) _
              λ t. answer_login-IsServer p t.auth_stream r.0 r.1 v

handle_pending-IsServer :
    (users : Option (List ℕ)) (p : ℕ) (sv : Server)
    → IsServer sv
    → Safe IsServer (handle_pending users p sv)
unfolding handle_pending
handle_pending-IsServer users p sv w =
    Safe-bind IsServer IsServer (modify_session (some p) (λ s. record s { auth_queued = false }) sv)
      _ (modify_session-IsServer p _ sv w (λ t k. touched k) λ t. refl) λ sv1 v. taken sv1 v
  where
    taken :
        (sv1 : Server)
        → IsServer sv1
        → Safe IsServer (do
          s ← deref (sv1.sessions p)
          if s.conn_closed
              then ok (record sv1 { sessions = write sv1.sessions p none })
              else authenticate users p s sv1)
    taken sv1 v = elim (Option-cases (sv1.sessions p)) [
      | inl e ↦ rw e tt
      | inr (s, e) ↦ rw e (
          Safe-if IsServer s.conn_closed _ _ (write-IsServer p none sv1 v tt (inl refl))
            (authenticate-IsServer users p sv1 v (session-IsSession p v e) e))
    ]

after_dequeue-IsServer :
    (users : Option (List ℕ)) (d : Dequeued) (sv : Server)
    → IsServer sv
    → Safe (λ r. IsServer r.1) (after_dequeue users d sv)
unfolding after_dequeue
after_dequeue-IsServer users waits sv w = w
after_dequeue-IsServer users null sv w = w
after_dequeue-IsServer users (session p) sv w =
    Safe-bind IsServer (λ r. IsServer r.1) (handle_pending users p sv) _
      (handle_pending-IsServer users p sv w) λ sv1 v. v

-- Only places in the queue change.
pub requeued-IsServer :
    (q : AuthQueue) (h : Sessions) (sv : Server)
    → SameBut sv.sessions h
    → IsServer sv
    → IsServer (record sv { queue = q; sessions = h })
requeued-IsServer q h sv same w = record {
  registry = w.registry;
  sessions = λ a.
      Shaped-Turned (sv.sessions a) (h a) (Turned-unlinked (sv.sessions a) (h a) (same a))
        (w.sessions a);
  logins =
      quiet-IsExclusive w.logins
        (λ a. Fewer-Turned (sv.sessions a) (h a) (Turned-unlinked (sv.sessions a) (h a) (same a)))
        λ n. refl;
}

pub worker_pass-IsServer :
    (users : Option (List ℕ)) (stop interrupted : Bool) (sv : Server)
    → IsServer sv
    → Safe (λ r. IsServer r.1) (worker_pass users stop interrupted sv)
unfolding worker_pass
worker_pass-IsServer users true interrupted sv w = w
worker_pass-IsServer users false interrupted sv w =
    Safe-bind (λ r. SameBut sv.sessions r.2) (λ r. IsServer r.1)
      (auth_queue_dequeue interrupted sv.queue sv.sessions) _
      (auth_queue_dequeue-SameBut interrupted sv.queue sv.sessions)
      λ r same.
        after_dequeue-IsServer users r.0 (record sv { queue = r.1; sessions = r.2 })
          (requeued-IsServer r.1 r.2 sv same w)
