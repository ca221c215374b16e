-- ===== src/Server/Impostor.antt =====
-- The main thread and MsQuic's threads at one session (`main` of src/server/server.c,
-- `sqmp_process_auth_req` of src/shared/sqmp.c): a second AUTH_REQ between the check of the
-- credentials and the login.
use mathlib.Core.Path.{subst}
use squimpchat.Base.{
  Safe-ok, ℕ, ◌≤◌, ◌<◌, ◌≡◌, refl, ap, sym, ◌∙◌, inl, inr, true, false, Option, none, some, List,
  ◌∷◌, ◌++◌, arith, length, take, drop, length-take, take-append_eq, if_false, bytes_eq_refl, zeros,
  ok, ◌>>=◌, memcpy_lem,
}
use squimpchat.Session.{Session, auth, write}
use squimpchat.Queue.{set_next}
use squimpchat.Queue.Chains.{IsQueue, IsQueue-write, unlinked, has, write_self}
use squimpchat.Queue.Fifo.{dequeue-cons}
use squimpchat.Registry.{registry_max}
use squimpchat.Registry.Lookup.{IsRegistry, view}
use squimpchat.Registry.Slots.{used}
use squimpchat.Registry.Insert.{refused, accepted, registry_add-Added}
use squimpchat.Net.Send.{IsOpen}
use squimpchat.Wire.Packets.{auth_req_packet}
use squimpchat.Server.{Server}
use squimpchat.Server.Shape.{IsSession, touched, modify_session_lem}
use squimpchat.Server.Worker.{login}
use squimpchat.Server.Exclusive.{login_of}
use squimpchat.Server.Kept.{IsServer, Kept, Kept-IsServer}
use squimpchat.Server.HandlersKept.{process_auth_req-Kept}
use squimpchat.Server.Invariant.{session-IsSession, write-IsServer}
use squimpchat.Server.Passes.{requeued-IsServer, established-login}
use squimpchat.Server.Users.{verify_credentials}
use squimpchat.Server.AuthReq.{IsAuthReq, credentials, process_auth_req-Queued}
use squimpchat.Server.Handlers.{process_auth_req}
use squimpchat.Server.Login.{
  login_name, asked_name, asked-IsName, IsAnswerable, answered, dequeued, established,
  establish_lem, answer_login_lem,
}
use squimpchat.Server.Turns.{
  waiting, taken, checked, worker_step, next_pending, clear_queued, test_closed, copy_name,
  check_hash_of, resume,
}
use squimpchat.Server.Whole.{resume-checked}

-- A session that is the same but for its place in the queue.
pub found :
    (y : Option Session) (s : Session)
    → unlinked y ≡ unlinked (some s)
    → (t : Session) × (y ≡ some t) × (set_next none t ≡ set_next none s)
found none s e = absurd (nothing e)
  where
    nothing : {t : Session} → none ≡ some t → ⊥
    nothing e = cc
found (some t) s e = (t, refl, cc)

-- From the queue to the check of the credentials.
resume-right :
    (users : Option (List ℕ)) (p : ℕ) {t : Session} (sv : Server)
    → sv.sessions p ≡ some t
    → IsSession t
    → t.conn_closed ≡ false
    → verify_credentials users (login_name t) t.auth_password_hash ≡ ok true
    → resume users 4 (taken p) sv
      ≡ ok (checked p true, record sv { sessions = write sv.sessions p (some (dequeued t)) })
unfolding resume worker_step clear_queued test_closed copy_name check_hash_of
resume-right users p {t} sv at w live right =
    rw
      (
        modify_session_lem (λ s. record s { auth_queued = false }) sv at,
        write_self sv.sessions p (some (dequeued t)),
        if_false _ _ live,
        write_self sv.sessions p (some (dequeued t)),
        memcpy_lem (zeros 33) t.auth_username t.auth_username_len (omega (arith, w.auth_name_fits))
            (asked-IsName w).inside,
        write_self sv.sessions p (some (dequeued t)),
        right,
      )
      refl

-- The server once the session is logged in, with the new directory.
record Entered (p : ℕ) (u : Session) (sv sv' : Server) : Type 0 where
  user : sv'.sessions p ≡ some (established u)
  entry : view sv'.registry (asked_name u) ≡ some (u.auth_stream, u.auth_pubkey)

-- From the check of the credentials to the queue, if the name is free and there is room.
resume-Entered :
    (users : Option (List ℕ)) (p : ℕ) {u : Session} (sv : Server)
    → sv.sessions p ≡ some u
    → IsSession u
    → IsRegistry sv.registry
    → view sv.registry (asked_name u) ≡ none
    → used sv.registry < registry_max
    → IsAnswerable u.auth_stream sv.net
    → (sv' : Server) × (resume users 5 (checked p true) sv ≡ ok (waiting, sv')) × Entered p u sv sv'
unfolding login
resume-Entered users p {u} sv at w reg fresh room o =
    elim (registry_add-Added u.auth_stream reg (asked-IsName w) w.key_size) [
      | refused (inl online) is ↦ absurd (online fresh)
      | refused (inr full) is ↦ absurd (omega (arith, full, room))
      | accepted r new more is wr v one ↦
          let sv1 = record sv {
            registry = r;
            sessions = write sv.sessions p (some (established u));
          } in
          (
            answered u.auth_stream u.session_id true sv1,
            resume-checked users 0 p true sv at
                ∙ rw
                    (
                      is,
                      establish_lem p (record sv { registry = r }) at w,
                      write_self sv.sessions p (some (established u)),
                    )
                    (rw
                      (answer_login_lem p {t = established u} u.auth_stream true sv1
                        (write_self sv.sessions p (some (established u))) o)
                      refl),
            entered u.auth_stream o (record {
              user = write_self sv.sessions p (some (established u));
              entry = rw (v (asked_name u), bytes_eq_refl (asked_name u)) refl;
            }),
          )
    ]
  where
    entered :
        (a : Option ℕ) {sv1 : Server}
        → IsAnswerable a sv.net
        → Entered p u sv sv1
        → Entered p u sv (answered a u.session_id true sv1)
    entered none o e = e
    entered (some stream) o e = record { user = e.user; entry = e.entry }

-- How a session comes to a name that is not its own: the server when the credentials have been checked, after
-- the second AUTH_REQ, and after the login.
pub record Impostor (users : Option (List ℕ)) (stream p : ℕ) (pkt name key : List ℕ) (sv : Server)
    : Type 0 where
  pub sv1 : Server
  pub right :
      (do (place, a) ← worker_step users false false waiting sv; resume users 4 place a)
      ≡ ok (checked p true, sv1)
  pub sv2 : Server
  pub again : process_auth_req stream (some p) pkt sv1 ≡ ok sv2
  pub sv3 : Server
  pub ends : resume users 5 (checked p true) sv2 ≡ ok (waiting, sv3)
  pub login : login_of (sv3.sessions p) ≡ some name
  pub entry : view sv3.registry name ≡ some (some stream, key)

-- The name in the credentials.
pub asked_credentials :
    (stream n : ℕ) (name hash key : List ℕ) (s : Session)
    → n ≤ length name
    → asked_name (credentials stream n name hash key s) ≡ take n name
asked_credentials stream n name hash key s fits =
    take-append_eq n (take n name) (drop n s.auth_username) (omega (arith, length-take n name))

-- The second AUTH_REQ, for the session that is not in the queue any more, and the rest of the login.
rest-Impostor :
    (users : Option (List ℕ)) (stream id : ℕ) {n p : ℕ} {name hash key : List ℕ} {t : Session}
    {xs : List ℕ} (more : List ℕ) (sv sv1 : Server)
    → IsServer sv1
    → (do (place, a) ← worker_step users false false waiting sv; resume users 4 place a)
      ≡ ok (checked p true, sv1)
    → IsAuthReq n name hash key
    → sv1.sessions p ≡ some t
    → t.state ≡ auth
    → IsQueue sv1.queue sv1.sessions xs
    → has p xs ≡ false
    → view sv1.registry (take n name) ≡ none
    → used sv1.registry < registry_max
    → IsOpen stream sv1.net
    → Impostor users stream p (auth_req_packet id n name hash key ++ more) (take n name) key sv
rest-Impostor users stream id {n} {p} {name} {hash} {key} {t} more sv sv1 w right req at st is out
      fresh room o =
    let q = process_auth_req-Queued stream id more req at st (session-IsSession p w at) is out in
    let c = credentials stream n name hash key t in
    let (u, at2, e) = found (q.sv'.sessions p) c q.stored in
    let w2 : IsServer q.sv' =
      Kept-IsServer (Safe-ok (Kept sv1) _ (process_auth_req-Kept stream (some p) _ sv1) q.result)
        w in
    let asked : asked_name u ≡ take n name =
      ap (λ (x : Session). asked_name x) e
      ∙ asked_credentials stream n name hash key t (omega (arith, req.fits, req.name_size)) in
    let (sv3, run, k) =
      resume-Entered users p q.sv' at2 (session-IsSession p w2 at2) w2.registry
        (rw (asked, q.registry) fresh) (rw q.registry room)
        (subst (λ a. IsAnswerable a q.sv'.net) (sym (ap (λ (x : Session). x.auth_stream) e))
          (rw q.net o)) in
    record {
      sv1 = sv1;
      right = right;
      sv2 = q.sv';
      again = q.result;
      sv3 = sv3;
      ends = run;
      login = ap login_of k.user ∙ established-login (session-IsSession p w2 at2) ∙ ap some asked;
      entry =
          ap (view sv3.registry) (sym asked)
          ∙ k.entry
          ∙ ap (λ (x : Session). some (x.auth_stream, x.auth_pubkey)) e;
    }

-- A session in state AUTH is the first in the queue, its connection is open and its credentials are
-- right. While the main thread is between the check of them and `sqmp_registry_add`, the client
-- sends a second AUTH_REQ on an open stream, with a name that is not online (and there is room),
-- and with any hash. The handler takes it, and the session is then logged in and registered under
-- the second name, whose password nobody has checked, with the key and the stream of the second
-- AUTH_REQ.
pub process_auth_req-Impostor :
    (users : Option (List ℕ)) (stream id : ℕ) {n p : ℕ} {name hash key : List ℕ} {s : Session}
    {xs : List ℕ} (more : List ℕ) (sv : Server)
    → IsServer sv
    → IsQueue sv.queue sv.sessions (p ∷ xs)
    → sv.sessions p ≡ some s
    → s.state ≡ auth
    → s.conn_closed ≡ false
    → verify_credentials users (login_name s) s.auth_password_hash ≡ ok true
    → IsAuthReq n name hash key
    → view sv.registry (take n name) ≡ none
    → used sv.registry < registry_max
    → IsOpen stream sv.net
    → Impostor users stream p (auth_req_packet id n name hash key ++ more) (take n name) key sv
unfolding worker_step next_pending
process_auth_req-Impostor users stream id {n} {p} {name} {hash} {key} {s} {xs} more sv w is at st
      live right req fresh room o =
    let (q, h, deq, rest, same) = dequeue-cons is in
    let (t, at1, e) = found (h p) s (same p ∙ ap unlinked at) in
    let sv0 = record sv { queue = q; sessions = h } in
    let w0 = requeued-IsServer q h sv same w in
    let sv1 = record sv0 { sessions = write h p (some (dequeued t)) } in
    rest-Impostor users stream id more sv sv1
      (write-IsServer p (some (dequeued t)) sv0 w0 (touched (session-IsSession p w0 at1))
        (inr (ap login_of (sym at1))))
      (rw deq (
        resume-right users p sv0 at1 (session-IsSession p w0 at1)
          (ap (λ (x : Session). x.conn_closed) e ∙ live)
          (ap (λ (x : Session). verify_credentials users (login_name x) x.auth_password_hash) e
            ∙ right)))
      req (write_self h p (some (dequeued t))) (ap (λ (x : Session). x.state) e ∙ st)
      (IsQueue-write p (some (dequeued t)) is.distinct.0 rest) is.distinct.0 fresh room o
