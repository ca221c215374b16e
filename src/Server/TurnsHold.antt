-- ===== src/Server/TurnsHold.antt =====
-- The invariant of the server and the main thread in each step of the main loop (src/server/server.c).
use mathlib.Core.Path.{subst}
use squimpchat.Base.{
  ℕ, ◌≡◌, ◌≢◌, refl, ap, sym, ◌∙◌, inl, inr, Bool, true, false, Option, none, some, List, bytes_eq,
  bytes_eq_refl, eq_of_bytes_eq, Bool-cases, Option-cases, zeros, memcpy, deref, ok, ◌>>=◌,
  Run-cases, Safe, Safe-bind, Safe-any, Safe-if,
}
use squimpchat.Session.{Session, Sessions, write}
use squimpchat.Queue.{Dequeued, waits, null, session, auth_queue_dequeue}
use squimpchat.Queue.Chains.{SameBut}
use squimpchat.Queue.Links.{auth_queue_dequeue-SameBut}
use squimpchat.Registry.{Scan, add_scan, store, registry_add}
use squimpchat.Registry as R
use squimpchat.Registry.Lookup.{Directory, Online, insert, erase}
use squimpchat.Registry.Insert.{Added, refused, accepted, registry_add-Added}
use squimpchat.Server.{Server, modify_session}
use squimpchat.Server.Shape.{touched}
use squimpchat.Server.Exclusive.{login_of, IsExclusive, Unclaimed, insert-IsExclusive}
use squimpchat.Server.Kept.{IsServer}
use squimpchat.Server.Invariant.{
  session-IsSession, write-IsServer, write-Shaped, modify_session-IsServer,
}
use squimpchat.Server.Login.{asked_name, asked-IsName, established, establish_lem}
use squimpchat.Server.Passes.{
  requeued-IsServer, established-login, established-IsSession, answer_login-IsServer,
}
use squimpchat.Server.Users.{c_string, verify_credentials}
use squimpchat.Server.Worker.{answer_login}
use squimpchat.Server.Turns.{
  Place, waiting, taken, cleared, alive, named, checked, scanned, added, answering, sending, ended,
  place_of, next_pending, clear_queued, test_closed, copy_name, check_hash_of, register,
  write_entry, admit, read_stream, answer_pending, worker_step,
}
use squimpchat.Server.Moves.{Reserved, Holds}

-- In a directory that has the name, and where nobody is logged in under it, a session logs in.
claim-IsExclusive :
    {h : Sessions} {d : Directory} (p : ℕ) (c : Option Session) (n : List ℕ)
    → IsExclusive h d
    → d n ≢ none
    → Unclaimed n h
    → login_of c ≡ some n
    → IsExclusive (write h p c) d
claim-IsExclusive {h} {d} p c n w has free is = elim (Option-cases (d n)) [
  | inl e ↦ absurd (has e)
  | inr (v, e) ↦
      insert-IsExclusive {d = erase n d} p c n v
        (record {
          online = λ a j f. elim (Bool-cases (bytes_eq n j)) [
            | inl eq ↦ absurd (free a (f ∙ ap some (sym (eq_of_bytes_eq n j eq))))
            | inr ne ↦ rw ne (w.online a j f)
          ];
          single = w.single;
        })
        (rw (bytes_eq_refl n) refl) is
        λ j. elim (Bool-cases (bytes_eq n j)) [
          | inl eq ↦ rw eq (ap d (sym (eq_of_bytes_eq n j eq)) ∙ e)
          | inr ne ↦ rw ne refl
        ]
]

-- A new name in the directory, under which nobody is logged in.
reserve-IsExclusive :
    {h : Sessions} {d d' : Directory} (n : List ℕ) (v : Online)
    → IsExclusive h d
    → ((j : List ℕ) → d' j ≡ insert n v d j)
    → IsExclusive h d'
reserve-IsExclusive n v w more = record {
  online = λ a j f. elim (Bool-cases (bytes_eq n j)) [
    | inl eq ↦ rw (more j, eq) (λ x. cc)
    | inr ne ↦ rw (more j, ne) (w.online a j f)
  ];
  single = w.single;
}

next_pending-Holds :
    (stop interrupted : Bool) (sv : Server)
    → IsServer sv
    → Safe (λ r. Holds r.0 r.1) (next_pending stop interrupted sv)
unfolding next_pending
next_pending-Holds true interrupted sv w = (w, tt)
next_pending-Holds false interrupted sv w =
    Safe-bind (λ r. SameBut sv.sessions r.2) (λ r. Holds r.0 r.1)
      (auth_queue_dequeue interrupted sv.queue sv.sessions) _
      (auth_queue_dequeue-SameBut interrupted sv.queue sv.sessions)
      λ r same. (
        requeued-IsServer r.1 r.2 sv same w,
        unreserved r.0 (record sv { queue = r.1; sessions = r.2 }),
      )
  where
    unreserved : (d : Dequeued) (sv1 : Server) → Reserved (place_of d) sv1
    unreserved waits sv1 = tt
    unreserved null sv1 = tt
    unreserved (session p) sv1 = tt

clear_queued-Holds :
    (p : ℕ) (sv : Server) → IsServer sv → Safe (λ r. Holds r.0 r.1) (clear_queued p sv)
unfolding clear_queued
clear_queued-Holds p sv w =
    Safe-bind IsServer (λ r. Holds r.0 r.1)
      (modify_session (some p) (λ s. record s { auth_queued = false }) sv) _
      (modify_session-IsServer p _ sv w (λ s k. touched k) λ s. refl) λ sv1 v. (v, tt)

test_closed-Holds :
    (p : ℕ) (sv : Server) → IsServer sv → Safe (λ r. Holds r.0 r.1) (test_closed p sv)
unfolding test_closed
test_closed-Holds p sv w =
    Safe-any (λ r. Holds r.0 r.1) (deref (sv.sessions p)) _
      λ s.
        Safe-if (λ r. Holds r.0 r.1) s.conn_closed _ _
          (write-IsServer p none sv w tt (inl refl), tt) (w, tt)

copy_name-Holds : (p : ℕ) (sv : Server) → IsServer sv → Safe (λ r. Holds r.0 r.1) (copy_name p sv)
unfolding copy_name
copy_name-Holds p sv w =
    Safe-any (λ r. Holds r.0 r.1) (deref (sv.sessions p)) _
      λ s.
        Safe-any (λ r. Holds r.0 r.1) (memcpy (zeros 33) s.auth_username s.auth_username_len) _
          λ name. (w, tt)

check_hash_of-Holds :
    (users : Option (List ℕ)) (p : ℕ) (username : List ℕ) (sv : Server)
    → IsServer sv
    → Safe (λ r. Holds r.0 r.1) (check_hash_of users p username sv)
unfolding check_hash_of
check_hash_of-Holds users p username sv w =
    Safe-any (λ r. Holds r.0 r.1) (deref (sv.sessions p)) _
      λ s.
        Safe-any (λ r. Holds r.0 r.1)
          (verify_credentials users (c_string username) s.auth_password_hash) _ λ right. (w, tt)

register-Holds :
    (p : ℕ) (right : Bool) (sv : Server)
    → IsServer sv
    → Safe (λ r. Holds r.0 r.1) (register p right sv)
unfolding register
register-Holds p false sv w = (w, tt)
register-Holds p true sv w = elim (Option-cases (sv.sessions p)) [
  | inl e ↦ rw e tt
  | inr (s, at) ↦
      rw at (elim (Run-cases (add_scan 0 none sv.registry s.auth_username s.auth_username_len)) [
        | inl f ↦ rw f tt
        | inr (scan, f) ↦ rw f (w, (s, at, refl, f))
      ])
]

-- The rest of `sqmp_registry_add`, behind its scan.
store-Added :
    {p : ℕ} {s : Session} {sv : Server} {scan : Scan} (stream : Option ℕ)
    → IsServer sv
    → sv.sessions p ≡ some s
    → add_scan 0 none sv.registry s.auth_username s.auth_username_len ≡ ok scan
    → Added sv.registry
        (asked_name s)
        (stream, s.auth_pubkey)
        (store sv.registry scan s.auth_username s.auth_username_len stream s.auth_pubkey)
unfolding registry_add
store-Added {p} {s} {sv} stream w at is =
    let k = session-IsSession p w at in
    let done = registry_add-Added stream w.registry (asked-IsName k) k.key_size in
    subst
      (λ x.
        Added sv.registry (asked_name s) (stream, s.auth_pubkey)
          (x >>= λ scan.
            store sv.registry scan s.auth_username s.auth_username_len stream s.auth_pubkey))
      is done

write_entry-Holds :
    (p ulen : ℕ) (stream : Option ℕ) (scan : Scan) (sv : Server)
    → Holds (scanned p ulen stream scan) sv
    → Safe (λ r. Holds r.0 r.1) (write_entry p ulen stream scan sv)
unfolding write_entry
write_entry-Holds p ulen stream R.taken sv (w, h) = (w, tt)
write_entry-Holds p ulen stream (R.free none) sv (w, h) = (w, tt)
write_entry-Holds p ulen stream (R.free (some slot)) sv (w, (s, at, len, is)) =
    elim (store-Added {scan = R.free (some slot)} stream w at (rw len is)) [
      | refused why done ↦ rw (at, sym len, done) (w, tt)
      | accepted r fresh room done wr more one ↦
          rw (at, sym len, done)
            (
              record {
                registry = wr;
                sessions = w.sessions;
                logins = reserve-IsExclusive (asked_name s) (stream, s.auth_pubkey) w.logins more;
              },
              (
                s,
                at,
                rw (more (asked_name s), bytes_eq_refl (asked_name s)) (λ x. cc),
                λ a f. w.logins.online a (asked_name s) f fresh,
              ),
            )
    ]

admit-Holds : (p : ℕ) (sv : Server) → Holds (added p) sv → Safe (λ r. Holds r.0 r.1) (admit p sv)
unfolding admit
admit-Holds p sv (w, (s, at, has, free)) =
    let k = session-IsSession p w at in
    rw (at, establish_lem p sv at k)
      (
        record {
          registry = w.registry;
          sessions =
              write-Shaped sv.sessions p (some (established s)) w.sessions
                (established-IsSession k);
          logins =
              claim-IsExclusive p (some (established s)) (asked_name s) w.logins has free
                (established-login k);
        },
        tt,
      )

answer_pending-Holds :
    (p : ℕ) (granted : Bool) (stream : Option ℕ) (sv : Server)
    → IsServer sv
    → Safe (λ r. Holds r.0 r.1) (answer_pending p granted stream sv)
unfolding answer_pending
answer_pending-Holds p granted stream sv w =
    Safe-bind IsServer (λ r. Holds r.0 r.1) (answer_login p stream granted sv) _
      (answer_login-IsServer p stream granted sv w) λ sv1 v. (v, tt)

read_stream-Holds :
    (p : ℕ) (granted : Bool) (sv : Server)
    → IsServer sv
    → Safe (λ r. Holds r.0 r.1) (read_stream p granted sv)
unfolding read_stream
read_stream-Holds p granted sv w =
    Safe-any (λ r. Holds r.0 r.1) (deref (sv.sessions p)) _ λ s. (w, tt)

pub worker_step-Holds :
    (users : Option (List ℕ)) (stop interrupted : Bool) (place : Place) (sv : Server)
    → Holds place sv
    → Safe (λ r. Holds r.0 r.1) (worker_step users stop interrupted place sv)
unfolding worker_step
worker_step-Holds users stop interrupted waiting sv h = next_pending-Holds stop interrupted sv h.0
worker_step-Holds users stop interrupted (taken p) sv h = clear_queued-Holds p sv h.0
worker_step-Holds users stop interrupted (cleared p) sv h = test_closed-Holds p sv h.0
worker_step-Holds users stop interrupted (alive p) sv h = copy_name-Holds p sv h.0
worker_step-Holds users stop interrupted (named p username) sv h =
    check_hash_of-Holds users p username sv h.0
worker_step-Holds users stop interrupted (checked p right) sv h = register-Holds p right sv h.0
worker_step-Holds users stop interrupted (scanned p ulen stream scan) sv h =
    write_entry-Holds p ulen stream scan sv h
worker_step-Holds users stop interrupted (added p) sv h = admit-Holds p sv h
worker_step-Holds users stop interrupted (answering p granted) sv h =
    read_stream-Holds p granted sv h.0
worker_step-Holds users stop interrupted (sending p granted stream) sv h =
    answer_pending-Holds p granted stream sv h.0
worker_step-Holds users stop interrupted ended sv h = h
