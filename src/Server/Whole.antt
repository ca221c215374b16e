-- ===== src/Server/Whole.antt =====
-- The login in the main loop (src/server/server.c) from the check of the credentials on, if nobody
-- interrupts it.
use squimpchat.Base.{
  ℕ, suc, Run-cases, ◌≡◌, refl, ◌∙◌, Bool, true, false, Option, none, some, if◌then◌else◌, List,
  inl, inr, Option-cases, Run, ok, ◌>>=◌, deref,
}
use squimpchat.Session.{Session}
use squimpchat.Registry.{Scan, free, add_scan, store, registry_add}
use squimpchat.Registry as R
use squimpchat.Server.{Server}
use squimpchat.Server.Worker.{establish, login, answer_login}
use squimpchat.Server.Turns.{
  Place, waiting, checked, scanned, added, answering, register, write_entry, admit, read_stream,
  answer_pending, worker_step, resume,
}

-- The login is answered, and the thread is back at the queue.
abbrev back : Server → Run (Place × Server)
back sv = ok (waiting, sv)

resume-answering :
    (users : Option (List ℕ)) (k p : ℕ) (granted : Bool) (sv : Server)
    → resume users (suc (suc k)) (answering p granted) sv
      ≡ (do t ← deref (sv.sessions p); sv1 ← answer_login p t.auth_stream granted sv; back sv1)
unfolding resume worker_step read_stream answer_pending
resume-answering users k p granted sv = elim (Option-cases (sv.sessions p)) [
  | inl e ↦ rw e refl
  | inr (t, e) ↦ elim (Run-cases (answer_login p t.auth_stream granted sv)) [
    | inl f ↦ rw (e, f) refl
    | inr (sv1, f) ↦ rw (e, f) refl
  ]
]

resume-added :
    (users : Option (List ℕ)) (k p : ℕ) {s : Session} (sv : Server)
    → sv.sessions p ≡ some s
    → resume users (suc (suc (suc k))) (added p) sv ≡ (do
      sv1 ← establish p s sv
      t ← deref (sv1.sessions p)
      sv2 ← answer_login p t.auth_stream true sv1
      back sv2)
unfolding resume worker_step admit
resume-added users k p {s} sv at = elim (Run-cases (establish p s sv)) [
  | inl f ↦ rw (at, f) refl
  | inr (sv1, f) ↦ rw (at, f) (resume-answering users k p true sv1)
]

resume-scanned :
    (users : Option (List ℕ)) (k p : ℕ) (scan : Scan) {s : Session} (sv : Server)
    → sv.sessions p ≡ some s
    → resume users (suc (suc (suc (suc k)))) (scanned p s.auth_username_len s.auth_stream scan) sv
      ≡ (do
        (accepted, sv1) ← (do
          (done, r) ←
              store sv.registry scan s.auth_username s.auth_username_len s.auth_stream s.auth_pubkey
          if done
              then (do sv1 ← establish p s (record sv { registry = r }); ok (true, sv1))
              else ok (false, sv))
        t ← deref (sv1.sessions p)
        sv2 ← answer_login p t.auth_stream accepted sv1
        back sv2)
unfolding resume worker_step write_entry store
resume-scanned users k p R.taken sv at = resume-answering users (suc k) p false sv
resume-scanned users k p (free none) sv at = resume-answering users (suc k) p false sv
resume-scanned users k p (free (some slot)) {s} sv at =
    elim (Run-cases (
      store sv.registry (free (some slot)) s.auth_username s.auth_username_len s.auth_stream
        s.auth_pubkey)) [
          | inl f ↦ rw (at, f) refl
          | inr ((false, r), f) ↦ rw (at, f) (resume-answering users (suc k) p false sv)
          | inr ((true, r), f) ↦
              rw (at, f)
                (resume-added users k p (record sv { registry = r }) at
                  ∙ elim (Run-cases (establish p s (record sv { registry = r }))) [
                    | inl g ↦ rw g refl
                    | inr (sv1, g) ↦ rw g refl
                  ])
        ]

pub resume-checked :
    (users : Option (List ℕ)) (k p : ℕ) (right : Bool) {s : Session} (sv : Server)
    → sv.sessions p ≡ some s
    → resume users (suc (suc (suc (suc (suc k))))) (checked p right) sv ≡ (do
      (accepted, sv1) ← login p s right sv
      t ← deref (sv1.sessions p)
      sv2 ← answer_login p t.auth_stream accepted sv1
      back sv2)
unfolding resume worker_step register login registry_add
resume-checked users k p false sv at = resume-answering users (suc (suc k)) p false sv
resume-checked users k p true {s} sv at =
    elim (Run-cases (add_scan 0 none sv.registry s.auth_username s.auth_username_len)) [
      | inl f ↦ rw (at, f) refl
      | inr (scan, f) ↦ rw (at, f) (resume-scanned users k p scan sv at)
    ]
