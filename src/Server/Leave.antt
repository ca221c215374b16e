-- ===== src/Server/Leave.antt =====
-- How a user goes offline: `sqmp_process_bye` and `on_disconnected` of src/server/server.c.
use squimpchat.Base.{
  ℕ, ◌≡◌, ◌≢◌, ◌⊎◌, ap, ◌∙◌, inl, inr, true, false, none, some, List, arith, if◌then◌else◌,
  Bool-cases, Run, ok,
}
use squimpchat.Session.{Session, SessionState, conn_established, closing, is_established, write}
use squimpchat.Registry.{Registry, registry_remove}
use squimpchat.Registry.Names.{IsName}
use squimpchat.Registry.Lookup.{IsRegistry, view, erase}
use squimpchat.Registry.Remove.{registry_remove-erase}
use squimpchat.Net.{conn_get_user_data}
use squimpchat.Server.{Server, session_at, modify_session}
use squimpchat.Server.Shape.{IsSession, name_of, modify_session_lem}
use squimpchat.Server.Handlers.{process_bye}
use squimpchat.Server.Callbacks.{on_disconnected, leave, drop_session}

-- The directory without the name of the session.
pub record Offline (s : Session) (sv : Server) (r : Registry) : Type 0 where
  pub shape : IsRegistry r
  pub without : (j : List ℕ) → view r j ≡ erase (name_of s) (view sv.registry) j

removed :
    {s : Session} (sv : Server)
    → IsSession s
    → IsRegistry sv.registry
    → (r : Registry) × (registry_remove s.username s.username_len sv.registry ≡ ok r)
      × Offline s sv r
removed {s} sv w reg =
    let name : IsName s.username s.username_len = record {
      short = w.name_fits;
      inside = omega (arith, w.name_size, w.name_fits);
    } in
    let (r, e, is, v) = registry_remove-erase reg name in (r, e, record { shape = is; without = v })

-- A BYE from a session that is logged in, of the right shape and on a well-formed registry: its name
-- goes out of the directory, every other name keeps what it has, and its state becomes CLOSING.
-- Nothing else is changed, and nothing is sent.
pub process_bye-Offline :
    {p : ℕ} {s : Session} (sv : Server)
    → sv.sessions p ≡ some s
    → s.state ≡ conn_established
    → IsSession s
    → IsRegistry sv.registry
    → (r : Registry) × (process_bye (some p) sv
        ≡ ok (record sv {
          registry = r;
          sessions = write sv.sessions p (some (record s { state = closing }));
        }))
      × Offline s sv r
unfolding process_bye session_at
process_bye-Offline {p} {s} sv at st w reg =
    let (r, e, is) = removed sv w reg in
    (
      r,
      rw (at, ap is_established st, e)
          (modify_session_lem (λ t. record t { state = closing }) (record sv { registry = r }) at),
      is,
    )

-- What the end of a connection comes to.
pub data Left (p : ℕ) (s : Session) (sv : Server) (x : Run Server) : Type 0 where
  marked :
      s.auth_queued ≡ true
      → x
        ≡ ok (record sv { sessions = write sv.sessions p (some (record s { conn_closed = true })) })
      → Left p s sv x
  logged_out :
      (r : Registry)
      → s.auth_queued ≡ false
      → s.state ≡ conn_established
      → Offline s sv r
      → x ≡ ok (record sv { registry = r; sessions = write sv.sessions p none })
      → Left p s sv x
  freed :
      s.auth_queued ≡ false
      → s.state ≢ conn_established
      → x ≡ ok (record sv { sessions = write sv.sessions p none })
      → Left p s sv x

is_established-cases :
    (a : SessionState)
    → (is_established a ≡ true) × (a ≡ conn_established)
      ⊎ (is_established a ≡ false) × (a ≢ conn_established)
is_established-cases a = ground arith

leave-Left :
    {p : ℕ} {s : Session} (sv : Server)
    → sv.sessions p ≡ some s
    → IsSession s
    → IsRegistry sv.registry
    → Left p s sv (leave p s sv)
unfolding leave drop_session
leave-Left {p} {s} sv at w reg = elim (Bool-cases s.auth_queued) [
  | inl queued ↦ marked queued (
      ap
        (λ b.
          if b
          then modify_session (some p) (λ t. record t { conn_closed = true }) sv
          else drop_session p s sv)
        queued
      ∙ modify_session_lem (λ t. record t { conn_closed = true }) sv at)
  | inr idle ↦ elim (is_established-cases s.state) [
    | inl (on, st) ↦
        let (r, e, is) = removed sv w reg in logged_out r idle st is (rw idle (rw on (rw e)))
    | inr (off, st) ↦ freed idle st (rw idle (rw off))
  ]
]

-- The end of a connection with a session, of the right shape and on a well-formed registry. If the
-- session waits in the queue, it is marked as closed and stays allocated. Otherwise it is freed, and
-- if it was logged in its name, and no other, goes out of the directory. Nothing else is changed.
pub on_disconnected-Left :
    (conn : ℕ) {p : ℕ} {s : Session} (sv : Server)
    → conn_get_user_data conn sv.net ≡ ok (some p)
    → sv.sessions p ≡ some s
    → IsSession s
    → IsRegistry sv.registry
    → Left p s sv (on_disconnected conn sv)
unfolding on_disconnected
on_disconnected-Left conn {p} {s} sv d at w reg = rw (d, at) (leave-Left sv at w reg)
