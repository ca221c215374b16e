-- ===== src/Server/Invariant.antt =====
-- The invariant of the server in the callbacks for connections and streams (src/server/server.c).
use mathlib.Core.Path.{subst}
use squimpchat.Base.{
  ℕ, ◌≡◌, refl, ap, sym, ◌∙◌, if_true, inl, inr, Option, none, some, arith, ◌==◌, if◌then◌else◌,
  Bool-cases, Option-cases, ==_iff, ok, ◌>>=◌, deref, Safe, Safe-bind, Safe-any, Safe-if,
}
use squimpchat.Session.{Session, Sessions, hello, is_established, zero_session, write, modify}
use squimpchat.Queue.Chains.{write_self, write_ne}
use squimpchat.Registry.{registry_remove}
use squimpchat.Registry.Lookup.{IsRegistry, view}
use squimpchat.Registry.Remove.{registry_remove-erase}
use squimpchat.Net.{
  conn_set_user_data, conn_get_user_data, stream_set_user_data, stream_get_user_data,
}
use squimpchat.Server.{Server, modify_session}
use squimpchat.Server.Shape.{name_of, session-IsName, IsSession, touched}
use squimpchat.Server.Exclusive.{
  login_of, IsExclusive, Fewer, Fewer-write, quiet-IsExclusive, erase-IsExclusive,
}
use squimpchat.Server.Kept.{Shaped, IsServer}
use squimpchat.Server.Frozen.{Frozen, Frozen-Exclusive}
use squimpchat.Server.Callbacks.{
  on_connected, on_stream_open, on_stream_closed, on_disconnected, leave, drop_session,
}

pub Frozen-IsServer : {sv sv' : Server} → Frozen sv sv' → IsServer sv → IsServer sv'
Frozen-IsServer f w = record {
  registry = rw f.registry w.registry;
  sessions = λ a. rw f.sessions (w.sessions a);
  logins = Frozen-Exclusive f w.logins;
}

pub write-Shaped :
    (h : Sessions) (p : ℕ) (c : Option Session)
    → ((a : ℕ) → Shaped (h a))
    → Shaped c
    → (a : ℕ) → Shaped (write h p c a)
write-Shaped h p c w k a = elim (Bool-cases (a == p)) [
  | inl eq ↦ rw ((==_iff a p).0 eq) (rw (write_self h p c) k)
  | inr ne ↦ rw (write_ne h p c a ne) (w a)
]

pub write-IsServer :
    (p : ℕ) (c : Option Session) (sv : Server)
    → IsServer sv
    → Shaped c
    → Fewer (sv.sessions p) c
    → IsServer (record sv { sessions = write sv.sessions p c })
write-IsServer p c sv w k f = record {
  registry = w.registry;
  sessions = write-Shaped sv.sessions p c w.sessions k;
  logins = quiet-IsExclusive w.logins (Fewer-write sv.sessions p c f) λ n. refl;
}

pub session-IsSession :
    {sv : Server} (p : ℕ) {s : Session} → IsServer sv → sv.sessions p ≡ some s → IsSession s
session-IsSession p {s} w at = subst Shaped at (w.sessions p)

pub modify_session-IsServer :
    (p : ℕ) (f : Session → Session) (sv : Server)
    → IsServer sv
    → ((s : Session) → IsSession s → IsSession (f s))
    → ((s : Session) → login_of (some (f s)) ≡ login_of (some s))
    → Safe IsServer (modify_session (some p) f sv)
unfolding modify_session modify
modify_session-IsServer p f sv w k same = elim (Option-cases (sv.sessions p)) [
  | inl e ↦ rw e tt
  | inr (s, e) ↦ rw e (
      write-IsServer p (some (f s)) sv w (k s (session-IsSession p w e))
        (inr (same s ∙ ap login_of (sym e))))
]

zero_session-IsSession : IsSession (record zero_session { state = hello })
zero_session-IsSession = record {
  name_size = refl;
  name_fits = omega arith;
  auth_name_size = refl;
  auth_name_fits = omega arith;
  hash_size = refl;
  key_size = refl;
}

pub on_connected-IsServer :
    (conn : ℕ) (alloc : Option ℕ) (sv : Server)
    → IsServer sv
    → Safe IsServer (on_connected conn alloc sv)
unfolding on_connected
on_connected-IsServer conn none sv w = w
on_connected-IsServer conn (some p) sv w =
    Safe-any IsServer (conn_set_user_data conn (some p) sv.net) _ λ n. record {
      registry = w.registry;
      sessions = write-Shaped sv.sessions p _ w.sessions zero_session-IsSession;
      logins = quiet-IsExclusive w.logins (Fewer-write sv.sessions p _ (inl refl)) λ j. refl;
    }

pub on_stream_open-IsServer :
    (conn stream : ℕ) (sv : Server) → IsServer sv → Safe IsServer (on_stream_open conn stream sv)
unfolding on_stream_open
on_stream_open-IsServer conn stream sv w = Safe-any IsServer (conn_get_user_data conn sv.net) _ λ d.
    Safe-any IsServer (stream_set_user_data stream d sv.net) _
      λ n. record { registry = w.registry; sessions = w.sessions; logins = w.logins }

pub on_stream_closed-IsServer :
    (stream : ℕ) (sv : Server) → IsServer sv → Safe IsServer (on_stream_closed stream sv)
unfolding on_stream_closed
on_stream_closed-IsServer stream sv w =
    Safe-any IsServer (stream_get_user_data stream sv.net) _ λ d. cleared d
  where
    cleared :
        (d : Option ℕ)
        → Safe IsServer (elim d [
          | none ↦ ok sv
          | some p ↦ modify_session (some p) (λ s. record s { auth_stream = none }) sv
        ])
    cleared none = w
    cleared (some p) = modify_session-IsServer p _ sv w (λ s k. touched k) λ s. refl

dropped :
    (p : ℕ) {s : Session} (sv : Server)
    → IsServer sv
    → IsSession s
    → sv.sessions p ≡ some s
    → Safe IsServer (drop_session p s sv)
unfolding drop_session
dropped p {s} sv w k at =
    Safe-bind (λ r. IsRegistry r × IsExclusive (write sv.sessions p none) (view r)) IsServer
      (if is_established s.state
        then registry_remove s.username s.username_len sv.registry
        else ok sv.registry)
      _
      (elim (Bool-cases (is_established s.state)) [
        | inl st ↦
            let (r, e, is, gone) = registry_remove-erase w.registry (session-IsName k) in
            rw (st, e)
              (
                is,
                erase-IsExclusive p none (name_of s) w.logins (ap login_of at ∙ if_true _ _ st) refl
                    gone,
              )
        | inr no_user ↦ rw no_user (
          w.registry,
          quiet-IsExclusive w.logins (Fewer-write sv.sessions p none (inl refl)) λ n. refl,
        )
      ])
      λ r is. record {
        registry = is.0;
        sessions = write-Shaped sv.sessions p none w.sessions tt;
        logins = is.1;
      }

pub on_disconnected-IsServer :
    (conn : ℕ) (sv : Server) → IsServer sv → Safe IsServer (on_disconnected conn sv)
unfolding on_disconnected leave
on_disconnected-IsServer conn sv w =
    Safe-any IsServer (conn_get_user_data conn sv.net) _ λ d. gone d
  where
    gone :
        (d : Option ℕ)
        → Safe IsServer
            (elim d [ none ↦ ok sv | some p ↦ (do s ← deref (sv.sessions p); leave p s sv) ])
    gone none = w
    gone (some p) = elim (Option-cases (sv.sessions p)) [
      | inl e ↦ rw e tt
      | inr (s, e) ↦ rw e (
          Safe-if IsServer s.auth_queued _ _
            (modify_session-IsServer p _ sv w (λ t k. touched k) λ t. refl)
            (dropped p sv w (session-IsSession p w e) e))
    ]
