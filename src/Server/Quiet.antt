-- ===== src/Server/Quiet.antt =====
-- What MsQuic's threads leave as it is at the server (the callbacks of src/server/server.c): nobody
-- logs in, and the names under which nobody is logged in stay in the directory, or out of it.
use squimpchat.Base.{
  ℕ, ◌≡◌, refl, ap, ◌∙◌, sym, inl, inr, Option, none, some, List, if◌then◌else◌, if_true,
  Bool-cases, Option-cases, ok, ◌>>=◌, deref, Safe, Safe-bind, Safe-any, Safe-if, Safe-ok,
}
use squimpchat.Session.{Session, is_established, write, modify}
use squimpchat.Registry.{registry_remove}
use squimpchat.Registry.Lookup.{view}
use squimpchat.Registry.Remove.{registry_remove-erase}
use squimpchat.Net.{
  Net, conn_set_user_data, conn_get_user_data, stream_set_user_data, stream_get_user_data,
}
use squimpchat.Server.{Server, modify_session}
use squimpchat.Server.Shape.{name_of, session-IsName}
use squimpchat.Server.Exclusive.{
  login_of, Unclaimed, Spares, erased-Unclaimed, Fewer, Fewer-refl, Fewer-write,
}
use squimpchat.Server.Kept.{IsServer, Kept, Fewer-Turned}
use squimpchat.Server.Invariant.{session-IsSession}
use squimpchat.Server.Received.{stream_cb_receive-Safe}
use squimpchat.Server.Callbacks.{
  on_connected, on_stream_open, on_stream_closed, on_disconnected, leave, drop_session,
}
use squimpchat.Server.Steps.{
  Step, connected, stream_opened, received, stream_closed, disconnected, worked, stopped, network,
}

-- The server before and after a callback.
pub record Quiet (sv sv' : Server) : Type 0 where
  pub fewer : (a : ℕ) → Fewer (sv.sessions a) (sv'.sessions a)
  pub spares : Spares sv sv'

net-Quiet : (sv : Server) (n : Net) → Quiet sv (record sv { net = n })
net-Quiet sv n = record { fewer = λ a. Fewer-refl (sv.sessions a); spares = λ j out. refl }

-- One session changes, and nobody logs in.
write-Quiet :
    (p : ℕ) (c : Option Session) (n : Net) (sv : Server)
    → Fewer (sv.sessions p) c
    → Quiet sv (record sv { sessions = write sv.sessions p c; net = n })
write-Quiet p c n sv f = record { fewer = Fewer-write sv.sessions p c f; spares = λ j out. refl }

Kept-Quiet : {sv sv' : Server} → Kept sv sv' → IsServer sv → Quiet sv sv'
Kept-Quiet {sv} {sv'} k w = record {
  fewer = λ a. Fewer-Turned (sv.sessions a) (sv'.sessions a) (k.sessions a);
  spares = k.spared w;
}

modify_session-Quiet :
    (p : ℕ) (f : Session → Session) (sv : Server)
    → ((s : Session) → login_of (some (f s)) ≡ login_of (some s))
    → Safe (Quiet sv) (modify_session (some p) f sv)
unfolding modify_session modify
modify_session-Quiet p f sv same = elim (Option-cases (sv.sessions p)) [
  | inl e ↦ rw e tt
  | inr (s, e) ↦ rw e (write-Quiet p (some (f s)) sv.net sv (inr (same s ∙ ap login_of (sym e))))
]

on_connected-Quiet :
    (conn : ℕ) (alloc : Option ℕ) (sv : Server) → Safe (Quiet sv) (on_connected conn alloc sv)
unfolding on_connected
on_connected-Quiet conn none sv = net-Quiet sv sv.net
on_connected-Quiet conn (some p) sv =
    Safe-any (Quiet sv) (conn_set_user_data conn (some p) sv.net) _
      λ n. write-Quiet p _ n sv (inl refl)

on_stream_open-Quiet :
    (conn stream : ℕ) (sv : Server) → Safe (Quiet sv) (on_stream_open conn stream sv)
unfolding on_stream_open
on_stream_open-Quiet conn stream sv =
    Safe-any (Quiet sv) (conn_get_user_data conn sv.net) _
      λ d. Safe-any (Quiet sv) (stream_set_user_data stream d sv.net) _ λ n. net-Quiet sv n

on_stream_closed-Quiet : (stream : ℕ) (sv : Server) → Safe (Quiet sv) (on_stream_closed stream sv)
unfolding on_stream_closed
on_stream_closed-Quiet stream sv =
    Safe-any (Quiet sv) (stream_get_user_data stream sv.net) _ λ d. cleared d
  where
    cleared :
        (d : Option ℕ)
        → Safe (Quiet sv) (elim d [
          | none ↦ ok sv
          | some p ↦ modify_session (some p) (λ s. record s { auth_stream = none }) sv
        ])
    cleared none = net-Quiet sv sv.net
    cleared (some p) = modify_session-Quiet p _ sv λ s. refl

drop_session-Quiet :
    (p : ℕ) {s : Session} (sv : Server)
    → IsServer sv
    → sv.sessions p ≡ some s
    → Safe (Quiet sv) (drop_session p s sv)
unfolding drop_session
drop_session-Quiet p {s} sv w at =
    Safe-bind (λ r. (j : List ℕ) → Unclaimed j sv.sessions → view r j ≡ view sv.registry j)
      (Quiet sv)
      (if is_established s.state
        then registry_remove s.username s.username_len sv.registry
        else ok sv.registry)
      _
      (elim (Bool-cases (is_established s.state)) [
        | inl st ↦
            let (r, e, is, gone) =
              registry_remove-erase w.registry (session-IsName (session-IsSession p w at)) in
            rw (st, e)
              (erased-Unclaimed sv.sessions (view sv.registry) p (name_of s)
                (ap login_of at ∙ if_true _ _ st) gone)
        | inr no_user ↦ rw no_user (λ j out. refl)
      ])
      λ r spares. record { fewer = Fewer-write sv.sessions p none (inl refl); spares = spares }

on_disconnected-Quiet :
    (conn : ℕ) (sv : Server) → IsServer sv → Safe (Quiet sv) (on_disconnected conn sv)
unfolding on_disconnected leave
on_disconnected-Quiet conn sv w = Safe-any (Quiet sv) (conn_get_user_data conn sv.net) _ λ d. gone d
  where
    gone :
        (d : Option ℕ)
        → Safe
            (Quiet sv)
            (elim d [ none ↦ ok sv | some p ↦ (do s ← deref (sv.sessions p); leave p s sv) ])
    gone none = net-Quiet sv sv.net
    gone (some p) = elim (Option-cases (sv.sessions p)) [
      | inl e ↦ rw e tt
      | inr (s, e) ↦ rw e (
          Safe-if (Quiet sv) s.auth_queued _ _ (modify_session-Quiet p _ sv λ t. refl)
            (drop_session-Quiet p sv w e))
    ]

-- The step is not one of the main loop.
abbrev pub OfCallback : {sv sv' : Server} → Step sv sv' → Type 0
OfCallback (connected conn alloc new e) = Unit
OfCallback (stream_opened conn stream e) = Unit
OfCallback (received stream buffers e) = Unit
OfCallback (stream_closed stream e) = Unit
OfCallback (disconnected conn e) = Unit
OfCallback (worked users stop interrupted pass e) = ⊥
OfCallback (stopped stop e) = ⊥
OfCallback (network n e) = Unit

pub Step-Quiet :
    {sv sv' : Server} (step : Step sv sv') → OfCallback step → IsServer sv → Quiet sv sv'
Step-Quiet {sv} (connected conn alloc new e) o w =
    Safe-ok (Quiet sv) _ (on_connected-Quiet conn alloc sv) e
Step-Quiet {sv} (stream_opened conn stream e) o w =
    Safe-ok (Quiet sv) _ (on_stream_open-Quiet conn stream sv) e
Step-Quiet {sv} (received stream buffers e) o w =
    Kept-Quiet (Safe-ok (Kept sv) _ (stream_cb_receive-Safe stream buffers sv) e) w
Step-Quiet {sv} (stream_closed stream e) o w =
    Safe-ok (Quiet sv) _ (on_stream_closed-Quiet stream sv) e
Step-Quiet {sv} (disconnected conn e) o w = Safe-ok (Quiet sv) _ (on_disconnected-Quiet conn sv w) e
Step-Quiet {sv} (worked users stop interrupted pass e) o w = absurd o
Step-Quiet {sv} (stopped stop e) o w = absurd o
Step-Quiet {sv} (network n e) o w = rw e (net-Quiet sv n)
