-- ===== src/Server/Kept.antt =====
-- The invariant of the server (src/server/server.c), and the relation between the server before and
-- after a packet: the sizes of arrays, the registry, and the states of the sessions.
use mathlib.Core.Path.{subst}
use squimpchat.Base.{
  ℕ, ◌≡◌, refl, ◌∙◌, ap, sym, inl, inr, Option, none, some, ◌==◌, Bool-cases, ==_iff,
}
use squimpchat.Session.{
  Session, SessionState, Sessions, hello, auth, conn_established, closing, write,
}
use squimpchat.Queue.{set_next}
use squimpchat.Queue.Chains.{unlinked, write_self, write_ne}
use squimpchat.Registry.Lookup.{IsRegistry}
use squimpchat.Server.{Server}
use squimpchat.Server.Shape.{IsSession, touched}
use squimpchat.Server.Exclusive.{
  login_of, Exclusive, Spares, Unclaimed-Fewer, Fewer, Fewer-refl, Fewer-trans,
}

-- How a packet may change the state of a session.
pub data Allowed : SessionState → SessionState → Type 0 where
  same : {a : SessionState} → Allowed a a
  greeted : Allowed hello auth
  left : Allowed conn_established closing

-- A session and what a packet made of it; no packet allocates or frees a session.
abbrev pub Turned : Option Session → Option Session → Type 0
Turned none none = Unit
Turned none (some t) = ⊥
Turned (some s) none = ⊥
Turned (some s) (some t) =
    Allowed s.state t.state × (IsSession s → IsSession t) × Fewer (some s) (some t)

abbrev pub Shaped : Option Session → Type 0
Shaped none = Unit
Shaped (some s) = IsSession s

-- The invariant of the server.
pub record IsServer (sv : Server) : Type 0 where
  pub registry : IsRegistry sv.registry
  pub sessions : (a : ℕ) → Shaped (sv.sessions a)
  pub logins : Exclusive sv

pub record Kept (sv sv' : Server) : Type 0 where
  pub sessions : (a : ℕ) → Turned (sv.sessions a) (sv'.sessions a)
  pub registry : IsServer sv → IsRegistry sv'.registry
  pub logins : IsServer sv → Exclusive sv'
  pub spared : IsServer sv → Spares sv sv'

Allowed-trans : {a b c : SessionState} → Allowed a b → Allowed b c → Allowed a c
Allowed-trans same k = k
Allowed-trans greeted same = greeted
Allowed-trans left same = left

pub Turned-refl : (o : Option Session) → Turned o o
Turned-refl none = tt
Turned-refl (some s) = (same, (λ h. h), Fewer-refl (some s))

pub Turned-trans : (x y z : Option Session) → Turned x y → Turned y z → Turned x z
Turned-trans none none none h k = tt
Turned-trans none none (some t) h k = k
Turned-trans none (some s) z h k = absurd h
Turned-trans (some s) none z h k = absurd h
Turned-trans (some s) (some t) none h k = k
Turned-trans (some s) (some t) (some u) h k =
    (Allowed-trans h.0 k.0, (λ w. k.1 (h.1 w)), Fewer-trans (some s) (some t) (some u) h.2 k.2)

pub Fewer-Turned : (x y : Option Session) → Turned x y → Fewer x y
Fewer-Turned none none h = Fewer-refl none
Fewer-Turned none (some t) h = absurd h
Fewer-Turned (some s) none h = absurd h
Fewer-Turned (some s) (some t) h = h.2

pub Shaped-Turned : (x y : Option Session) → Turned x y → Shaped x → Shaped y
Shaped-Turned none none h w = tt
Shaped-Turned none (some t) h w = absurd h
Shaped-Turned (some s) none h w = absurd h
Shaped-Turned (some s) (some t) h w = h.1 w

pub Kept-IsServer : {sv sv' : Server} → Kept sv sv' → IsServer sv → IsServer sv'
Kept-IsServer {sv} {sv'} k w = record {
  registry = k.registry w;
  sessions = λ a. Shaped-Turned (sv.sessions a) (sv'.sessions a) (k.sessions a) (w.sessions a);
  logins = k.logins w;
}

pub Kept-refl : (sv : Server) → Kept sv sv
Kept-refl sv = record {
  sessions = λ a. Turned-refl (sv.sessions a);
  registry = λ w. w.registry;
  logins = λ w. w.logins;
  spared = λ w n out. refl;
}

pub Kept-trans : {a b c : Server} → Kept a b → Kept b c → Kept a c
Kept-trans {a} {b} {c} h k = record {
  sessions =
      λ p. Turned-trans (a.sessions p) (b.sessions p) (c.sessions p) (h.sessions p) (k.sessions p);
  registry = λ w. k.registry (Kept-IsServer h w);
  logins = λ w. k.logins (Kept-IsServer h w);
  spared = λ w n out.
      k.spared (Kept-IsServer h w) n (
        Unclaimed-Fewer n a.sessions b.sessions
          (λ p. Fewer-Turned (a.sessions p) (b.sessions p) (h.sessions p)) out)
      ∙ h.spared w n out;
}

-- One change to one session.
pub Turned-write :
    (h : Sessions) (p : ℕ) {s : Session} (t : Session)
    → h p ≡ some s
    → Turned (some s) (some t)
    → (a : ℕ) → Turned (h a) (write h p (some t) a)
Turned-write h p {s} t at turn a = elim (Bool-cases (a == p)) [
  | inl eq ↦ rw ((==_iff a p).0 eq) (rw (write_self h p (some t), at) turn)
  | inr ne ↦ rw (write_ne h p (some t) a ne) (Turned-refl (h a))
]

unlinked-injective :
    (s t : Session) → unlinked (some t) ≡ unlinked (some s) → set_next none t ≡ set_next none s
unlinked-injective s t e = cc

pub Turned-unlinked : (x y : Option Session) → unlinked y ≡ unlinked x → Turned x y
Turned-unlinked none none e = tt
Turned-unlinked none (some t) e = cc
Turned-unlinked (some s) none e = cc
Turned-unlinked (some s) (some t) e =
    let f = unlinked-injective s t e in
    (
      subst (Allowed s.state) (sym (ap (λ (u : Session). u.state) f)) same,
      (λ w. touched {n = t.next} (subst IsSession (sym f) (touched w))),
      inr (ap (λ (u : Session). login_of (some u)) f),
    )
