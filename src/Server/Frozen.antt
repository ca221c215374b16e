-- ===== src/Server/Frozen.antt =====
-- The steps of the server (src/server/server.c) that use the network and nothing else.
-- `sqmp_process_key_req` and `sqmp_process_chat_send`.
use mathlib.Core.Path.{subst}
use squimpchat.Base.{ap, ◌≡◌, refl, sym, ◌∙◌}
use squimpchat.Net.{Net}
use squimpchat.Server.{Server}
use squimpchat.Registry.Lookup.{view}
use squimpchat.Server.Exclusive.{IsExclusive, Exclusive}
use squimpchat.Server.Kept.{Kept, Turned-refl}

-- Only the network is changed.
pub record Frozen (sv sv' : Server) : Type 0 where
  pub sessions : sv'.sessions ≡ sv.sessions
  pub registry : sv'.registry ≡ sv.registry
  pub queue : sv'.queue ≡ sv.queue
  pub counter : sv'.next_session_id ≡ sv.next_session_id

pub Frozen-net : (sv : Server) (n : Net) → Frozen sv (record sv { net = n })
Frozen-net sv n = record { sessions = refl; registry = refl; queue = refl; counter = refl }

pub Frozen-trans : {a b c : Server} → Frozen a b → Frozen b c → Frozen a c
Frozen-trans h k = record {
  sessions = k.sessions ∙ h.sessions;
  registry = k.registry ∙ h.registry;
  queue = k.queue ∙ h.queue;
  counter = k.counter ∙ h.counter;
}

pub Frozen-Exclusive : {sv sv' : Server} → Frozen sv sv' → Exclusive sv → Exclusive sv'
Frozen-Exclusive {sv} {sv'} f e =
    subst (λ h. IsExclusive h (view sv'.registry)) (sym f.sessions)
      (subst (λ r. IsExclusive sv.sessions (view r)) (sym f.registry) e)

pub Frozen-Kept : {sv sv' : Server} → Frozen sv sv' → Kept sv sv'
Frozen-Kept {sv} {sv'} f = record {
  sessions = λ a. rw f.sessions (Turned-refl (sv.sessions a));
  registry = λ w. rw f.registry w.registry;
  logins = λ w. Frozen-Exclusive f w.logins;
  spared = λ w n out. ap (λ r. view r n) f.registry;
}
