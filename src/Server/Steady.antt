-- ===== src/Server/Steady.antt =====
-- What a packet other than an AUTH_REQ leaves as it is (src/shared/sqmp.c, src/server/server.c):
-- the streams and connections, the queue, the other sessions, and the streams of those who stay
-- online.
use squimpchat.Base.{
  ℕ, arith, ◌+◌, ◌%◌, ◌^◌, ◌≡◌, ◌≢◌, refl, sym, ap, ◌∙◌, inl, inr, true, false, Bool, Option, none,
  some, List, ◌==◌, bytes_eq, negate, if◌then◌else◌, Option-cases, Run, ◌>>=◌, Safe, Safe-mono,
  Safe-bind, Safe-any, Safe-if, Safe-later,
}
use squimpchat.Session.{Session, Sessions, closing, is_hello, is_established, modify, write}
use squimpchat.Queue.Chains.{write_ne}
use squimpchat.Registry.{Registry, registry_remove}
use squimpchat.Registry.Lookup.{view, stream_at}
use squimpchat.Registry.Remove.{registry_remove-erase}
use squimpchat.Wire.{
  uint_at, type_hello, type_auth_req, type_key_req, type_chat_send, type_error, type_bye,
}
use squimpchat.Wire.Packets.{hello_ack_packet}
use squimpchat.Server.{Server, session_at, modify_session, send, send_error}
use squimpchat.Server.Shape.{name_of, session-IsName, modify_session_lem}
use squimpchat.Server.Kept.{IsServer}
use squimpchat.Server.Invariant.{session-IsSession}
use squimpchat.Server.Answered.{
  Wired, Wired-refl, Wired-trans, Answered, send-Answered, send_error-Answered, send_bye-Answered,
  process_key_req-Answered, process_chat_send-Answered, Answered-trans,
}
use squimpchat.Server.Handlers.{process_hello, accept_hello, has_v1, process_bye}
use squimpchat.Server.Callbacks.{dispatch}

-- Only the network and the session `p` change.
pub record Local (p : ℕ) (sv sv' : Server) : Type 0 where
  pub wired : Wired sv.net sv'.net
  pub queue : sv'.queue ≡ sv.queue
  pub others : (a : ℕ) → (a == p) ≡ false → sv'.sessions a ≡ sv.sessions a
  pub registry : sv'.registry ≡ sv.registry

-- Besides, users may go offline.
pub record Steady (p : ℕ) (sv sv' : Server) : Type 0 where
  pub wired : Wired sv.net sv'.net
  pub queue : sv'.queue ≡ sv.queue
  pub others : (a : ℕ) → (a == p) ≡ false → sv'.sessions a ≡ sv.sessions a
  pub users :
      IsServer sv
      → (n : List ℕ) (r : ℕ) → stream_at (view sv'.registry n) ≡ some r
      → stream_at (view sv.registry n) ≡ some r

Local-trans : {p : ℕ} {a b c : Server} → Local p a b → Local p b c → Local p a c
Local-trans h k = record {
  wired = Wired-trans h.wired k.wired;
  queue = k.queue ∙ h.queue;
  others = λ a ne. k.others a ne ∙ h.others a ne;
  registry = k.registry ∙ h.registry;
}

pub Local-Steady : {p : ℕ} {sv sv' : Server} → Local p sv sv' → Steady p sv sv'
Local-Steady h = record {
  wired = h.wired;
  queue = h.queue;
  others = h.others;
  users = λ w n r e. ap (λ g. stream_at (view g n)) (sym h.registry) ∙ e;
}

Answered-Local : (p : ℕ) {sv sv' : Server} → Answered sv sv' → Local p sv sv'
Answered-Local p a = record {
  wired = a.wired;
  queue = a.frozen.queue;
  others = λ q ne. ap (λ (h : Sessions). h q) a.frozen.sessions;
  registry = a.frozen.registry;
}

pub Local-refl : (p : ℕ) (sv : Server) → Local p sv sv
Local-refl p sv = record {
  wired = Wired-refl sv.net;
  queue = refl;
  others = λ a ne. refl;
  registry = refl;
}

Safe-Local : (p : ℕ) (sv : Server) (x : Run Server) → Safe (Answered sv) x → Safe (Local p sv) x
Safe-Local p sv x = Safe-mono (Answered sv) (Local p sv) x λ v a. Answered-Local p a

Safe-Steady : (p : ℕ) (sv : Server) (x : Run Server) → Safe (Local p sv) x → Safe (Steady p sv) x
Safe-Steady p sv x = Safe-mono (Local p sv) (Steady p sv) x λ v h. Local-Steady h

write-Local :
    (p c : ℕ) (t : Option Session) (sv : Server)
    → Local p sv (record sv { next_session_id = c; sessions = write sv.sessions p t })
write-Local p c t sv = record {
  wired = Wired-refl sv.net;
  queue = refl;
  others = λ a ne. write_ne sv.sessions p t a ne;
  registry = refl;
}

modify_session-Local :
    (p : ℕ) (f : Session → Session) (sv : Server) → Safe (Local p sv) (modify_session (some p) f sv)
unfolding modify_session modify
modify_session-Local p f sv = elim (Option-cases (sv.sessions p)) [
  | inl e ↦ rw e tt
  | inr (s, e) ↦ rw e (write-Local p sv.next_session_id (some (f s)) sv)
]

send_error-Local :
    (stream : ℕ) (p code : ℕ) (desc : Option (List ℕ)) (sv : Server)
    → Safe (Local p sv) (send_error stream (some p) code desc sv)
send_error-Local stream p code desc sv =
    Safe-Local p sv _ (send_error-Answered stream (some p) code desc sv)

accept_hello-Local :
    (stream p : ℕ) (sv : Server) → Safe (Local p sv) (accept_hello stream (some p) sv)
unfolding accept_hello
accept_hello-Local stream p sv =
    let sv1 = record sv { next_session_id = (sv.next_session_id + 1) % 2 ^ 32 } in
    let counted : Local p sv sv1 = record {
      wired = Wired-refl sv.net;
      queue = refl;
      others = λ a ne. refl;
      registry = refl;
    } in
    Safe-bind (Local p sv1) (Local p sv) (modify_session (some p) _ sv1) _
      (modify_session-Local p _ sv1)
      λ sv2 h.
        Safe-bind (λ r. Answered sv2 r.1) (Local p sv)
          (send stream (hello_ack_packet sv.next_session_id) sv2) _ (send-Answered stream _ sv2)
          λ r f.
            Safe-mono (Local p r.1) (Local p sv) _
              (λ v k. Local-trans counted (Local-trans h (Local-trans (Answered-Local p f) k)))
              (modify_session-Local p _ r.1)

process_hello-Local :
    (stream p : ℕ) (pkt : List ℕ) (sv : Server)
    → Safe (Local p sv) (process_hello stream (some p) pkt sv)
unfolding process_hello
process_hello-Local stream p pkt sv = Safe-any (Local p sv) (session_at (some p) sv) _ λ s.
    Safe-if (Local p sv) (negate (is_hello s.state)) _ _ (send_error-Local stream p _ _ sv) (
      Safe-any (Local p sv) (uint_at 12 1 pkt) _ λ num.
        Safe-any (Local p sv) (has_v1 8 0 num pkt) _ λ found.
          Safe-if (Local p sv) (negate found) _ _
            (Safe-Local p sv _ (
              Safe-bind (Answered sv) (Answered sv) (send_error stream (some p) _ _ sv) _
                (send_error-Answered stream (some p) _ _ sv)
                λ sv1 f.
                  Safe-mono (Answered sv1) (Answered sv) _ (λ v g. Answered-trans f g)
                    (send_bye-Answered stream (some p) sv1)))
            (accept_hello-Local stream p sv))

-- Who is online without a name is so with it.
stream_at-erase :
    (b : Bool) (d : Option (Option ℕ × List ℕ)) {r : ℕ}
    → stream_at (if b then none else d) ≡ some r
    → stream_at d ≡ some r
stream_at-erase true d e = absurd cc
stream_at-erase false d e = e

abbrev Fewer : Server → Registry → Type 0
Fewer sv r' =
    (n : List ℕ) (r : ℕ) → stream_at (view r' n) ≡ some r → stream_at (view sv.registry n) ≡ some r

leave-Steady :
    (p : ℕ) (sv : Server) {s : Session}
    → sv.sessions p ≡ some s
    → Safe (Steady p sv) (do
      r ← registry_remove s.username s.username_len sv.registry
      modify_session (some p) (λ t. record t { state = closing }) (record sv { registry = r }))
leave-Steady p sv {s} at =
    Safe-bind (λ r. IsServer sv → Fewer sv r) (Steady p sv)
      (registry_remove s.username s.username_len sv.registry) _
      (Safe-later (IsServer sv) (Fewer sv) _ λ w.
        let (r', e, registry, views) =
          registry_remove-erase w.registry (session-IsName (session-IsSession p w at)) in
        rw e λ n r k.
          stream_at-erase (bytes_eq (name_of s) n) (view sv.registry n)
            (ap stream_at (sym (views n)) ∙ k))
      λ r fewer.
        rw (modify_session_lem (λ t. record t { state = closing }) (record sv { registry = r }) at)
          (record {
            wired = Wired-refl sv.net;
            queue = refl;
            others = λ a ne. write_ne sv.sessions p _ a ne;
            users = fewer;
          })

process_bye-Steady : (p : ℕ) (sv : Server) → Safe (Steady p sv) (process_bye (some p) sv)
unfolding process_bye session_at
process_bye-Steady p sv = elim (Option-cases (sv.sessions p)) [
  | inl e ↦ rw e tt
  | inr (s, e) ↦ rw e (
      Safe-if (Steady p sv) (is_established s.state) _ _ (leave-Steady p sv e)
        (Local-Steady (Local-refl p sv)))
]

pub dispatch-Steady :
    (t stream p : ℕ) (pkt : List ℕ) (sv : Server)
    → t ≢ type_auth_req
    → Safe (Steady p sv) (dispatch t stream (some p) pkt sv)
unfolding dispatch
dispatch-Steady t stream p pkt sv other =
    Safe-if (Steady p sv) (t == type_hello) _ _
      (Safe-Steady p sv _ (process_hello-Local stream p pkt sv))
      (rw (==_not t other) (
        Safe-if (Steady p sv) (t == type_key_req) _ _
          (Safe-Steady p sv _ (Safe-Local p sv _ (process_key_req-Answered stream (some p) pkt sv)))
          (Safe-if (Steady p sv) (t == type_chat_send) _ _
            (Safe-Steady p sv _
              (Safe-Local p sv _ (process_chat_send-Answered stream (some p) pkt sv)))
            (Safe-if (Steady p sv) (t == type_error) _ _ (Local-Steady (Local-refl p sv)) (
              Safe-if (Steady p sv) (t == type_bye) _ _ (process_bye-Steady p sv)
                (Local-Steady (Local-refl p sv)))))))
  where
    ==_not : (t : ℕ) → t ≢ type_auth_req → (t == type_auth_req) ≡ false
    ==_not t h = ground arith
