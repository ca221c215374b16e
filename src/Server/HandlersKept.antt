-- ===== src/Server/HandlersKept.antt =====
-- The handlers of HELLO, AUTH_REQ and BYE at the server (src/shared/sqmp.c) on an arbitrary packet: the
-- invariant, and the state of the session.
use mathlib.Core.Path.{subst}
use squimpchat.Base.{
  ℕ, ◌+◌, ◌%◌, ◌^◌, ◌≡◌, refl, ap, sym, ◌∙◌, inl, inr, true, Option, none, some, List, arith, ◌==◌,
  negate, if◌then◌else◌, drop, Bool-cases, Option-cases, length, Run, ok, fault, ◌>>=◌, memcpy,
  memcpy-Safe, Copied, Safe, Safe-mono, Safe-bind, Safe-any, Safe-if, Safe-later, if_true,
}
use squimpchat.Session.{
  Session, SessionState, Sessions, hello, auth, conn_established, closing, is_hello, is_auth,
  is_established, write,
}
use squimpchat.Queue.{auth_queue_enqueue}
use squimpchat.Queue.Chains.{SameBut, write_self}
use squimpchat.Queue.Links.{auth_queue_enqueue-SameBut}
use squimpchat.Registry.{Registry, registry_remove}
use squimpchat.Registry.Lookup.{IsRegistry, view, erase}
use squimpchat.Registry.Remove.{registry_remove-erase}
use squimpchat.Wire.Packets.{hello_ack_packet}
use squimpchat.Wire.{uint_at}
use squimpchat.Server.{Server, session_at, modify_session, send, send_error}
use squimpchat.Server.Shape.{name_of, session-IsName, IsSession, modify_session_lem}
use squimpchat.Server.Exclusive.{login_of, erased-Unclaimed, quiet-IsExclusive, erase-IsExclusive}
use squimpchat.Server.Kept.{
  Allowed, same, greeted, left, Turned, IsServer, Kept, Shaped, Kept-refl, Kept-trans, Turned-write,
  Turned-unlinked, Fewer-Turned,
}
use squimpchat.Server.Handlers.{
  process_hello, accept_hello, has_v1, process_auth_req, take_credentials, enqueue, process_bye,
}
use squimpchat.Server.Answered.{send-Frozen, send_bye-Frozen, send_error-Frozen}
use squimpchat.Server.Frozen.{Frozen, Frozen-trans, Frozen-Kept}

pub Safe-Kept : (sv : Server) (x : Run Server) → Safe (Frozen sv) x → Safe (Kept sv) x
Safe-Kept sv (ok sv') f = Frozen-Kept f
Safe-Kept sv fault f = tt

pub send_error-Kept :
    (stream : ℕ) (sp : Option ℕ) (code : ℕ) (desc : Option (List ℕ)) (sv : Server)
    → Safe (Kept sv) (send_error stream sp code desc sv)
send_error-Kept stream sp code desc sv = Safe-Kept sv _ (send_error-Frozen stream sp code desc sv)

Turned-Kept :
    {sv sv' : Server}
    → ((a : ℕ) → Turned (sv.sessions a) (sv'.sessions a))
    → sv'.registry ≡ sv.registry
    → Kept sv sv'
Turned-Kept {sv} {sv'} t e = record {
  sessions = t;
  registry = λ w. rw e w.registry;
  logins = λ w.
      quiet-IsExclusive w.logins (λ a. Fewer-Turned (sv.sessions a) (sv'.sessions a) (t a))
        λ n. ap (λ r. view r n) e;
  spared = λ w n out. ap (λ r. view r n) e;
}

-- A change to a session that is known.
write-Kept :
    (p : ℕ) (t : Session) (sv : Server) {s : Session}
    → sv.sessions p ≡ some s
    → Turned (some s) (some t)
    → Kept sv (record sv { sessions = write sv.sessions p (some t) })
write-Kept p t sv at turn = Turned-Kept (Turned-write sv.sessions p t at turn) refl

modify_session-Kept :
    (p : ℕ) (f : Session → Session) (sv : Server) {s : Session}
    → sv.sessions p ≡ some s
    → Turned (some s) (some (f s))
    → Safe (Kept sv) (modify_session (some p) f sv)
modify_session-Kept p f sv {s} at turn =
    rw (modify_session_lem f sv at) (write-Kept p (f s) sv at turn)

is_hello-eq : (s : SessionState) → is_hello s ≡ true → s ≡ hello
is_hello-eq s h = ground arith

is_established-eq : (s : SessionState) → is_established s ≡ true → s ≡ conn_established
is_established-eq s h = ground arith

accept_hello-Kept :
    (stream p : ℕ) (sv : Server) {s : Session}
    → sv.sessions p ≡ some s
    → s.state ≡ hello
    → Safe (Kept sv) (accept_hello stream (some p) sv)
unfolding accept_hello
accept_hello-Kept stream p sv {s} at st =
    let s1 = record s { session_id = sv.next_session_id } in
    let sv1 = record sv { next_session_id = (sv.next_session_id + 1) % 2 ^ 32 } in
    let sv2 = record sv1 { sessions = write sv.sessions p (some s1) } in
    let first : Kept sv sv2 =
      Turned-Kept (Turned-write sv.sessions p s1 at (same, (λ w. omega arith), inr refl)) refl in
    rw (modify_session_lem (λ t. record t { session_id = sv.next_session_id }) sv1 at) (
      Safe-bind (λ r. Frozen sv2 r.1) (Kept sv)
        (send stream (hello_ack_packet sv.next_session_id) sv2) _ (send-Frozen stream _ sv2)
        λ r f.
          Safe-mono (Kept r.1) (Kept sv) _ (λ v k. Kept-trans first (Kept-trans (Frozen-Kept f) k))
            (modify_session-Kept p _ r.1
              (ap (λ (h : Sessions). h p) f.sessions ∙ write_self sv.sessions p (some s1))
              (subst (λ x. Allowed x auth) (sym st) greeted, (λ w. omega arith), inl refl)))

pub process_hello-Kept :
    (stream : ℕ) (sp : Option ℕ) (pkt : List ℕ) (sv : Server)
    → Safe (Kept sv) (process_hello stream sp pkt sv)
unfolding process_hello session_at
process_hello-Kept stream none pkt sv = tt
process_hello-Kept stream (some p) pkt sv = elim (Option-cases (sv.sessions p)) [
  | inl e ↦ rw e tt
  | inr (s, e) ↦ rw e (elim (Bool-cases (is_hello s.state)) [
    | inr no_hello ↦ rw no_hello (send_error-Kept stream (some p) _ _ sv)
    | inl st ↦ rw st (
        Safe-any (Kept sv) (uint_at 12 1 pkt) _ λ num.
          Safe-any (Kept sv) (has_v1 8 0 num pkt) _ λ found.
            Safe-if (Kept sv) (negate found) _ _
              (Safe-Kept sv _ (
                Safe-bind (Frozen sv) (Frozen sv) (send_error stream (some p) _ _ sv) _
                  (send_error-Frozen stream (some p) _ _ sv)
                  λ sv1 f.
                    Safe-mono (Frozen sv1) (Frozen sv) _ (λ v g. Frozen-trans f g)
                      (send_bye-Frozen stream (some p) sv1)))
              (accept_hello-Kept stream p sv e (is_hello-eq s.state st)))
  ])
]

take_credentials-Safe :
    (stream : ℕ) (pkt : List ℕ) (s : Session)
    → Safe (λ t. Turned (some s) (some t)) (take_credentials stream pkt s)
unfolding take_credentials
take_credentials-Safe stream pkt s = Safe-any _ (uint_at 12 1 pkt) _ λ ulen.
    Safe-bind _ _ (memcpy s.auth_username (drop 13 pkt) ulen) _
      (memcpy-Safe s.auth_username (drop 13 pkt) ulen)
      λ name n.
        Safe-bind _ _ (memcpy s.auth_password_hash (drop 45 pkt) 32) _
          (memcpy-Safe s.auth_password_hash (drop 45 pkt) 32)
          λ hash h. Safe-any _ (uint_at 77 2 pkt) _ λ klen.
            Safe-bind (λ (d : List ℕ). length d ≡ length s.auth_pubkey) _
              (if klen == 32 then memcpy s.auth_pubkey (drop 79 pkt) 32 else ok s.auth_pubkey) _
              (Safe-if _ (klen == 32) _ _
                (Safe-mono (Copied s.auth_pubkey (drop 79 pkt) 32) _ _ (λ d e. e.0)
                  (memcpy-Safe s.auth_pubkey (drop 79 pkt) 32))
                refl)
              λ key k. (same, (λ w. omega (arith, w.auth_name_size, n.0, n.1, h.0, k)), inr refl)

enqueue-Kept : (p : ℕ) (sv : Server) → Safe (Kept sv) (enqueue (some p) sv)
unfolding enqueue
enqueue-Kept p sv =
    Safe-bind (λ r. SameBut sv.sessions r.1) (Kept sv) (auth_queue_enqueue p sv.queue sv.sessions) _
      (auth_queue_enqueue-SameBut p sv.queue sv.sessions)
      λ r keep. Turned-Kept (λ a. Turned-unlinked (sv.sessions a) (r.1 a) (keep a)) refl

pub process_auth_req-Kept :
    (stream : ℕ) (sp : Option ℕ) (pkt : List ℕ) (sv : Server)
    → Safe (Kept sv) (process_auth_req stream sp pkt sv)
unfolding process_auth_req session_at
process_auth_req-Kept stream none pkt sv = tt
process_auth_req-Kept stream (some p) pkt sv = elim (Option-cases (sv.sessions p)) [
  | inl e ↦ rw e tt
  | inr (s, e) ↦ rw e (
      Safe-if (Kept sv) (negate (is_auth s.state)) _ _ (send_error-Kept stream (some p) _ _ sv) (
        Safe-bind _ (Kept sv) (take_credentials stream pkt s) _ (take_credentials-Safe stream pkt s)
          λ t turn. rw (modify_session_lem (λ _. t) sv e) (
            Safe-mono _ (Kept sv) _ (λ v k. Kept-trans (write-Kept p t sv e turn) k)
              (enqueue-Kept p (record sv { sessions = write sv.sessions p (some t) })))))
]

-- The registry without the session's name.
abbrev Erased : Session → Server → Registry → Type 0
Erased s sv r = IsRegistry r × ((j : List ℕ) → view r j ≡ erase (name_of s) (view sv.registry) j)

remove-Kept :
    (p : ℕ) (sv : Server) {s : Session}
    → sv.sessions p ≡ some s
    → s.state ≡ conn_established
    → Safe (Kept sv) (do
      r ← registry_remove s.username s.username_len sv.registry
      modify_session (some p) (λ t. record t { state = closing }) (record sv { registry = r }))
remove-Kept p sv {s} at st =
    Safe-bind (λ r. IsServer sv → Erased s sv r) (Kept sv)
      (registry_remove s.username s.username_len sv.registry) _
      (Safe-later (IsServer sv) (Erased s sv) _ λ w.
        let is : IsSession s = subst Shaped at (w.sessions p) in
        let (r', e, registry, views) = registry_remove-erase w.registry (session-IsName is) in
        rw e (registry, views))
      λ r w.
        rw (modify_session_lem (λ t. record t { state = closing }) (record sv { registry = r }) at)
          (record {
            sessions =
                Turned-write sv.sessions p _ at
                  (subst (λ x. Allowed x closing) (sym st) left, (λ v. omega arith), inl refl);
            registry = λ v. (w v).0;
            logins = λ v.
                erase-IsExclusive p _ (name_of s) v.logins
                  (ap login_of at ∙ if_true _ _ (ap is_established st)) refl (w v).1;
            spared = λ v.
                erased-Unclaimed sv.sessions (view sv.registry) p (name_of s)
                  (ap login_of at ∙ if_true _ _ (ap is_established st)) (w v).1;
          })

pub process_bye-Kept : (sp : Option ℕ) (sv : Server) → Safe (Kept sv) (process_bye sp sv)
unfolding process_bye session_at
process_bye-Kept none sv = tt
process_bye-Kept (some p) sv = elim (Option-cases (sv.sessions p)) [
  | inl e ↦ rw e tt
  | inr (s, e) ↦ rw e (elim (Bool-cases (is_established s.state)) [
    | inl st ↦ rw st (remove-Kept p sv e (is_established-eq s.state st))
    | inr no_user ↦ rw no_user (Kept-refl sv)
  ])
]
