-- ===== src/Server/Sound/Login.antt =====
-- HELLO, AUTH_REQ and BYE at the server (src/shared/sqmp.c, src/server/server.c): no undefined behaviour.
use squimpchat.Base.{
  ℕ, zero, suc, ◌+◌, ◌^◌, ◌%◌, ◌≤◌, ◌≡◌, some, List, arith, length, length-drop, drop, ltb, ◌==◌,
  negate, if◌then◌else◌, ok, memcpy, memcpy-Returns, Returns, Returns-ok, Returns-bind, Returns-if,
}
use squimpchat.Session.{Session, is_hello, is_auth, is_established, write}
use squimpchat.Queue.Chains.{IsQueue-write, write_self}
use squimpchat.Queue.Fifo.{enqueue-append}
use squimpchat.Registry.Remove.{registry_remove-erase}
use squimpchat.Wire.{uint_at}
use squimpchat.Wire.Total.{uint_at-Returns}
use squimpchat.Wire.Packets.{hello_ack_packet}
use squimpchat.Server.{Server, session_at, modify_session}
use squimpchat.Server.Shape.{session-IsName, modify_session_lem, send-after}
use squimpchat.Server.Handlers.{
  process_hello, accept_hello, has_v1, process_auth_req, take_credentials, enqueue, process_bye,
}
use squimpchat.Server.Sound.Complete.{Served, send_error-Returns, refused-Returns, served-IsSession}

has_v1-Returns :
    (k i num : ℕ) (pkt : List ℕ) → 13 + i + k ≤ length pkt → Returns (has_v1 k i num pkt)
unfolding has_v1
has_v1-Returns zero i num pkt h = tt
has_v1-Returns (suc k) i num pkt h =
    Returns-if (ltb i num) _ _
      (Returns-bind (uint_at (13 + i) 1 pkt) _ (uint_at-Returns (13 + i) 1 pkt (omega arith))
        λ v e. Returns-if (v == 1) _ _ tt (has_v1-Returns k (suc i) num pkt (omega arith)))
      tt

module _ {stream p : ℕ} {s : Session} {xs : List ℕ} {sv : Server}
    (w : Served stream p s xs sv) where
  accept_hello-Returns : Returns (accept_hello stream (some p) sv)
  unfolding accept_hello modify_session
  accept_hello-Returns =
      let sv1 = record sv {
        next_session_id = (sv.next_session_id + 1) % 2 ^ 32;
        sessions = write sv.sessions p (some (record s { session_id = sv.next_session_id }));
      } in
      rw
        (
          w.at,
          send-after (hello_ack_packet sv.next_session_id) sv1 w.live,
          write_self sv.sessions p (some (record s { session_id = sv.next_session_id })),
        )
        tt

  pub process_hello-Returns :
      (pkt : List ℕ) → 21 ≤ length pkt → Returns (process_hello stream (some p) pkt sv)
  unfolding process_hello session_at
  process_hello-Returns pkt h = rw w.at (
      Returns-if (negate (is_hello s.state)) _ _ (send_error-Returns w _ _) (
        Returns-bind (uint_at 12 1 pkt) _ (uint_at-Returns 12 1 pkt (omega arith)) λ num e.
          Returns-bind (has_v1 8 0 num pkt) _ (has_v1-Returns 8 0 num pkt (omega arith))
            λ one f. Returns-if (negate one) _ _ (refused-Returns w _ _) accept_hello-Returns))

  take_credentials-Returns :
      (pkt : List ℕ)
      → 111 ≤ length pkt
      → ((n : ℕ) → uint_at 12 1 pkt ≡ ok n → n ≤ 32)
      → Returns (take_credentials stream pkt s)
  unfolding take_credentials
  take_credentials-Returns pkt h fits =
      Returns-bind (uint_at 12 1 pkt) _ (uint_at-Returns 12 1 pkt (omega arith)) λ n e.
        Returns-bind (memcpy s.auth_username (drop 13 pkt) n) _
          (memcpy-Returns s.auth_username (drop 13 pkt) n
            (omega (arith, fits n e, (served-IsSession w).auth_name_size))
            (omega (arith, fits n e, length-drop 13 pkt)))
          λ name f.
            Returns-bind (memcpy s.auth_password_hash (drop 45 pkt) 32) _
              (memcpy-Returns s.auth_password_hash (drop 45 pkt) 32
                (omega (arith, (served-IsSession w).hash_size)) (omega (arith, length-drop 45 pkt)))
              λ hash g.
                Returns-bind (uint_at 77 2 pkt) _ (uint_at-Returns 77 2 pkt (omega arith)) λ klen k.
                  Returns-bind
                    (if klen == 32 then memcpy s.auth_pubkey (drop 79 pkt) 32 else ok s.auth_pubkey)
                    _
                    (Returns-if (klen == 32) _ _
                      (memcpy-Returns s.auth_pubkey (drop 79 pkt) 32
                        (omega (arith, (served-IsSession w).key_size))
                        (omega (arith, length-drop 79 pkt)))
                      tt)
                    λ key l. tt

  pub process_auth_req-Returns :
      (pkt : List ℕ)
      → 111 ≤ length pkt
      → ((n : ℕ) → uint_at 12 1 pkt ≡ ok n → n ≤ 32)
      → Returns (process_auth_req stream (some p) pkt sv)
  unfolding process_auth_req session_at enqueue
  process_auth_req-Returns pkt h fits = rw w.at (
      Returns-if (negate (is_auth s.state)) _ _ (send_error-Returns w _ _) (
        Returns-bind (take_credentials stream pkt s) _ (take_credentials-Returns pkt h fits) λ s' e.
          let (q, h', f, is, same) =
            enqueue-append p (IsQueue-write p (some s') w.absent w.queue)
              (write_self sv.sessions p (some s')) w.absent in
          rw (modify_session_lem (λ t. s') sv w.at) (rw f tt)))

  pub process_bye-Returns : Returns (process_bye (some p) sv)
  unfolding process_bye session_at
  process_bye-Returns =
      let (r, e, is, views) =
        registry_remove-erase w.invariant.registry (session-IsName (served-IsSession w)) in
      rw w.at (
        Returns-if (is_established s.state) _ _
          (rw e (Returns-ok _ (modify_session_lem _ (record sv { registry = r }) w.at))) tt)
