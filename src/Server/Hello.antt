-- ===== src/Server/Hello.antt =====
-- `sqmp_process_hello` of src/shared/sqmp.c, by the versions that a client offers.
use mathlib.Core.List.{append_assoc}
use squimpchat.Base.{
  ℕ, zero, suc, ◌+◌, ◌<◌, ◌%◌, ◌^◌, ◌≡◌, ◌≢◌, refl, ap, ◌∙◌, true, false, some, List, [], ◌∷◌, ◌++◌,
  arith, ◌==◌, codes, length, drop, get_elem?, length-append, Run, ok,
}
use squimpchat.Session.{Session, hello, is_hello, auth, write}
use squimpchat.Queue.Chains.{write_self, write_ne}
use squimpchat.Net.Send.{IsOpen, after_send, IsOpen-after_send}
use squimpchat.Wire.{packet, join, type_hello, error_version_mismatch}
use squimpchat.Wire.Fields.{uint_at-drop}
use squimpchat.Wire.Packets.{hello_ack_packet, error_packet, bye_packet}
use squimpchat.Wire.Reads.{byte_at-packet, drop-packet}
use squimpchat.Server.{Server, session_at, modify_session}
use squimpchat.Server.Shape.{after, send-after, send_error-after, send_bye-after}
use squimpchat.Server.Handlers.{process_hello, has_v1, accept_hello}

-- A HELLO: the number of versions, the eight bytes for them, and the rest of the message.
abbrev pub hello_from : ℕ → ℕ → List ℕ → List (List ℕ) → List ℕ
hello_from id num versions rest = packet type_hello id ((num ∷ []) ∷ versions ∷ rest)

module _ (num : ℕ) (p : List ℕ) (rest : List ℕ) where
  has_v1-true :
      (vs pre : List ℕ) (k i j : ℕ)
      → drop 13 p ≡ pre ++ (vs ++ rest)
      → k ≡ length vs
      → i ≡ length pre
      → i + j < num
      → get_elem? vs j ≡ some 1
      → has_v1 k i num p ≡ ok true
  unfolding has_v1
  has_v1-true [] pre k i j e kk ii lt at = cc
  has_v1-true (v ∷ vs) pre zero i j e kk ii lt at = absurd (omega arith)
  has_v1-true (v ∷ vs) pre (suc k) i zero e kk ii lt at =
      ground (arith, uint_at-drop 13 i p pre v (vs ++ rest) e ii)
  has_v1-true (v ∷ vs) pre (suc k) i (suc j) e kk ii lt at = ground (
    arith,
    uint_at-drop 13 i p pre v (vs ++ rest) e ii,
    has_v1-true vs (pre ++ v ∷ []) k (suc i) j (rw append_assoc e) (omega arith)
        (omega (arith, length-append pre (v ∷ []))) (omega arith) at,
  )

  has_v1-false :
      (vs pre : List ℕ) (k i : ℕ)
      → drop 13 p ≡ pre ++ (vs ++ rest)
      → k ≡ length vs
      → i ≡ length pre
      → ((j : ℕ) → i + j < num → get_elem? vs j ≢ some 1)
      → has_v1 k i num p ≡ ok false
  unfolding has_v1
  has_v1-false [] pre zero i e kk ii out = refl
  has_v1-false [] pre (suc k) i e kk ii out = absurd (omega arith)
  has_v1-false (v ∷ vs) pre zero i e kk ii out = absurd (omega arith)
  has_v1-false (v ∷ vs) pre (suc k) i e kk ii out = ground (
    arith,
    uint_at-drop 13 i p pre v (vs ++ rest) e ii,
    has_v1-false vs (pre ++ v ∷ []) k (suc i) (rw append_assoc e) (omega arith)
        (omega (arith, length-append pre (v ∷ []))) (λ j lt. out (suc j) (omega arith)),
    out 0,
  )

-- What the acceptance of a HELLO comes to.
pub record Greeted (stream p : ℕ) (s : Session) (sv : Server) (x : Run Server) : Type 0 where
  pub sv' : Server
  pub result : x ≡ ok sv'
  pub session : sv'.sessions p ≡ some (record s { session_id = sv.next_session_id; state = auth })
  pub others : (a : ℕ) → (a == p) ≡ false → sv'.sessions a ≡ sv.sessions a
  pub counter : sv'.next_session_id ≡ (sv.next_session_id + 1) % 2 ^ 32
  pub rest : (sv'.registry ≡ sv.registry) × (sv'.queue ≡ sv.queue)
  pub reply : sv'.net ≡ after_send stream (hello_ack_packet sv.next_session_id) sv.net

versions_at :
    (id num : ℕ) (versions : List ℕ) (rest : List (List ℕ))
    → drop 13 (hello_from id num versions rest) ≡ versions ++ join rest
versions_at id num versions rest =
    drop-packet type_hello id ((num ∷ []) ∷ []) (versions ∷ rest) 13 refl

module _ (stream p : ℕ) {s : Session} (sv : Server) (at : sv.sessions p ≡ some s)
    (st : s.state ≡ hello) (o : IsOpen stream sv.net) (id num : ℕ) (versions : List ℕ)
    (rest : List (List ℕ)) (size : length versions ≡ 8) where
  accept_hello-Greeted : Greeted stream p s sv (accept_hello stream (some p) sv)
  unfolding accept_hello modify_session
  accept_hello-Greeted =
      let s1 = record s { session_id = sv.next_session_id } in
      let h1 = write sv.sessions p (some s1) in
      let sv2 = record sv { sessions = h1; next_session_id = (sv.next_session_id + 1) % 2 ^ 32 } in
      record {
        sv' = record (after stream (hello_ack_packet sv.next_session_id) sv2) {
          sessions = write h1 p (some (record s1 { state = auth }));
        };
        result = rw (
          at,
          send-after (hello_ack_packet sv.next_session_id) sv2 o,
          write_self sv.sessions p (some s1),
        );
        session = write_self h1 p _;
        others = λ a ne. write_ne h1 p _ a ne ∙ write_ne sv.sessions p _ a ne;
        counter = refl;
        rest = (refl, refl);
        reply = refl;
      }

  -- A HELLO in state HELLO that has version 1 among its first `num_versions` versions, and among its
  -- first eight: the session gets the next session id and goes to AUTH, the counter goes on by one
  -- (modulo 2 ^ 32), and a HELLO_ACK with the id is sent. Nothing else is changed.
  process_hello-accepts :
      (j : ℕ)
      → j < num
      → get_elem? versions j ≡ some 1
      → Greeted stream p s sv (process_hello stream (some p) (hello_from id num versions rest) sv)
  unfolding process_hello session_at
  process_hello-accepts j lt one =
      rw
        (
          at,
          ap is_hello st,
          byte_at-packet type_hello id [] num (versions ∷ rest) {off = 12} refl,
          has_v1-true num (hello_from id num versions rest) (join rest) versions [] 8 0 j
              (versions_at id num versions rest) (omega arith) refl (omega arith) one,
        )
        accept_hello-Greeted

  -- A HELLO in state HELLO that does not: an ERROR with code 3 and a BYE are sent, with the session's
  -- old id, and only the network changes, so the session stays in HELLO.
  process_hello-refuses :
      ((j : ℕ) → j < num → get_elem? versions j ≢ some 1)
      → process_hello stream (some p) (hello_from id num versions rest) sv
        ≡ ok (
            after stream (bye_packet s.session_id) (
              after stream
                (error_packet s.session_id error_version_mismatch
                  (some (codes "no supported protocol version")))
                sv))
  unfolding process_hello session_at
  process_hello-refuses out =
      rw
        (
          at,
          ap is_hello st,
          byte_at-packet type_hello id [] num (versions ∷ rest) {off = 12} refl,
          has_v1-false num (hello_from id num versions rest) (join rest) versions [] 8 0
              (versions_at id num versions rest) (omega arith) refl (λ j lt. out j (omega arith)),
          send_error-after error_version_mismatch (some (codes "no supported protocol version")) sv
              at o,
        )
        (send_bye-after _ at (IsOpen-after_send stream _ o))
