-- ===== src/Server/Requeued.antt =====
-- A second AUTH_REQ of a session that waits for the main thread (`sqmp_process_auth_req` of
-- src/shared/sqmp.c), and the main loop of src/server/server.c behind it.
use mathlib.Core.Path.{subst}
use squimpchat.Base.{
  ◌==◌, ℕ, ◌≡◌, refl, ap, sym, ◌∙◌, inr, Bool, true, false, Option, some, List, ◌∷◌, ◌++◌, ok,
  Safe-ok,
}
use squimpchat.Session.{Session, Sessions, auth, is_auth, write}
use squimpchat.Queue.{AuthQueue}
use squimpchat.Queue.Chains.{
  has, Chain, IsQueue, SameBut, unlinked, frame-write, write_self, write_ne, ==_ne,
}
use squimpchat.Queue.Requeue.{Drops, requeue-Drops}
use squimpchat.Queue.Links.{auth_queue_dequeue-SameBut}
use squimpchat.Net.Send.{IsOpen}
use squimpchat.Wire.Packets.{auth_req_packet}
use squimpchat.Server.{Server, session_at, modify_session}
use squimpchat.Server.Users.{verify_credentials}
use squimpchat.Server.Handlers.{process_auth_req, enqueue}
use squimpchat.Server.AuthReq.{IsAuthReq, credentials, take_credentials_lem}
use squimpchat.Server.Kept.{IsServer, Kept, Kept-IsServer}
use squimpchat.Server.HandlersKept.{process_auth_req-Kept}
use squimpchat.Server.Invariant.{session-IsSession}
use squimpchat.Server.Login.{login_name}
use squimpchat.Server.Passes.{requeued-IsServer}
use squimpchat.Server.Waiting.{IsReady, IsReady-unlinked}
use squimpchat.Server.Drained.{first-Handled}
use squimpchat.Server.Worker.{ends, after_dequeue, worker_pass, worker_loop}

pub some_injective : {s t : Session} → some s ≡ some t → s ≡ t
some_injective h = cc

-- The first session may change, if it leads to the same one.
IsQueue-front :
    {q : AuthQueue} {h : Sessions} {x : ℕ} {xs : List ℕ} (s c : Session)
    → IsQueue q h (x ∷ xs)
    → h x ≡ some s
    → c.next ≡ s.next
    → IsQueue q (write h x (some c)) (x ∷ xs)
IsQueue-front {q} {h} {x} {xs} s c is at same =
    let (t, e, live, rest) = is.chain in
    record {
      chain = (
        c,
        e,
        write_self h x (some c),
        frame-write h x (some c) c.next xs is.distinct.0 (
            subst (λ n. Chain h n xs)
              (ap (λ (u : Session). u.next) (some_injective (sym live ∙ at)) ∙ sym same) rest),
      );
      last = is.last;
      distinct = is.distinct;
      posted = is.posted;
    }

-- A session in state AUTH is the first of two or more in the queue, and its connection is open. It
-- sends another well-formed AUTH_REQ on an open stream; the check of its credentials has an
-- outcome. The handler enqueues the session once more. Then the main loop makes one pass for it,
-- and ends in the next pass, though no signal has come; the other sessions of the queue are as they
-- were, but for their place in it.
pub process_auth_req-ends :
    (users : Option (List ℕ)) (stream id : ℕ) {n p y : ℕ} {name hash key : List ℕ} {s : Session}
    {ys : List ℕ} (more : List ℕ) (later : List (Bool × Bool)) (right : Bool) (sv : Server)
    → IsServer sv
    → IsQueue sv.queue sv.sessions (p ∷ y ∷ ys)
    → sv.sessions p ≡ some s
    → s.state ≡ auth
    → s.conn_closed ≡ false
    → IsAuthReq n name hash key
    → verify_credentials users (login_name (credentials stream n name hash key s)) hash ≡ ok right
    → IsOpen stream sv.net
    → (sv1 : Server) × (process_auth_req stream
          (some p)
          (auth_req_packet id n name hash key ++ more)
          sv
        ≡ ok sv1)
      × (sv2 : Server) × (worker_loop users ((false, false) ∷ (false, false) ∷ later) sv1
          ≡ ok (ends, sv2))
      × ((a : ℕ) → has a (y ∷ ys) ≡ true → unlinked (sv2.sessions a) ≡ unlinked (sv.sessions a))
unfolding process_auth_req session_at modify_session enqueue worker_loop worker_pass
process_auth_req-ends users stream id {n} {p} {y} {name} {hash} {key} {s} {ys} more later right sv w
      is at st live req e o =
    let c = credentials stream n name hash key s in
    let h = write sv.sessions p (some c) in
    let d : Drops p sv.queue h = requeue-Drops (IsQueue-front s c is at refl) in
    let sv1 = record sv { queue = d.q1; sessions = d.h1 } in
    let result : process_auth_req stream (some p) (auth_req_packet id n name hash key ++ more) sv
        ≡ ok sv1 =
      rw
        (
          at,
          ap is_auth st,
          take_credentials_lem stream id n more req (session-IsSession p w at),
          d.again,
        )
        refl in
    let w1 : IsServer sv1 =
      Kept-IsServer (Safe-ok (Kept sv) _ (process_auth_req-Kept stream (some p) _ sv) result) w in
    let w2 =
      requeued-IsServer d.q2 d.h2 sv1
        (Safe-ok (λ r. SameBut d.h1 r.2) _ (auth_queue_dequeue-SameBut false d.q1 d.h1) d.first)
        w1 in
    let (sv', run, k) =
      first-Handled users p (d.h2 p) (record sv { queue = d.q2; sessions = d.h2 }) w2 refl
        (IsReady-unlinked users sv.net (h p) (d.h2 p) (d.same p) (
          subst (IsReady users sv.net) (sym (write_self sv.sessions p (some c)))
            (inr (live, o, right, e)))) in
    (
      sv1,
      result,
      record sv' { queue = d.q3 },
      rw (d.first, after_dequeue, run) (rw (k.queue, d.second sv'.sessions) refl),
      λ a i.
          let ne : (a == p) ≡ false = ==_ne a p (y ∷ ys) i is.distinct.0 in
          ap unlinked (k.others a ne)
          ∙ d.same a
          ∙ ap unlinked (write_ne sv.sessions p (some c) a ne),
    )
