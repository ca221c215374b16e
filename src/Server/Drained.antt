-- ===== src/Server/Drained.antt =====
-- The `while` loop of `main` in src/server/server.c against the whole auth queue: it comes to an end of
-- its work.
use mathlib.Core.Path.{subst}
use squimpchat.Base.{
  ℕ, ◌≡◌, refl, ap, sym, ◌∙◌, inl, inr, Bool, true, false, Option, none, some, List, [], ◌∷◌, ◌==◌,
  ok, arith, ◌++◌, Safe-ok, replicate, length, suc,
}
use squimpchat.Session.{Session, write}
use squimpchat.Queue.Chains.{has, IsQueue, unlinked, frame, write_self, write_ne, ==_ne}
use squimpchat.Queue.Fifo.{dequeue-cons, dequeue-empty}
use squimpchat.Registry.{Registry}
use squimpchat.Net.Send.{IsOpen, IsOpen-after_send}
use squimpchat.Server.{Server}
use squimpchat.Server.Shape.{IsSession, modify_session_lem}
use squimpchat.Server.Kept.{IsServer}
use squimpchat.Server.Login.{
  rejected, logged_in, answered, dequeued, established, handle_pending-Login,
}
use squimpchat.Server.Passes.{worker_pass-IsServer, requeued-IsServer}
use squimpchat.Server.Invariant.{session-IsSession}
use squimpchat.Server.Waiting.{
  IsReady, AllReady, IsDone, AllDone, IsReady-unlinked, AllReady-unlinked, IsDone-unlinked,
}
use squimpchat.Server.Worker.{
  asleep, goes_on, handle_pending, after_dequeue, worker_pass, worker_loop,
}

-- What one pass for the session at `p` leaves as it is.
pub record Handled (p : ℕ) (sv sv' : Server) : Type 0 where
  pub queue : sv'.queue ≡ sv.queue
  pub others : (a : ℕ) → (a == p) ≡ false → sv'.sessions a ≡ sv.sessions a
  pub done : IsDone (sv'.sessions p)
  pub streams : (q : ℕ) → IsOpen q sv.net → IsOpen q sv'.net

answered-Handled :
    (p : ℕ) (a : Option ℕ) (id : ℕ) (granted : Bool) (sv sv1 : Server)
    → Handled p sv sv1
    → Handled p sv (answered a id granted sv1)
answered-Handled p none id granted sv sv1 k = k
answered-Handled p (some stream) id granted sv sv1 k = record {
  queue = k.queue;
  others = k.others;
  done = k.done;
  streams = λ q o. IsOpen-after_send stream _ (k.streams q o);
}

-- Only the session at `p` and the registry change.
write-Handled :
    (p : ℕ) (c : Option Session) (r : Registry) (sv : Server)
    → IsDone c
    → Handled p sv (record sv { registry = r; sessions = write sv.sessions p c })
write-Handled p c r sv d = record {
  queue = refl;
  others = write_ne sv.sessions p c;
  done = subst IsDone (sym (write_self sv.sessions p c)) d;
  streams = λ q o. o;
}

Handled-trans : {p : ℕ} {a b c : Server} → Handled p a b → Handled p b c → Handled p a c
Handled-trans f g = record {
  queue = g.queue ∙ f.queue;
  others = λ x e. g.others x e ∙ f.others x e;
  done = g.done;
  streams = λ q o. g.streams q (f.streams q o);
}

handle_pending-Handled :
    (users : Option (List ℕ)) (p : ℕ) (s : Session) (sv : Server)
    → IsServer sv
    → sv.sessions p ≡ some s
    → IsSession s
    → IsReady users sv.net (some s)
    → (sv' : Server) × (handle_pending users p sv ≡ ok sv') × Handled p sv sv'
unfolding handle_pending
handle_pending-Handled users p s sv w at k (inl closed) = (
  _,
  rw
      (
        modify_session_lem (λ t. record t { auth_queued = false }) sv at,
        write_self sv.sessions p (some (dequeued s)),
      )
      (rw closed refl),
  Handled-trans (write-Handled p (some (dequeued s)) sv.registry sv refl) (
      write-Handled p none sv.registry
        (record sv { sessions = write sv.sessions p (some (dequeued s)) }) tt),
)
handle_pending-Handled users p s sv w at k (inr (live, o, right, e)) =
    let sv1 = record sv { sessions = write sv.sessions p (some (dequeued s)) } in
    elim (handle_pending-Login users sv right at live k w.registry o e) [
      | rejected why is ↦ (
        _,
        is,
        answered-Handled p s.auth_stream s.session_id false sv sv1
            (write-Handled p (some (dequeued s)) sv.registry sv refl),
      )
      | logged_in r granted fresh room v wr is ↦ (
        _,
        is,
        answered-Handled p s.auth_stream s.session_id true sv _ (
            Handled-trans (write-Handled p (some (dequeued s)) sv.registry sv refl)
              (write-Handled p (some (established (dequeued s))) r sv1 refl)),
      )
    ]

-- A pass of the loop for the first session of the queue.
record Passed (x : ℕ) (xs : List ℕ) (users : Option (List ℕ)) (sv sv' : Server) : Type 0 where
  invariant : IsServer sv'
  rest : IsQueue sv'.queue sv'.sessions xs
  done : IsDone (sv'.sessions x)
  others : (a : ℕ) → (a == x) ≡ false → unlinked (sv'.sessions a) ≡ unlinked (sv.sessions a)
  ready : AllReady users sv'.net sv'.sessions xs

pub first-Handled :
    (users : Option (List ℕ)) (p : ℕ) (c : Option Session) (sv : Server)
    → IsServer sv
    → sv.sessions p ≡ c
    → IsReady users sv.net c
    → (sv' : Server) × (handle_pending users p sv ≡ ok sv') × Handled p sv sv'
first-Handled users p none sv w at r = absurd r
first-Handled users p (some s) sv w at r =
    handle_pending-Handled users p s sv w at (session-IsSession p w at) r

worker_pass-Passed :
    (users : Option (List ℕ)) (x : ℕ) (xs : List ℕ) (sv : Server)
    → IsServer sv
    → IsQueue sv.queue sv.sessions (x ∷ xs)
    → AllReady users sv.net sv.sessions (x ∷ xs)
    → (sv' : Server) × (worker_pass users false false sv ≡ ok (goes_on, sv'))
      × Passed x xs users sv sv'
unfolding worker_pass
worker_pass-Passed users x xs sv w is (r, more) =
    let (q, h, e, rest, same) = dequeue-cons is in
    let sv1 = record sv { queue = q; sessions = h } in
    let (sv', run, k) =
      first-Handled users x (h x) sv1 (requeued-IsServer q h sv same w) refl
        (IsReady-unlinked users sv.net (sv.sessions x) (h x) (same x) r) in
    let e' : worker_pass users false false sv ≡ ok (goes_on, sv') =
      rw (e, after_dequeue, run) refl in
    let apart : (a : ℕ) → has a xs ≡ true → (a == x) ≡ false =
      λ a i. ==_ne a x xs i is.distinct.0 in
    let others : (a : ℕ) → (a == x) ≡ false → unlinked (sv'.sessions a) ≡ unlinked (sv.sessions a) =
      λ a ne. ap unlinked (k.others a ne) ∙ same a in
    (
      sv',
      e',
      record {
        invariant = Safe-ok (λ r. IsServer r.1) _ (worker_pass-IsServer users false false sv w) e';
        rest =
            subst (λ c. IsQueue c sv'.sessions xs) (sym k.queue)
              (record {
                chain = frame h sv'.sessions q.head xs (λ a i. k.others a (apart a i)) rest.chain;
                last = rest.last;
                distinct = rest.distinct;
                posted = rest.posted;
              });
        done = k.done;
        others = others;
        ready =
            AllReady-unlinked users sv.net sv'.net sv.sessions sv'.sessions xs k.streams
              (λ a i. others a (apart a i)) more;
      },
    )

-- What the loop leaves behind.
pub record Drained (xs : List ℕ) (sv sv' : Server) : Type 0 where
  pub invariant : IsServer sv'
  pub empty : IsQueue sv'.queue sv'.sessions []
  pub done : AllDone sv'.sessions xs
  pub others : (a : ℕ) → has a xs ≡ false → unlinked (sv'.sessions a) ≡ unlinked (sv.sessions a)

-- The invariant holds, the queue holds the sessions `xs`, and each of them is ready: its connection
-- is closed, or its stream (if it has one) is open and the check of its credentials has an outcome.
-- If no signal comes, then the loop handles all of them in as many passes as they are, and waits in
-- the pass after that. The queue is empty then, no session of `xs` is left that counts as waiting,
-- no other session is changed but for its place in the queue, and the invariant holds.
pub worker_loop-Drained :
    (users : Option (List ℕ)) (xs : List ℕ) (more : List (Bool × Bool)) (sv : Server)
    → IsServer sv
    → IsQueue sv.queue sv.sessions xs
    → AllReady users sv.net sv.sessions xs
    → (sv' : Server) × (worker_loop users (replicate (suc (length xs)) (false, false) ++ more) sv
        ≡ ok (asleep, sv'))
      × Drained xs sv sv'
unfolding worker_loop
worker_loop-Drained users [] more sv w is r = (
  sv,
  rw (worker_pass, dequeue-empty is, after_dequeue) refl,
  record { invariant = w; empty = is; done = tt; others = λ a i. refl },
)
worker_loop-Drained users (x ∷ xs) more sv w is r =
    let (sv1, e, p) = worker_pass-Passed users x xs sv w is r in
    let (sv', run, d) = worker_loop-Drained users xs more sv1 p.invariant p.rest p.ready in
    (
      sv',
      rw e run,
      record {
        invariant = d.invariant;
        empty = d.empty;
        done = (
          IsDone-unlinked (sv1.sessions x) (sv'.sessions x) (d.others x is.distinct.0) p.done,
          d.done,
        );
        others = λ a i. d.others a (ground arith) ∙ p.others a (ground arith);
      },
    )
