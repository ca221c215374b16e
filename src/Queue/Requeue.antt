-- ===== src/Queue/Requeue.antt =====
-- `auth_queue_enqueue` (src/shared/sqmp.c) of a session that waits in the queue: its caller,
-- `sqmp_process_auth_req`, does not ask whether the session is there.
use native.Mathlib.Numerals.{add-one}
use squimpchat.Base.{
  ℕ, suc, ◌+◌, ◌≡◌, refl, ◌∙◌, true, false, Option, none, some, List, [], ◌∷◌, arith, ◌==◌, ==_refl,
  length, ok,
}
use squimpchat.Session.{Session, Sessions, write}
use squimpchat.Queue.{
  AuthQueue, session, null, set_next, link, unlink, take_sem, auth_queue_enqueue,
  auth_queue_dequeue,
}
use squimpchat.Queue.Chains.{
  SameBut, unlinked-write, has, Chain, last?, IsQueue, write_self, write_ne, ==_ne,
}

record LastLive (h : Sessions) (xs : List ℕ) : Type 0 where
  t : ℕ
  st : Session
  last : last? xs ≡ some t
  among : has t xs ≡ true
  at : h t ≡ some st

last_live :
    (h : Sessions) (n : Option ℕ) (y : ℕ) (ys : List ℕ) → Chain h n (y ∷ ys) → LastLive h (y ∷ ys)
last_live h n y [] (s, e, at, c) = record {
  t = y;
  st = s;
  last = refl;
  among = rw ==_refl;
  at = at;
}
last_live h n y (z ∷ zs) (s, e, at, c) = cons (last_live h s.next z zs c)
  where
    cons : LastLive h (z ∷ zs) → LastLive h (y ∷ z ∷ zs)
    cons l = record {
      t = l.t;
      st = l.st;
      last = l.last;
      among = ground (arith, l.among);
      at = l.at;
    }

-- The sessions behind the first are lost: it comes out, and then the list is empty.
pub record Drops (x : ℕ) (q : AuthQueue) (h : Sessions) : Type 0 where
  pub q1 : AuthQueue
  pub h1 : Sessions
  pub again : auth_queue_enqueue x q h ≡ ok (q1, h1)
  pub q2 : AuthQueue
  pub h2 : Sessions
  pub first : auth_queue_dequeue false q1 h1 ≡ ok (session x, q2, h2)
  pub q3 : AuthQueue
  pub second : (h3 : Sessions) → auth_queue_dequeue false q2 h3 ≡ ok (null, q3, h3)
  pub same : SameBut h h2

requeue-LastLive :
    {q : AuthQueue} {h : Sessions} {x y : ℕ} {ys : List ℕ}
    → IsQueue q h (x ∷ y ∷ ys)
    → LastLive h (y ∷ ys)
    → Drops x q h
unfolding auth_queue_enqueue auth_queue_dequeue
requeue-LastLive {q} {h} {x} {y} {ys} is l =
    let (s, e, at, c) = is.chain in
    let h1 = write h x (some (set_next none s)) in
    let apart : (l.t == x) ≡ false = ==_ne l.t x (y ∷ ys) l.among is.distinct.0 in
    let at1 : h1 l.t ≡ some l.st = write_ne h x _ l.t apart ∙ l.at in
    let h2 = write h1 l.t (some (set_next (some x) l.st)) in
    let at2 : h2 x ≡ some (set_next none s) =
      write_ne h1 l.t _ x (ground arith) ∙ write_self h x _ in
    record {
      q1 = record { head = q.head; tail = some x; sem = q.sem + 1 };
      h1 = h2;
      again = rw (at, is.last, l.last, link, at1);
      q2 = record { head = none; tail = none; sem = q.sem };
      h2 = write h2 x (some (set_next none s));
      first = rw (add-one, take_sem, e, unlink, at2);
      q3 = record { head = none; tail = none; sem = suc (length ys) };
      second = λ h3. rw (is.posted, take_sem);
      same = λ a.
          unlinked-write h2 x none at2 a
          ∙ unlinked-write h1 l.t (some x) at1 a
          ∙ unlinked-write h x none at a;
    }

-- If the session at the head of a queue of two or more is enqueued once more, it comes out next,
-- and the call after that returns NULL, whatever the sessions are by then, though the semaphore is up
-- and others wait: they are lost. No session is changed but for its place in the queue.
pub requeue-Drops :
    {q : AuthQueue} {h : Sessions} {x y : ℕ} {ys : List ℕ} → IsQueue q h (x ∷ y ∷ ys) → Drops x q h
requeue-Drops {h} {y} {ys} is =
    let (s, e, at, c) = is.chain in requeue-LastLive is (last_live h s.next y ys c)
