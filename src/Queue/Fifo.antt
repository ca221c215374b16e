-- ===== src/Queue/Fifo.antt =====
-- `auth_queue_enqueue` and `sqmp_auth_queue_dequeue` (src/shared/sqmp.c) on a queue of distinct sessions.
use squimpchat.Base.{
  ℕ, ◌+◌, ◌≡◌, refl, sym, ◌∙◌, true, false, Option, none, some, List, [], ◌∷◌, ◌++◌, arith, ◌==◌,
  ==_refl, length, length-append, ok,
}
use squimpchat.Session.{Session, Sessions, write}
use squimpchat.Queue.{
  waits, AuthQueue, set_next, new_tail, link, unlink, take_sem, auth_queue_enqueue,
  auth_queue_dequeue, session,
}
use squimpchat.Queue.Chains.{
  has, Distinct, Chain, last?, IsQueue, SameBut, write_self, write_ne, modify_lem, ==_ne,
  frame-write, unlinked-write,
}

-- The two writes of an enqueue: the new last session, and the one before it.
abbrev linked : Sessions → ℕ → Session → ℕ → Session → Sessions
linked h p s t st = write (write h p (some (set_next none s))) t (some (set_next (some p) st))

record Linked (h : Sessions) (hd : Option ℕ) (xs : List ℕ) (p : ℕ) (s : Session) : Type 0 where
  t : ℕ
  st : Session
  last : last? xs ≡ some t
  among : has t xs ≡ true
  at : h t ≡ some st
  chain : Chain (linked h p s t st) hd (xs ++ p ∷ [])

Linked-cons :
    {h : Sessions} {hd : Option ℕ} {x y : ℕ} {ys : List ℕ} {p : ℕ} {s sx : Session}
    → hd ≡ some x
    → h x ≡ some sx
    → has x (y ∷ ys) ≡ false
    → (p == x) ≡ false
    → Linked h sx.next (y ∷ ys) p s
    → Linked h hd (x ∷ y ∷ ys) p s
Linked-cons {h} {x} {y} {ys} {p} {s} {sx} e at out ne l =
    let apart : (l.t == x) ≡ false = ==_ne l.t x (y ∷ ys) l.among out in
    record {
      t = l.t;
      st = l.st;
      last = l.last;
      among = rw apart l.among;
      at = l.at;
      chain = (
        sx,
        e,
        write_ne (write h p (some (set_next none s))) l.t _ x (ground arith)
            ∙ write_ne h p _ x (ground arith)
            ∙ at,
        l.chain,
      );
    }

link_lem :
    (h : Sessions) (hd : Option ℕ) (x : ℕ) (xs : List ℕ) (p : ℕ) (s : Session)
    → Chain h hd (x ∷ xs)
    → Distinct (x ∷ xs)
    → has p (x ∷ xs) ≡ false
    → Linked h hd (x ∷ xs) p s
link_lem h hd x [] p s (sx, e, at, c) d out = record {
  t = x;
  st = sx;
  last = refl;
  among = rw ==_refl;
  at = at;
  chain = (
    set_next (some p) sx,
    e,
    write_self _ x _,
    (set_next none s, refl, write_ne _ x _ p (ground arith) ∙ write_self _ p _, refl),
  );
}
link_lem h hd x (y ∷ ys) p s (sx, e, at, c) d out =
    Linked-cons e at d.0 (ground arith) (link_lem h sx.next y ys p s c d.1 (ground arith))

Distinct-append : (xs : List ℕ) (p : ℕ) → Distinct xs → has p xs ≡ false → Distinct (xs ++ p ∷ [])
Distinct-append [] p d out = (refl, tt)
Distinct-append (x ∷ xs) p d out =
    (has-append xs x p d.0 (ground arith), Distinct-append xs p d.1 (ground arith))
  where
    has-append :
        (ys : List ℕ) (a b : ℕ) → has a ys ≡ false → (b == a) ≡ false → has a (ys ++ b ∷ []) ≡ false
    has-append [] a b h ne = ground arith
    has-append (y ∷ ys) a b h ne = ground (arith, has-append ys a b)

last-append : (xs : List ℕ) (p : ℕ) → last? (xs ++ p ∷ []) ≡ some p
last-append [] p = refl
last-append (x ∷ []) p = refl
last-append (x ∷ y ∷ r) p = last-append (y ∷ r) p

enqueue-Linked :
    {q : AuthQueue} {h : Sessions} {x : ℕ} {xs : List ℕ} (p : ℕ) {s : Session}
    → IsQueue q h (x ∷ xs)
    → h p ≡ some s
    → has p (x ∷ xs) ≡ false
    → Linked h q.head (x ∷ xs) p s
    → (q' : AuthQueue) × (h' : Sessions) × (auth_queue_enqueue p q h ≡ ok (q', h'))
      × IsQueue q' h' (x ∷ xs ++ p ∷ [])
      × SameBut h h'
unfolding auth_queue_enqueue
enqueue-Linked {q} {h} {x} {xs} p {s} is at out l =
    let h1 = write h p (some (set_next none s)) in
    let apart : (l.t == p) ≡ false = ==_ne l.t p (x ∷ xs) l.among out in
    let at1 : h1 l.t ≡ some l.st = write_ne h p _ l.t apart ∙ l.at in
    (
      record { head = q.head; tail = some p; sem = q.sem + 1 },
      linked h p s l.t l.st,
      rw (at, is.last, l.last, link, at1),
      record {
        chain = l.chain;
        last = sym (last-append (x ∷ xs) p);
        distinct = Distinct-append (x ∷ xs) p is.distinct out;
        posted = omega (arith, is.posted, length-append (x ∷ xs) (p ∷ []));
      },
      λ a. unlinked-write h1 l.t (some p) at1 a ∙ unlinked-write h p none at a,
    )

-- The queue takes a session that is not in it behind all others, posts the semaphore, and changes
-- nothing else of any session.
pub enqueue-append :
    {q : AuthQueue} {h : Sessions} {xs : List ℕ} (p : ℕ) {s : Session}
    → IsQueue q h xs
    → h p ≡ some s
    → has p xs ≡ false
    → (q' : AuthQueue) × (h' : Sessions) × (auth_queue_enqueue p q h ≡ ok (q', h'))
      × IsQueue q' h' (xs ++ p ∷ [])
      × SameBut h h'
unfolding auth_queue_enqueue
enqueue-append {q} {h} {xs = []} p {s} is at out =
    let h1 = write h p (some (set_next none s)) in
    (
      record { head = some p; tail = some p; sem = q.sem + 1 },
      h1,
      rw (modify_lem p (set_next none) h at, is.last),
      record {
        chain = (set_next none s, refl, write_self h p _, refl);
        last = refl;
        distinct = (refl, tt);
        posted = omega (arith, is.posted);
      },
      unlinked-write h p none at,
    )
enqueue-append {q} {h} {xs = x ∷ xs} p {s} is at out =
    enqueue-Linked p is at out (link_lem h q.head x xs p s is.chain is.distinct out)

new_tail_lem :
    (h : Sessions) (n tail : Option ℕ) (x : ℕ) (xs : List ℕ)
    → Chain h n xs
    → tail ≡ last? (x ∷ xs)
    → new_tail n tail ≡ last? xs
new_tail_lem h n tail x [] c e = rw c
new_tail_lem h n tail x (y ∷ ys) (s, f, _, _) e = rw f e

-- The session that was enqueued first comes out, with no successor, and the others stay.
pub dequeue-cons :
    {q : AuthQueue} {h : Sessions} {x : ℕ} {xs : List ℕ}
    → IsQueue q h (x ∷ xs)
    → (q' : AuthQueue) × (h' : Sessions) × (auth_queue_dequeue false q h ≡ ok (session x, q', h'))
      × IsQueue q' h' xs
      × SameBut h h'
unfolding auth_queue_dequeue
dequeue-cons {q} {h} {x} {xs} is =
    let (s, e, at, c) = is.chain in
    (
      record { head = s.next; tail = new_tail s.next q.tail; sem = length xs },
      write h x (some (set_next none s)),
      rw (is.posted, e, take_sem, unlink, at),
      record {
        chain = frame-write h x _ s.next xs is.distinct.0 c;
        last = new_tail_lem h s.next q.tail x xs c is.last;
        distinct = is.distinct.1;
        posted = refl;
      },
      unlinked-write h x none at,
    )

-- On an empty queue the caller waits.
pub dequeue-empty :
    {q : AuthQueue} {h : Sessions}
    → IsQueue q h []
    → auth_queue_dequeue false q h ≡ ok (waits, q, h)
unfolding auth_queue_dequeue
dequeue-empty is = rw (is.posted, take_sem) refl
