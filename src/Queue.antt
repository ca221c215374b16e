-- ===== src/Queue.antt =====
-- The auth queue of src/shared/sqmp.c: a linked list through the sessions' own `next` fields, with
-- the globals `g_auth_queue_head` and `g_auth_queue_tail` and the semaphore `g_auth_queue_sem`.
-- The list is only touched under `g_auth_queue_mutex`, so each function is one step.
pub mod Chains
pub mod Fifo
pub mod Requeue
pub mod Links
pub mod Tests
use squimpchat.Base.{
  ℕ, zero, suc, ◌+◌, Bool, true, false, Option, none, some, Run, ok, ◌>>=◌, deref,
}
use squimpchat.Session.{Session, Sessions, write, modify}

pub record AuthQueue : Type 0 where
  pub head : Option ℕ
  pub tail : Option ℕ
  pub sem : ℕ

-- `sqmp_auth_queue_init`
abbrev pub auth_queue_init : AuthQueue
auth_queue_init = record { head = none; tail = none; sem = 0 }

-- `s->next = n`
abbrev pub set_next : Option ℕ → Session → Session
set_next n s = record s { next = n }

-- The list after `session` is linked behind the tail. The semaphore is posted last.
link : ℕ → Option ℕ → AuthQueue → Sessions → Run (AuthQueue × Sessions)
link session none q h = ok (record q { head = some session; tail = some session }, h)
link session (some t) q h = do
  h' ← modify t (set_next (some session)) h
  ok (record q { tail = some session }, h')

-- `auth_queue_enqueue`
unfoldable pub auth_queue_enqueue : ℕ → AuthQueue → Sessions → Run (AuthQueue × Sessions)
unfolding link modify
auth_queue_enqueue session q h = do
  h1 ← modify session (set_next none) h
  (q', h2) ← link session q.tail q h1
  ok (record q' { sem = q'.sem + 1 }, h2)

-- What `sqmp_auth_queue_dequeue` comes to: it waits while the semaphore is 0, returns NULL, or
-- returns a session.
pub data Dequeued : Type 0 where
  waits : Dequeued
  null : Dequeued
  session : ℕ → Dequeued

abbrev new_tail : Option ℕ → Option ℕ → Option ℕ
new_tail none tail = none
new_tail (some n) tail = tail

unlink : Option ℕ → AuthQueue → Sessions → Run (Dequeued × AuthQueue × Sessions)
unlink none q h = ok (null, q, h)
unlink (some p) q h = do
  s ← deref (h p)
  h' ← modify p (set_next none) h
  ok (session p, record q { head = s.next; tail = new_tail s.next q.tail }, h')

take_sem : ℕ → AuthQueue → Sessions → Run (Dequeued × AuthQueue × Sessions)
unfolding unlink
take_sem zero q h = ok (waits, q, h)
take_sem (suc n) q h = unlink q.head (record q { sem = n }) h

-- `sqmp_auth_queue_dequeue`; `interrupted` says that a signal ends the `sem_wait`.
unfoldable pub auth_queue_dequeue :
    Bool → AuthQueue → Sessions → Run (Dequeued × AuthQueue × Sessions)
unfolding take_sem modify
auth_queue_dequeue true q h = ok (null, q, h)
auth_queue_dequeue false q h = take_sem q.sem q h
