-- ===== src/Queue/Links.antt =====
-- The functions of the auth queue (src/shared/sqmp.c) on an arbitrary queue: what they write.
use squimpchat.Base.{
  ℕ, zero, suc, true, false, deref, Safe-any, refl, ◌∙◌, inl, inr, Bool, Option, none, some,
  Option-cases, Safe, Safe-bind,
}
use squimpchat.Session.{Sessions, modify}
use squimpchat.Queue.{
  AuthQueue, set_next, link, unlink, take_sem, auth_queue_enqueue, auth_queue_dequeue,
}
use squimpchat.Queue.Chains.{SameBut, unlinked-write}

modify-SameBut : (p : ℕ) (n : Option ℕ) (h : Sessions) → Safe (SameBut h) (modify p (set_next n) h)
unfolding modify
modify-SameBut p n h = elim (Option-cases (h p)) [
  | inl e ↦ rw e tt
  | inr (s, e) ↦ rw e (unlinked-write h p n e)
]

link-SameBut :
    (p : ℕ) (t : Option ℕ) (q : AuthQueue) (h : Sessions) → Safe (λ r. SameBut h r.1) (link p t q h)
unfolding link
link-SameBut p none q h = λ a. refl
link-SameBut p (some t) q h =
    Safe-bind (SameBut h) (λ r. SameBut h r.1) (modify t (set_next (some p)) h) _
      (modify-SameBut t (some p) h) λ h' same. same

-- An enqueue changes no session but for its link, in whatever state the queue is.
pub auth_queue_enqueue-SameBut :
    (p : ℕ) (q : AuthQueue) (h : Sessions) → Safe (λ r. SameBut h r.1) (auth_queue_enqueue p q h)
unfolding auth_queue_enqueue
auth_queue_enqueue-SameBut p q h =
    Safe-bind (SameBut h) (λ r. SameBut h r.1) (modify p (set_next none) h) _
      (modify-SameBut p none h)
      λ h1 same1.
        Safe-bind (λ r. SameBut h1 r.1) (λ r. SameBut h r.1) (link p q.tail q h1) _
          (link-SameBut p q.tail q h1) λ r same2 a. same2 a ∙ same1 a

unlink-SameBut :
    (p : Option ℕ) (q : AuthQueue) (h : Sessions) → Safe (λ r. SameBut h r.2) (unlink p q h)
unfolding unlink
unlink-SameBut none q h = λ a. refl
unlink-SameBut (some p) q h =
    Safe-any (λ r. SameBut h r.2) (deref (h p)) _
      λ s.
        Safe-bind (SameBut h) (λ r. SameBut h r.2) (modify p (set_next none) h) _
          (modify-SameBut p none h) λ h' same. same

take_sem-SameBut :
    (n : ℕ) (q : AuthQueue) (h : Sessions) → Safe (λ r. SameBut h r.2) (take_sem n q h)
unfolding take_sem
take_sem-SameBut zero q h = λ a. refl
take_sem-SameBut (suc n) q h = unlink-SameBut q.head (record q { sem = n }) h

-- Nor does a dequeue.
pub auth_queue_dequeue-SameBut :
    (interrupted : Bool) (q : AuthQueue) (h : Sessions)
    → Safe (λ r. SameBut h r.2) (auth_queue_dequeue interrupted q h)
unfolding auth_queue_dequeue
auth_queue_dequeue-SameBut true q h = λ a. refl
auth_queue_dequeue-SameBut false q h = take_sem-SameBut q.sem q h
