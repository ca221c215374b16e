-- ===== src/Queue/Tests.antt =====
-- Three sessions and an auth queue (src/shared/sqmp.c) with two of them.
use squimpchat.Base.{◌≡◌, refl, none, some, [], ◌∷◌, ◌==◌, if◌then◌else◌, ok}
use squimpchat.Session.{Sessions, zero_session}
use squimpchat.Queue.{AuthQueue, set_next, auth_queue_enqueue}
use squimpchat.Queue.Chains.{IsQueue, SameBut}
use squimpchat.Queue.Fifo.{enqueue-append}

abbrev sessions : Sessions
sessions a =
    if a == 100
    then some (set_next (some 200) zero_session)
    else if (a == 200)
    then some zero_session
    else if a == 300
    then some zero_session
    else none

abbrev queue : AuthQueue
queue = record { head = some 100; tail = some 200; sem = 2 }

queue-IsQueue : IsQueue queue sessions (100 ∷ 200 ∷ [])
queue-IsQueue = record {
  chain = (set_next (some 200) zero_session, refl, refl, (zero_session, refl, refl, refl));
  last = refl;
  distinct = (refl, (refl, tt));
  posted = refl;
}

enqueue-append_example :
    (q : AuthQueue) × (h : Sessions) × (auth_queue_enqueue 300 queue sessions ≡ ok (q, h))
    × IsQueue q h (100 ∷ 200 ∷ 300 ∷ [])
    × SameBut sessions h
enqueue-append_example = enqueue-append 300 queue-IsQueue refl refl
