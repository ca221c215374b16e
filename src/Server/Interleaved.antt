-- ===== src/Server/Interleaved.antt =====
-- The main loop in small steps, with MsQuic's threads between them (src/server/server.c): the invariant.
use mathlib.Core.Path.{subst}
use squimpchat.Base.{◌∙◌, sym, Safe-ok}
use squimpchat.Net.{Net}
use squimpchat.Server.{Server}
use squimpchat.Server.Exclusive.{Unclaimed-Fewer}
use squimpchat.Server.Invariant.{Frozen-IsServer}
use squimpchat.Server.Login.{asked_name}
use squimpchat.Server.Quiet.{Quiet, Step-Quiet}
use squimpchat.Server.Steps.{start, Step-IsServer, start-IsServer, shut_down-Frozen}
use squimpchat.Server.Frozen.{Frozen}
use squimpchat.Server.Turns.{
  Place, waiting, taken, cleared, alive, named, checked, scanned, added, answering, sending, ended,
}
use squimpchat.Server.Moves.{
  Reserved, Undisturbed, Move, works, stops, called, Moves, here, on, Holds,
}
use squimpchat.Server.TurnsHold.{worker_step-Holds}

Reserved-Quiet :
    (place : Place) (sv sv' : Server)
    → Quiet sv sv'
    → Undisturbed place sv sv'
    → Reserved place sv
    → Reserved place sv'
Reserved-Quiet waiting sv sv' q u r = tt
Reserved-Quiet (taken p) sv sv' q u r = tt
Reserved-Quiet (cleared p) sv sv' q u r = tt
Reserved-Quiet (alive p) sv sv' q u r = tt
Reserved-Quiet (named p username) sv sv' q u r = tt
Reserved-Quiet (checked p right) sv sv' q u r = tt
Reserved-Quiet (scanned p ulen stream scan) sv sv' q (u, same) (s, at, len, is) =
    let (t, at', name, len') = u s at in (t, at', len' ∙ len, rw (same, name) is)
Reserved-Quiet (added p) sv sv' q u (s, at, has, free) =
    let (t, at', same) = u s at in
    (
      t,
      at',
      rw (same, q.spares (asked_name s) free) has,
      rw same (Unclaimed-Fewer (asked_name s) sv.sessions sv'.sessions q.fewer free),
    )
Reserved-Quiet (answering p granted) sv sv' q u r = tt
Reserved-Quiet (sending p granted stream) sv sv' q u r = tt
Reserved-Quiet ended sv sv' q u r = tt

Move-Holds :
    {place next : Place} {sv sv' : Server}
    → Move place sv next sv'
    → Holds place sv
    → Holds next sv'
Move-Holds {place} {sv} (works users stop interrupted e) h =
    Safe-ok (λ r. Holds r.0 r.1) _ (worker_step-Holds users stop interrupted place sv h) e
Move-Holds {place} {sv} {sv'} (stops stop at e) h = (
  Frozen-IsServer (Safe-ok (Frozen sv) _ (shut_down-Frozen stop sv) e) h.0,
  subst (λ x. Reserved x sv') (sym at) tt,
)
Move-Holds {place} {sv} {sv'} (called step o u) h =
    (Step-IsServer step h.0, Reserved-Quiet place sv sv' (Step-Quiet step o h.0) u h.1)

-- The main thread and MsQuic's threads in any order, where the body of the main loop is divided
-- into steps, callbacks come between any two of them, and packets have any bytes. The steps are:
-- the test of `g_stop` with `sqmp_auth_queue_dequeue`, the write to `auth_queued`, the test of
-- `conn_closed`, the copy of the name, `verify_credentials`, the scan of the entries in
-- `sqmp_registry_add`, its writes to an entry, which read the session anew, the three writes that log
-- the session in, the read of `auth_stream`, and `send_auth_resp`, besides the shutdown behind the
-- loop. Callbacks inside of a step are not covered. It is assumed that from the end of the scan to the
-- three writes the session is not freed and its name is not changed, and that nobody changes the
-- registry between the scan and the writes to the entry, where the main thread holds its mutex. Then
-- in every state that is reached from the start without undefined behaviour the invariant holds (so
-- no two sessions are logged in under one name), behind the scan it is what a scan for the session's
-- name comes to, and between `sqmp_registry_add` and the three writes the name is online and nobody
-- is logged in under it.
pub Moves-Holds :
    {n : Net} {place : Place} {sv : Server} → Moves (start n) place sv → Holds place sv
Moves-Holds {n} here = (start-IsServer n, tt)
Moves-Holds (on moves move) = Move-Holds move (Moves-Holds moves)
