-- ===== src/Server/Moves.antt =====
-- The steps of the main thread and of MsQuic's threads at the server (src/server/server.c), and
-- what holds between them.
use squimpchat.Base.{ℕ, ◌≡◌, ◌≢◌, Bool, Option, none, some, List, ok}
use squimpchat.Registry.{add_scan}
use squimpchat.Session.{Session}
use squimpchat.Registry.Lookup.{view}
use squimpchat.Server.{Server}
use squimpchat.Server.Exclusive.{Unclaimed}
use squimpchat.Server.Kept.{IsServer}
use squimpchat.Server.Login.{asked_name}
use squimpchat.Server.Quiet.{OfCallback}
use squimpchat.Server.Steps.{Step}
use squimpchat.Server.Worker.{shut_down}
use squimpchat.Server.Turns.{
  Place, waiting, taken, cleared, alive, named, checked, scanned, added, answering, sending, ended,
  worker_step,
}

-- Behind the scan of the registry, it is what a scan for the name now comes to. Between `sqmp_registry_add`
-- and the login, the name is online, and nobody is logged in under it.
abbrev pub Reserved : Place → Server → Type 0
Reserved waiting sv = Unit
Reserved (taken p) sv = Unit
Reserved (cleared p) sv = Unit
Reserved (alive p) sv = Unit
Reserved (named p username) sv = Unit
Reserved (checked p right) sv = Unit
Reserved (scanned p ulen stream scan) sv =
    (s : Session) × (sv.sessions p ≡ some s)
    × (s.auth_username_len ≡ ulen)
    × (add_scan 0 none sv.registry s.auth_username ulen ≡ ok scan)
Reserved (added p) sv =
    (s : Session) × (sv.sessions p ≡ some s)
    × (view sv.registry (asked_name s) ≢ none)
    × Unclaimed (asked_name s) sv.sessions
Reserved (answering p granted) sv = Unit
Reserved (sending p granted stream) sv = Unit
Reserved ended sv = Unit

-- Meanwhile the session is not freed, and no AUTH_REQ changes its name; nor does the registry change while
-- the main thread holds its mutex.
abbrev pub Undisturbed : Place → Server → Server → Type 0
Undisturbed waiting sv sv' = Unit
Undisturbed (taken p) sv sv' = Unit
Undisturbed (cleared p) sv sv' = Unit
Undisturbed (alive p) sv sv' = Unit
Undisturbed (named p username) sv sv' = Unit
Undisturbed (checked p right) sv sv' = Unit
Undisturbed (scanned p ulen stream scan) sv sv' =
    ((s : Session)
      → sv.sessions p ≡ some s
      → (t : Session) × (sv'.sessions p ≡ some t)
        × (t.auth_username ≡ s.auth_username)
        × (t.auth_username_len ≡ s.auth_username_len))
    × (sv'.registry ≡ sv.registry)
Undisturbed (added p) sv sv' =
    (s : Session)
    → sv.sessions p ≡ some s
    → (t : Session) × (sv'.sessions p ≡ some t) × (asked_name t ≡ asked_name s)
Undisturbed (answering p granted) sv sv' = Unit
Undisturbed (sending p granted stream) sv sv' = Unit
Undisturbed ended sv sv' = Unit

-- A step of the main thread, the shutdown behind its loop, or a callback.
pub data Move (place : Place) (sv : Server) : Place → Server → Type 0 where
  works :
      (users : Option (List ℕ)) (stop interrupted : Bool) {next : Place} {sv' : Server}
      → worker_step users stop interrupted place sv ≡ ok (next, sv')
      → Move place sv next sv'
  stops :
      (stop : Bool) {sv' : Server}
      → place ≡ ended
      → shut_down stop sv ≡ ok sv'
      → Move place sv place sv'
  called :
      {sv' : Server} (step : Step sv sv')
      → OfCallback step
      → Undisturbed place sv sv'
      → Move place sv place sv'

pub data Moves (sv : Server) : Place → Server → Type 0 where
  here : Moves sv waiting sv
  on :
      {place next : Place} {a b : Server} → Moves sv place a → Move place a next b → Moves sv next b

-- The invariant of the server and the main thread.
abbrev pub Holds : Place → Server → Type 0
Holds place sv = IsServer sv × Reserved place sv
