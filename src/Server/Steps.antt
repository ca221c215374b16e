-- ===== src/Server/Steps.antt =====
-- The server as a whole: the callbacks of MsQuic's threads, and the main thread, in any order. Each
-- callback and each pass of the main loop is one step (src/server/server.c).
use squimpchat.Base.{
  ℕ, ◌≡◌, inl, inr, Option-cases, Bool, true, false, Option, none, some, List, [], ◌∷◌, ok, Safe,
  Safe-bind, Safe-any, Safe-if, Safe-ok, Safe-mono,
}
use squimpchat.Session.{Sessions}
use squimpchat.Queue.{auth_queue_init}
use squimpchat.Registry.{Entry, Registry, init}
use squimpchat.Registry.Remove.{init-IsRegistry}
use squimpchat.Net.{Net}
use squimpchat.Wire.Packets.{bye_packet}
use squimpchat.Server.{Server, send}
use squimpchat.Server.Kept.{IsServer, Kept, Kept-IsServer}
use squimpchat.Server.Answered.{send-Frozen}
use squimpchat.Server.Frozen.{Frozen, Frozen-net, Frozen-trans}
use squimpchat.Server.Received.{stream_cb_receive-Safe}
use squimpchat.Server.Callbacks.{
  on_connected, on_stream_open, on_stream_closed, on_disconnected, stream_cb_receive,
}
use squimpchat.Server.Worker.{
  Pass, worker_pass, bye_to, registry_send_bye_all, registry_shutdown_connections, shut_down,
}
use squimpchat.Server.Passes.{worker_pass-IsServer}
use squimpchat.Server.Invariant.{
  Frozen-IsServer, on_connected-IsServer, on_stream_open-IsServer, on_stream_closed-IsServer,
  on_disconnected-IsServer,
}

-- The server when it begins to listen.
abbrev pub start : Net → Server
start n = record {
  sessions = λ a. none;
  queue = auth_queue_init;
  registry = init;
  next_session_id = 1;
  net = n;
}

-- What `calloc` returns is not in use.
abbrev pub Unused : Option ℕ → Sessions → Type 0
Unused none h = Unit
Unused (some p) h = h p ≡ none

-- A step that has no undefined behaviour. The last is that of the environment: MsQuic and its
-- callbacks allocate and free connections and streams, and its answers change.
pub data Step (sv sv' : Server) : Type 0 where
  connected :
      (conn : ℕ) (alloc : Option ℕ)
      → Unused alloc sv.sessions
      → on_connected conn alloc sv ≡ ok sv'
      → Step sv sv'
  stream_opened : (conn stream : ℕ) → on_stream_open conn stream sv ≡ ok sv' → Step sv sv'
  received :
      (stream : ℕ) (buffers : List (List ℕ))
      → stream_cb_receive stream buffers sv ≡ ok sv'
      → Step sv sv'
  stream_closed : (stream : ℕ) → on_stream_closed stream sv ≡ ok sv' → Step sv sv'
  disconnected : (conn : ℕ) → on_disconnected conn sv ≡ ok sv' → Step sv sv'
  worked :
      (users : Option (List ℕ)) (stop interrupted : Bool) (pass : Pass)
      → worker_pass users stop interrupted sv ≡ ok (pass, sv')
      → Step sv sv'
  stopped : (stop : Bool) → shut_down stop sv ≡ ok sv' → Step sv sv'
  network : (n : Net) → sv' ≡ record sv { net = n } → Step sv sv'

pub data Steps (sv : Server) : Server → Type 0 where
  here : Steps sv sv
  on : {a b : Server} → Steps sv a → Step a b → Steps sv b

bye_to-Frozen : (e : Entry) (sv : Server) → Safe (Frozen sv) (bye_to e sv)
unfolding bye_to
bye_to-Frozen e sv = elim (Option-cases e.stream) [
  | inl none_open ↦ rw none_open (Frozen-net sv sv.net)
  | inr (stream, at) ↦ rw at (
      Safe-if (Frozen sv) e.in_use _ _
        (Safe-bind (λ r. Frozen sv r.1) (Frozen sv) (send stream (bye_packet 0) sv) _
          (send-Frozen stream (bye_packet 0) sv) λ r f. f)
        (Frozen-net sv sv.net))
]

registry_send_bye_all-Frozen :
    (r : Registry) (sv : Server) → Safe (Frozen sv) (registry_send_bye_all r sv)
unfolding registry_send_bye_all
registry_send_bye_all-Frozen [] sv = Frozen-net sv sv.net
registry_send_bye_all-Frozen (e ∷ es) sv =
    Safe-bind (Frozen sv) (Frozen sv) (bye_to e sv) _ (bye_to-Frozen e sv) λ sv1 f.
      Safe-mono (Frozen sv1) (Frozen sv) _ (λ v g. Frozen-trans f g)
        (registry_send_bye_all-Frozen es sv1)

pub shut_down-Frozen : (stop : Bool) (sv : Server) → Safe (Frozen sv) (shut_down stop sv)
unfolding shut_down
shut_down-Frozen false sv = Frozen-net sv sv.net
shut_down-Frozen true sv =
    Safe-bind (Frozen sv) (Frozen sv) (registry_send_bye_all sv.registry sv) _
      (registry_send_bye_all-Frozen sv.registry sv)
      λ sv1 f.
        Safe-any (Frozen sv) (registry_shutdown_connections sv1.registry sv1.net) _
          λ n. Frozen-trans f (Frozen-net sv1 n)

pub start-IsServer : (n : Net) → IsServer (start n)
start-IsServer n = record {
  registry = init-IsRegistry.0;
  sessions = λ a. tt;
  logins = record { online = λ a j e. absurd (nobody e); single = λ a b j e f. absurd (nobody e) };
}
  where
    nobody : {j : List ℕ} → none ≡ some j → ⊥
    nobody e = cc

pub Step-IsServer : {sv sv' : Server} → Step sv sv' → IsServer sv → IsServer sv'
Step-IsServer {sv} (connected conn alloc new e) w =
    Safe-ok IsServer _ (on_connected-IsServer conn alloc sv w) e
Step-IsServer {sv} (stream_opened conn stream e) w =
    Safe-ok IsServer _ (on_stream_open-IsServer conn stream sv w) e
Step-IsServer {sv} (received stream buffers e) w =
    Kept-IsServer (Safe-ok (Kept sv) _ (stream_cb_receive-Safe stream buffers sv) e) w
Step-IsServer {sv} (stream_closed stream e) w =
    Safe-ok IsServer _ (on_stream_closed-IsServer stream sv w) e
Step-IsServer {sv} (disconnected conn e) w =
    Safe-ok IsServer _ (on_disconnected-IsServer conn sv w) e
Step-IsServer {sv} (worked users stop interrupted pass e) w =
    Safe-ok (λ r. IsServer r.1) _ (worker_pass-IsServer users stop interrupted sv w) e
Step-IsServer {sv} (stopped stop e) w =
    Frozen-IsServer (Safe-ok (Frozen sv) _ (shut_down-Frozen stop sv) e) w
Step-IsServer {sv} (network n e) w = rw e (Frozen-IsServer (Frozen-net sv n) w)

-- In every state that the server reaches from its start without undefined behaviour, by callbacks
-- and passes of the main loop in any order, and with packets of any bytes: the arrays of every
-- session have their sizes, the names in them fit, the registry has its 64 well-formed entries, no
-- name is online twice, every name under which a session is logged in is online, and no two
-- sessions are logged in under one name.
pub Steps-IsServer : {n : Net} {sv : Server} → Steps (start n) sv → IsServer sv
Steps-IsServer {n} here = start-IsServer n
Steps-IsServer (on steps step) = Step-IsServer step (Steps-IsServer steps)
