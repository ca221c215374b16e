-- ===== src/Quic/Context.antt =====
-- What the context holds of MsQuic: `sqmp_quic_init`, `sqmp_quic_listen` and `sqmp_quic_destroy` of
-- src/shared/msquic_wrapper.c on every path through them.
use squimpchat.Base.{
  ℕ, ◌≡◌, refl, Option, none, some, List, arith, ◌*◌, ◌≤◌, ◌<◌, ◌^◌, ◌∷◌, ◌+◌, ◌≢◌, ◌/◌, ◌%◌,
}
use squimpchat.Net.{Net, Resource, library, registration, configuration, listener, open_call}
use squimpchat.Quic.{
  Ctx, quic_init, quic_listen, quic_destroy, close_set, connect_settings, listen_settings, idle_ms,
}
use squimpchat.Quic.Held.{Holds, held, held_open, held_close, after_call}

-- A handle that may be set, in front of what else is held.
abbrev pub set_resource : (ℕ → Resource) → Option ℕ → List Resource → List Resource
set_resource r none rs = rs
set_resource r (some h) rs = r h ∷ rs

-- What a context holds, in the order in which it is closed, and `rs`.
abbrev pub resources : Ctx → List Resource → List Resource
resources c rs =
    set_resource listener c.listener
      (set_resource configuration c.config (set_resource registration c.reg (library ∷ rs)))

-- The outcome of `sqmp_quic_init`: no context and nothing held, or a context with its registration.
abbrev pub Initialized : List Resource → Option Ctx × Net → Type 0
Initialized rs (none, n) = Holds n rs
Initialized rs (some c, n) = (c.listener ≡ none) × (c.config ≡ none) × Holds n (resources c rs)

pub quic_init-Initialized :
    (idle : ℕ) (n : Net) (rs : List Resource) → Holds n rs → Initialized rs (quic_init idle n)
unfolding quic_init
quic_init-Initialized idle n rs h = ground (
  arith,
  held_close (open_call library ∷ n.api) library (held_open n.api library h),
  held_open (open_call library ∷ n.api) (registration (n.fresh (n.calls + 2)))
      (held_open n.api library h),
)

-- `sqmp_quic_listen` leaves nothing open that the context does not know.
pub quic_listen-Holds :
    (c : Ctx) (n : Net) (rs : List Resource)
    → c.listener ≡ none
    → c.config ≡ none
    → Holds n (resources c rs)
    → let r = quic_listen c n in Holds r.2 (resources r.1 rs)
unfolding quic_listen held after_call
quic_listen-Holds c n rs e f h = ground (arith, h)

close_set-Holds :
    (r : ℕ → Resource) (o : Option ℕ) (n : Net) (rs : List Resource)
    → Holds n (set_resource r o rs)
    → Holds (close_set r o n) rs
close_set-Holds r none n rs h = h
close_set-Holds r (some p) n rs h = held_close n.api (r p) h

pub quic_destroy-Holds :
    (c : Ctx) (n : Net) (rs : List Resource)
    → Holds n (resources c rs)
    → Holds (quic_destroy (some c) n) rs
unfolding quic_destroy
quic_destroy-Holds c n rs h = held_close _ library (
    close_set-Holds registration c.reg _ _
      (close_set-Holds configuration c.config _ _ (close_set-Holds listener c.listener n _ h)))

-- For an idle timeout that the program asks for in both programs, of at least 2 milliseconds and less
-- than 2 ^ 32 (0 stands for 30 seconds): the client sends a sign of life after a time that is not 0,
-- and at least twice in the time after which the server gives the connection up.
pub connect_settings-keep_alive :
    (idle : ℕ)
    → idle ≢ 1
    → idle < 2 ^ 32
    → (k : ℕ) × ((connect_settings idle).keep_alive_interval_ms ≡ some k)
      × (0 < k)
      × (2 * k ≤ (listen_settings idle).idle_timeout_ms)
unfolding connect_settings listen_settings idle_ms
connect_settings-keep_alive idle h k = (idle_ms idle / 2 % 2 ^ 32, refl, ground arith, ground arith)
