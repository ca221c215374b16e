-- ===== src/Quic.antt =====
-- The context of src/shared/msquic_wrapper.c: `sqmp_quic_init`, `sqmp_quic_listen` and
-- `sqmp_quic_destroy`. Each call of `calloc` and of MsQuic is answered by the environment; what is
-- printed on a failure is left out, and so are the parameters that only MsQuic reads (the ALPN, the
-- port, the paths of the certificate and the key).
pub mod Held
pub mod Callbacks
pub mod Connect
pub mod Context
pub mod Opened
use squimpchat.Base.{
  ℕ, ◌/◌, ◌%◌, ◌^◌, Bool, true, false, Option, none, some, ◌==◌, if◌then◌else◌, negate,
}
use squimpchat.Net.{
  Net, Resource, library, registration, configuration, listener, Settings, ApiCall, open_call,
  start_call, close_call, settings_call, answer, asked, given, log,
}

-- `sqmp_quic_ctx_t`. Of the configuration that is copied into it this is the idle timeout; the
-- callbacks are in `Callbacks`.
pub record Ctx : Type 0 where
  pub reg : Option ℕ
  pub config : Option ℕ
  pub listener : Option ℕ
  pub idle_timeout_ms : ℕ

-- `sqmp_quic_init`: `none` for NULL.
unfoldable pub quic_init : ℕ → Net → Option Ctx × Net
quic_init idle n =
    let n1 = asked n in
    let n2 = log (open_call library) (asked n1) in
    let n3 = asked n2 in
    let ctx : Ctx = record {
      reg = some (given n2);
      config = none;
      listener = none;
      idle_timeout_ms = idle;
    } in
    if negate (answer n)
    then (none, n1)
    else if negate (answer n1)
    then (none, asked n1)
    else if negate (answer n2)
    then (none, log (close_call library) n3)
    else (some ctx, log (open_call (registration (given n2))) n3)

-- A handle of the context is closed if it is set.
abbrev pub close_set : (ℕ → Resource) → Option ℕ → Net → Net
close_set r none n = n
close_set r (some h) n = log (close_call (r h)) n

-- `sqmp_quic_destroy`
unfoldable pub quic_destroy : Option Ctx → Net → Net
quic_destroy none n = n
quic_destroy (some c) n = log (close_call library) (
    close_set registration c.reg
      (close_set configuration c.config (close_set listener c.listener n)))

-- The idle timeout that is asked for: 30 seconds if the program gives none.
unfoldable pub idle_ms : ℕ → ℕ
idle_ms idle = if idle == 0 then 30000 else idle

-- The settings of the server's configuration.
unfoldable pub listen_settings : ℕ → Settings
unfolding idle_ms
listen_settings idle = record {
  idle_timeout_ms = idle_ms idle;
  keep_alive_interval_ms = none;
  peer_bidi_stream_count = 16;
}

-- The settings of the client's configuration.
unfoldable pub connect_settings : ℕ → Settings
unfolding idle_ms
connect_settings idle = record {
  idle_timeout_ms = idle_ms idle;
  keep_alive_interval_ms = some (idle_ms idle / 2 % 2 ^ 32);
  peer_bidi_stream_count = 16;
}

-- A configuration that MsQuic has opened, with its settings.
abbrev pub configured : Settings → Net → Net
configured s n =
    log (settings_call (given n) s) (log (open_call (configuration (given n))) (asked n))

-- `sqmp_quic_listen`: `true` for 0, `false` for -1.
unfoldable pub quic_listen : Ctx → Net → Bool × Ctx × Net
unfolding listen_settings
quic_listen c n =
    let c1 = record c { config = some (given n) } in
    let n1 = configured (listen_settings c.idle_timeout_ms) n in
    let n2 = asked n1 in
    let c2 = record c1 { listener = some (given n2) } in
    let n3 = log (open_call (listener (given n2))) (asked n2) in
    let n4 = asked n3 in
    if negate (answer n)
    then (false, c, asked n)
    else if negate (answer n1)
    then (false, c1, n2)
    else if negate (answer n2)
    then (false, c1, asked n2)
    else if negate (answer n3)
    then (false, c2, n4)
    else (true, c2, log (start_call (listener (given n2))) n4)
