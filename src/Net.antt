-- ===== src/Net.antt =====
-- The part of src/shared/msquic_wrapper.c that the protocol code calls: connections and streams at
-- their addresses, and sending. What `malloc`, `calloc` and MsQuic answer is not known: the `n`-th of
-- their calls is answered by `answers n`, and what it gives out is `fresh n`; both are arbitrary.
pub mod Send
use squimpchat.Base.{
  ◌%◌, ◌^◌, length, take, ℕ, suc, Bool, true, false, Option, none, some, List, ◌∷◌, ◌==◌,
  if◌then◌else◌, Run, ok, ◌>>=◌, deref,
}

-- What MsQuic opens for the program. A handle is a number.
pub data Resource : Type 0 where
  library : Resource
  registration configuration listener connection stream : ℕ → Resource

-- The options of a configuration that `QUIC_SETTINGS` sets.
pub record Settings : Type 0 where
  pub idle_timeout_ms : ℕ
  pub keep_alive_interval_ms : Option ℕ
  pub peer_bidi_stream_count : ℕ

-- The calls that open, set up, start, shut down and close what MsQuic gives out, and the events that
-- hand over a stream that the peer has started or a connection that it has opened.
pub data ApiCall : Type 0 where
  open_call start_call shutdown_call close_call : Resource → ApiCall
  settings_call : ℕ → Settings → ApiCall
  handed_over : Resource → ApiCall

-- `sqmp_stream_t`
pub record Stream : Type 0 where
  pub handle : ℕ
  pub conn : ℕ
  pub user_data : Option ℕ

-- `sqmp_conn_t`, without the pointer to the context, of which the program has one.
pub record Conn : Type 0 where
  pub handle : ℕ
  pub connect_sem : ℕ
  pub closed_sem : ℕ
  pub connected : Bool
  pub is_server : Bool
  pub user_data : Option ℕ

pub record Net : Type 0 where
  -- what is at an address: `none` if it was never allocated or is freed
  pub streams : ℕ → Option Stream
  pub conns : ℕ → Option Conn
  -- what MsQuic has taken to send, the last first, with the stream
  pub sent : List (ℕ × List ℕ)
  -- the connections that MsQuic was told to shut down, the last first
  pub shutdowns : List ℕ
  -- the calls of MsQuic's functions, the last first
  pub api : List ApiCall
  pub answers : ℕ → Bool
  pub calls : ℕ
  -- the address or handle that a call gives out, if it is answered `true`
  pub fresh : ℕ → ℕ

-- The answer to the next call of the environment.
abbrev pub answer : Net → Bool
answer n = n.answers n.calls

abbrev pub asked : Net → Net
asked n = record n { calls = suc n.calls }

-- The address or handle that the next call gives out.
abbrev pub given : Net → ℕ
given n = n.fresh n.calls

-- A call of MsQuic.
abbrev pub log : ApiCall → Net → Net
log call n = record n { api = call ∷ n.api }

-- The stream at an address, and its connection, which the code reads to reach MsQuic.
unfoldable pub open_stream : ℕ → Net → Run Stream
open_stream p n = do st ← deref (n.streams p); c ← deref (n.conns st.conn); ok st

-- What MsQuic is given to send: the length of the buffer is cut to 32 bits.
unfoldable pub as_buffer : List ℕ → List ℕ
as_buffer bytes = take (length bytes % 2 ^ 32) bytes

-- `sqmp_stream_send`: `true` for 0, `false` for -1.
unfoldable pub stream_send : ℕ → List ℕ → Net → Run (Bool × Net)
unfolding open_stream
stream_send p bytes n =
    if answer n
    then (do
      st ← open_stream p n
      ok (
          if answer (asked n)
          then (true, record (asked (asked n)) { sent = (p, as_buffer bytes) ∷ n.sent })
          else (false, asked (asked n))))
    else ok (false, asked n)

abbrev pub write_stream : (ℕ → Option Stream) → ℕ → Option Stream → ℕ → Option Stream
write_stream h p c a = if a == p then c else h a

abbrev pub write_conn : (ℕ → Option Conn) → ℕ → Option Conn → ℕ → Option Conn
write_conn h p c a = if a == p then c else h a

-- `sqmp_stream_get_user_data`
unfoldable pub stream_get_user_data : ℕ → Net → Run (Option ℕ)
stream_get_user_data p n = do st ← deref (n.streams p); ok st.user_data

-- `sqmp_stream_set_user_data`
unfoldable pub stream_set_user_data : ℕ → Option ℕ → Net → Run Net
stream_set_user_data p d n = do
  st ← deref (n.streams p)
  ok (record n { streams = write_stream n.streams p (some (record st { user_data = d })) })

-- `sqmp_conn_get_user_data`
unfoldable pub conn_get_user_data : ℕ → Net → Run (Option ℕ)
conn_get_user_data p n = do c ← deref (n.conns p); ok c.user_data

-- `sqmp_conn_set_user_data`
unfoldable pub conn_set_user_data : ℕ → Option ℕ → Net → Run Net
conn_set_user_data p d n = do
  c ← deref (n.conns p)
  ok (record n { conns = write_conn n.conns p (some (record c { user_data = d })) })
