-- ===== src/Net/Send.antt =====
-- `sqmp_stream_send` of src/shared/msquic_wrapper.c on an open stream, by the two answers of the
-- environment: that of `malloc` and that of MsQuic.
use squimpchat.Base.{
  ℕ, ◌<◌, ◌%◌, ◌^◌, ◌≡◌, Bool, true, false, ◌&&◌, some, List, ◌∷◌, arith, if◌then◌else◌, length,
  take_all, ok,
}
use squimpchat.Net.{Net, Stream, Conn, answer, asked, open_stream, stream_send, as_buffer}

-- The stream and its connection are allocated.
pub record IsOpen (p : ℕ) (n : Net) : Type 0 where
  pub stream : Stream
  pub conn : Conn
  pub at : n.streams p ≡ some stream
  pub over : n.conns stream.conn ≡ some conn

-- The environment takes the next send.
abbrev pub accepts : Net → Bool
accepts n = answer n && answer (asked n)

-- The network after a send.
unfoldable pub after_send : ℕ → List ℕ → Net → Net
after_send p bytes n =
    if answer n
    then (if answer (asked n)
        then record (asked (asked n)) { sent = (p, as_buffer bytes) ∷ n.sent }
        else asked (asked n))
    else asked n

pub open_stream-IsOpen : {p : ℕ} {n : Net} (o : IsOpen p n) → open_stream p n ≡ ok o.stream
unfolding open_stream
open_stream-IsOpen o = rw (o.at, o.over)

pub stream_send-after_send :
    {p : ℕ} {n : Net} (bytes : List ℕ)
    → IsOpen p n
    → stream_send p bytes n ≡ ok (accepts n, after_send p bytes n)
unfolding stream_send after_send
stream_send-after_send bytes o = ground (arith, open_stream-IsOpen o)

-- A packet that fits in 32 bits of length is sent whole.
pub as_buffer_lem : (bytes : List ℕ) → length bytes < 2 ^ 32 → as_buffer bytes ≡ bytes
unfolding as_buffer
as_buffer_lem bytes h = take_all (length bytes % 2 ^ 32) bytes (omega arith)

-- An accepted send puts the packet in front of what was sent.
pub sent-after_send :
    (p : ℕ) (bytes : List ℕ) (n : Net)
    → accepts n ≡ true
    → length bytes < 2 ^ 32
    → (after_send p bytes n).sent ≡ (p, bytes) ∷ n.sent
unfolding after_send
sent-after_send p bytes n h k = ground (arith, as_buffer_lem bytes k)

-- A send that fails sends nothing.
pub sent-after_send_fail :
    (p : ℕ) (bytes : List ℕ) (n : Net) → accepts n ≡ false → (after_send p bytes n).sent ≡ n.sent
unfolding after_send
sent-after_send_fail p bytes n h = ground arith

pub streams-after_send :
    (p : ℕ) (bytes : List ℕ) (n : Net) → (after_send p bytes n).streams ≡ n.streams
unfolding after_send
streams-after_send p bytes n = ground arith

pub conns-after_send : (p : ℕ) (bytes : List ℕ) (n : Net) → (after_send p bytes n).conns ≡ n.conns
unfolding after_send
conns-after_send p bytes n = ground arith

-- A send leaves the streams open that are open.
pub IsOpen-after_send :
    (p : ℕ) {q : ℕ} {n : Net} (bytes : List ℕ) → IsOpen q n → IsOpen q (after_send p bytes n)
IsOpen-after_send p {n} bytes o = record {
  stream = o.stream;
  conn = o.conn;
  at = rw (streams-after_send p bytes n) o.at;
  over = rw (conns-after_send p bytes n) o.over;
}

-- A call of `malloc` leaves the streams as they are.
pub IsOpen-asked : {p : ℕ} {n : Net} → IsOpen p n → IsOpen p (asked n)
IsOpen-asked o = record { stream = o.stream; conn = o.conn; at = o.at; over = o.over }
