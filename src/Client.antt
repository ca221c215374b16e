-- ===== src/Client.antt =====
-- The client's handlers of received packets: those of src/shared/sqmp.c that only the client uses, and
-- those of src/client/client.c, with its `on_stream_recv` and `on_disconnected`. What they print for a
-- packet, on stdout or stderr, is kept as data; redrawing the prompt is left out, and what
-- `on_disconnected` prints. A semaphore is the number that its value is.
pub mod Crypto
pub mod Chat
pub mod Replies
pub mod Handled
pub mod Sound
pub mod Heard
pub mod Wrapper
pub mod Events
pub mod Waits
pub mod Login
pub mod Commands
pub mod Main
pub mod Parsed
pub mod SignIn
pub mod Admitted
pub mod Sent
pub mod Stale
pub mod Orphan
pub mod Joined
pub mod Started
pub mod Tests
use squimpchat.Base.{
  ℕ, zero, suc, ◌+◌, ◌-◌, Bool, true, false, ◌||◌, Option, none, some, List, [], ◌∷◌, ltb, ◌==◌,
  if◌then◌else◌, negate, drop, zeros, Run, ok, fault, ◌>>=◌, memcpy,
}
use squimpchat.Session.{
  Session, SessionState, auth, conn_established, is_hello, is_auth, is_established,
}
use squimpchat.Base.{deref}
use squimpchat.Net.{stream_get_user_data, Net, answer, asked, stream_send}
use squimpchat.Wire.{
  bytes_at, uint_at, msg_type_at, session_id_at, pkt_fixed_len, type_hello_ack, type_auth_resp,
  type_key_resp, type_chat_deliver, type_error, type_bye, error_user_not_found,
}
use squimpchat.Wire.Packets.{bye_packet}
use squimpchat.Server.Users.{c_string}
use squimpchat.Client.Crypto.{OpenSsl, decrypt_chat}

-- What the client prints.
pub data Line : Type 0 where
  server_error : ℕ → List ℕ → Line
  chat : List ℕ → List ℕ → Line
  cannot_decrypt : List ℕ → Line
  alloc_error : List ℕ → Line
  decrypt_failed : List ℕ → Line
  sent_to : List ℕ → List ℕ → Line
  usage : Line
  name_too_long : Line
  key_timeout : List ℕ → Line
  send_failed : Line
  invalid_username : Line
  auth_send_failed : Line
  hello_ack_unexpected : SessionState → Line
  unsupported_version : ℕ → Line
  auth_resp_unexpected : SessionState → Line
  auth_failed : ℕ → Line
  chat_unexpected : SessionState → Line
  short_packet : ℕ → Line
  unhandled : ℕ → Line

pub record Client : Type 0 where
  pub session : Session
  pub interrupted : Bool
  pub conn_alive : Bool
  -- what was printed, the last first
  pub lines : List Line
  pub net : Net

-- What `printf` prints for `%.*s`: at most `n` bytes, up to a 0; no byte behind these is read.
unfoldable pub printed : ℕ → List ℕ → Run (List ℕ)
printed zero s = ok []
printed (suc n) [] = fault
printed (suc n) (c ∷ s) =
    let rest = printed n s in if c == 0 then ok [] else (do cs ← rest; ok (c ∷ cs))

-- One more line.
abbrev pub says : Line → Client → Client
says l c = record c { lines = l ∷ c.lines }

-- `sqmp_process_hello_ack`, where `session` is not NULL
unfoldable pub process_hello_ack : List ℕ → Client → Run Client
process_hello_ack pkt c =
    if negate (is_hello c.session.state)
    then ok (says (hello_ack_unexpected c.session.state) c)
    else (do
      version ← uint_at 12 1 pkt
      if negate (version == 1) then ok (says (unsupported_version version) c) else (do
        id ← session_id_at pkt
        ok (record c {
          session = record c.session {
            session_id = id;
            state = auth;
            login_ready = c.session.login_ready + 1;
          };
        })))

-- The client after the `if` of `sqmp_process_auth_resp`, in state AUTH.
abbrev pub with_status : ℕ → Client → Client
with_status status c =
    if status == 0
    then record c { session = record c.session { state = conn_established; auth_ok = true } }
    else record c {
      session = record c.session { auth_ok = false };
      lines = auth_failed status ∷ c.lines;
    }

-- `sqmp_process_auth_resp`, where `session` is not NULL
unfoldable pub process_auth_resp : List ℕ → Client → Run Client
process_auth_resp pkt c = do
  c1 ←
      if is_auth c.session.state
      then (do status ← uint_at 12 1 pkt; ok (with_status status c))
      else ok (says (auth_resp_unexpected c.session.state) c)
  ok (record c1 { session = record c1.session { auth_done = c1.session.auth_done + 1 } })

-- `sqmp_process_key_resp`, where `session` is not NULL
unfoldable pub process_key_resp : List ℕ → Client → Run Client
process_key_resp pkt c = do
  klen ← uint_at 45 2 pkt
  key ← if klen == 32 then memcpy c.session.key_fetch_result (drop 47 pkt) 32 else ok (zeros 32)
  ok (record c {
    session = record c.session {
      key_fetch_result = key;
      key_fetch_sem = c.session.key_fetch_sem + 1;
    };
  })

-- `session ? session->session_id : 0`
abbrev own_id : Option ℕ → Client → ℕ
own_id none c = 0
own_id (some p) c = c.session.session_id

-- The client's `sqmp_process_bye`
unfoldable pub process_bye : ℕ → Option ℕ → Client → Run Client
process_bye stream sp c = do
  (_, n) ← stream_send stream (bye_packet (own_id sp c)) c.net
  ok (record c { net = n; interrupted = true })

-- The key fetch ends without a key, if there is a session.
abbrev pub no_key : Option ℕ → Client → Client
no_key none c = c
no_key (some p) c = record c {
  session = record c.session {
    key_fetch_result = zeros 32;
    key_fetch_sem = c.session.key_fetch_sem + 1;
  };
}

-- The client's `sqmp_process_error`
unfoldable pub process_error : Option ℕ → List ℕ → Client → Run Client
unfolding printed
process_error sp pkt c = do
  code ← uint_at 12 1 pkt
  dlen ← uint_at 13 1 pkt
  desc ← printed dlen (drop 14 pkt)
  let c1 = says (server_error code desc) c
  ok (if code == error_user_not_found then no_key sp c1 else c1)

-- What is printed for a message that has been decrypted, or not.
abbrev outcome : List ℕ → Option (List ℕ) → Line
outcome from none = decrypt_failed from
outcome from (some plaintext) = chat from (c_string plaintext)

-- The message of a chat packet whose lengths are right.
unfoldable pub show_chat : OpenSsl → List ℕ → List ℕ → ℕ → Client → Run Client
show_chat crypto from pkt ciphertext_len c =
    let c1 = record c { net = asked c.net } in
    if negate (answer c.net) then ok (record c1 { lines = alloc_error from ∷ c.lines }) else (do
      ephemeral ← bytes_at 47 32 pkt
      nonce ← bytes_at 303 12 pkt
      ciphertext ← bytes_at 319 ciphertext_len pkt
      ok (record c1 {
        lines =
            outcome from (decrypt_chat crypto c.session.client_privkey ephemeral nonce ciphertext)
            ∷ c.lines;
      }))

-- The client's `sqmp_process_chat_deliver`
unfoldable pub process_chat_deliver : OpenSsl → List ℕ → Client → Run Client
unfolding show_chat printed
process_chat_deliver crypto pkt c =
    if negate (is_established c.session.state)
    then ok (says (chat_unexpected c.session.state) c)
    else (do
      sender_len ← uint_at 12 1 pkt
      from ← printed sender_len (drop 13 pkt)
      enc_key_len ← uint_at 45 2 pkt
      ciphertext_len ← uint_at 315 4 pkt
      if negate (enc_key_len == 32) || ltb ciphertext_len 16
          then ok (record c { lines = cannot_decrypt from ∷ c.lines })
          else show_chat crypto from pkt ciphertext_len c)

-- The `switch` of the client's `on_stream_recv`. The pointer to the session is NULL, or leads to the session
-- of `main`; the handlers of the first four messages read the session whatever is in the packet.
unfoldable pub dispatch_packet : OpenSsl → ℕ → ℕ → Option ℕ → List ℕ → Client → Run Client
dispatch_packet crypto t stream sp pkt c =
    if t == type_hello_ack
    then (do _ ← deref sp; process_hello_ack pkt c)
    else if t == type_auth_resp
    then (do _ ← deref sp; process_auth_resp pkt c)
    else if t == type_key_resp
    then (do _ ← deref sp; process_key_resp pkt c)
    else if t == type_chat_deliver
    then (do _ ← deref sp; process_chat_deliver crypto pkt c)
    else if t == type_error
    then process_error sp pkt c
    else if t == type_bye
    then process_bye stream sp c
    else ok (says (unhandled t) c)

-- The client's `on_stream_recv`
unfoldable pub on_stream_recv : OpenSsl → ℕ → List ℕ → ℕ → Client → Run Client
unfolding dispatch_packet
on_stream_recv crypto stream pkt len c =
    if ltb len pkt_fixed_len then ok (says (short_packet len) c) else (do
      sp ← stream_get_user_data stream c.net
      t ← msg_type_at pkt
      dispatch_packet crypto t stream sp pkt c)

-- The client's `on_disconnected`
unfoldable pub on_disconnected : Client → Client
on_disconnected c = record c { conn_alive = false; interrupted = true }
