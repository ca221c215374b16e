-- ===== src/Trace.antt =====
-- `sqmp_dbg_recv_pkt` of src/shared/sqmp.c: what a debug build prints of a packet that it has received. Other
-- builds print nothing.
pub mod Shown
mod Tests
use squimpchat.Base.{
  ℕ, ◌+◌, Bool, true, false, Option, none, some, List, drop, ◌==◌, if◌then◌else◌, Run, ok, ◌>>=◌,
}
use squimpchat.Wire.{
  uint_at, msg_type_at, session_id_at, type_hello, type_hello_ack, type_auth_req, type_auth_resp,
  type_key_req, type_key_resp, type_error, type_bye, type_chat_send, type_chat_deliver,
}
use squimpchat.Client.{printed}

-- A line, by the values in it.
pub data Traced : Type 0 where
  hello : (num_versions : ℕ) → Traced
  hello_ack : (session version : ℕ) → Traced
  auth_req : (user : List ℕ) → Traced
  auth_resp : (granted : Bool) (session : ℕ) → Traced
  key_req : (name : List ℕ) → Traced
  key_resp : (name : List ℕ) → Traced
  error : (code : ℕ) (desc : List ℕ) → Traced
  bye : (session : ℕ) → Traced
  chat_send : (name : List ℕ) (ciphertext_len : ℕ) → Traced
  chat_deliver : (name : List ℕ) (ciphertext_len : ℕ) → Traced
  unknown : (msg_type session : ℕ) → Traced

-- A text behind the byte with its length.
unfoldable pub text_at : ℕ → List ℕ → Run (List ℕ)
text_at off pkt = do n ← uint_at off 1 pkt; printed n (drop (off + 1) pkt)

-- The `switch`.
unfoldable pub traced : ℕ → List ℕ → Run Traced
unfolding text_at
traced t pkt =
    if t == type_hello
    then (do n ← uint_at 12 1 pkt; ok (hello n))
    else if t == type_hello_ack
    then (do id ← session_id_at pkt; version ← uint_at 12 1 pkt; ok (hello_ack id version))
    else if t == type_auth_req
    then (do user ← text_at 12 pkt; ok (auth_req user))
    else if t == type_auth_resp
    then (do status ← uint_at 12 1 pkt; id ← uint_at 13 4 pkt; ok (auth_resp (status == 0) id))
    else if t == type_key_req
    then (do name ← text_at 12 pkt; ok (key_req name))
    else if t == type_key_resp
    then (do name ← text_at 12 pkt; ok (key_resp name))
    else if t == type_error
    then (do code ← uint_at 12 1 pkt; desc ← text_at 13 pkt; ok (error code desc))
    else if t == type_bye
    then (do id ← session_id_at pkt; ok (bye id))
    else if t == type_chat_send
    then (do name ← text_at 12 pkt; len ← uint_at 315 4 pkt; ok (chat_send name len))
    else if t == type_chat_deliver
    then (do name ← text_at 12 pkt; len ← uint_at 315 4 pkt; ok (chat_deliver name len))
    else (do id ← session_id_at pkt; ok (unknown t id))

-- `sqmp_dbg_recv_pkt`; `debug` says whether DEBUG is defined.
unfoldable pub dbg_recv_pkt : (debug : Bool) → List ℕ → Run (Option Traced)
dbg_recv_pkt false pkt = ok none
dbg_recv_pkt true pkt = do t ← msg_type_at pkt; line ← traced t pkt; ok (some line)
