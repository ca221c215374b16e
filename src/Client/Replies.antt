-- ===== src/Client/Replies.antt =====
-- The client's handlers of src/shared/sqmp.c on the answers that the server builds.
use squimpchat.Base.{
  ℕ, ◌+◌, ◌<◌, ◌^◌, ◌≡◌, refl, ap, sym, Bool, true, false, List, [], ◌∷◌, ◌++◌, arith, length,
  drop_all, zeros, take-append_eq, length-append, ok, memcpy_lem,
}
use mathlib.Core.List.{append-nil}
use squimpchat.Session.{Session, hello, auth, conn_established, is_hello, is_auth}
use squimpchat.Wire.{le_bytes, uint_at, type_hello_ack, type_auth_resp, type_key_resp}
use squimpchat.Wire.Packets.{hello_ack_packet, auth_resp_packet, key_resp_packet}
use squimpchat.Wire.Reads.{
  byte_at-packet, uint_at-packet, drop-packet, session_id-packet, packet-append,
}
use squimpchat.Server.Worker.{auth_status}
use squimpchat.Client.{auth_failed, Client, process_hello_ack, process_auth_resp, process_key_resp}

-- The server's HELLO_ACK (whatever is behind it in the buffer), in state HELLO: the client takes over the
-- session id in it, goes to AUTH and wakes the login thread.
process_hello_ack-hello_ack_packet :
    (id : ℕ) (more : List ℕ) (c : Client)
    → id < 2 ^ 32
    → c.session.state ≡ hello
    → process_hello_ack (hello_ack_packet id ++ more) c
      ≡ ok (record c {
        session = record c.session {
          session_id = id;
          state = auth;
          login_ready = c.session.login_ready + 1;
        };
      })
unfolding process_hello_ack hello_ack_packet
process_hello_ack-hello_ack_packet id more c h st =
    rw (packet-append type_hello_ack id ((1 ∷ []) ∷ le_bytes 4 65535 ∷ zeros 2 ∷ []) more) (
      rw (
        ap is_hello st,
        byte_at-packet type_hello_ack id [] 1 (le_bytes 4 65535 ∷ zeros 2 ∷ more ∷ []) {off = 12}
            refl,
        session_id-packet type_hello_ack id ((1 ∷ []) ∷ le_bytes 4 65535 ∷ zeros 2 ∷ more ∷ []) h,
      ))

-- The session after an AUTH_RESP.
abbrev pub informed : Bool → Session → Session
informed true s = record s { state = conn_established; auth_ok = true; auth_done = s.auth_done + 1 }
informed false s = record s { auth_ok = false; auth_done = s.auth_done + 1 }

-- The client after an AUTH_RESP.
abbrev pub told : Bool → Client → Client
told true c = record c { session = informed true c.session }
told false c = record c {
  session = informed false c.session;
  lines = auth_failed (auth_status false) ∷ c.lines;
}

auth_resp_read :
    (id : ℕ) (granted : Bool) (more : List ℕ)
    → uint_at 12 1 (auth_resp_packet id (auth_status granted) ++ more) ≡ ok (auth_status granted)
unfolding auth_resp_packet
auth_resp_read id granted more =
    rw
      (packet-append type_auth_resp id ((auth_status granted ∷ []) ∷ le_bytes 4 id ∷ zeros 3 ∷ [])
        more)
      (byte_at-packet type_auth_resp id [] (auth_status granted)
        (le_bytes 4 id ∷ zeros 3 ∷ more ∷ []) {off = 12} refl)

-- The server's AUTH_RESP (whatever is behind it in the buffer), in state AUTH: the client goes to
-- CONN_ESTABLISHED exactly if the server granted the login, `auth_ok` says which, and the login thread is
-- woken in both cases.
pub process_auth_resp-auth_resp_packet :
    (id : ℕ) (granted : Bool) (more : List ℕ) (c : Client)
    → c.session.state ≡ auth
    → process_auth_resp (auth_resp_packet id (auth_status granted) ++ more) c ≡ ok (told granted c)
unfolding process_auth_resp
process_auth_resp-auth_resp_packet id true more c st =
    rw (ap is_auth st, auth_resp_read id true more)
process_auth_resp-auth_resp_packet id false more c st =
    rw (ap is_auth st, auth_resp_read id false more)

-- The server's KEY_RESP (whatever is behind it in the buffer), whose name has 32 bytes and whose key has 32
-- bytes: the client stores the key, and wakes the thread that waits for it.
pub process_key_resp-key_resp_packet :
    (id n : ℕ) (name key more : List ℕ) (c : Client)
    → length name ≡ 32
    → length key ≡ 32
    → length c.session.key_fetch_result ≡ 32
    → process_key_resp (key_resp_packet id n name key ++ more) c
      ≡ ok (record c {
        session = record c.session {
          key_fetch_result = key;
          key_fetch_sem = c.session.key_fetch_sem + 1;
        };
      })
unfolding process_key_resp key_resp_packet
process_key_resp-key_resp_packet id n name key more c h k size =
    rw (packet-append type_key_resp id ((n ∷ []) ∷ name ∷ le_bytes 2 32 ∷ key ∷ []) more) (
      rw (
        uint_at-packet type_key_resp id ((n ∷ []) ∷ name ∷ []) (le_bytes 2 32) (key ∷ more ∷ [])
            {off = 45} {n = 2} (omega arith) refl,
        drop-packet type_key_resp id ((n ∷ []) ∷ name ∷ le_bytes 2 32 ∷ []) (key ∷ more ∷ []) 47
            (omega arith),
        memcpy_lem c.session.key_fetch_result (key ++ (more ++ [])) 32 (omega arith)
            (omega (arith, length-append key (more ++ []))),
        take-append_eq 32 key (more ++ []) (sym k),
        drop_all 32 c.session.key_fetch_result (omega arith),
        append-nil key,
      ))
