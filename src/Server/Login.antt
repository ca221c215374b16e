-- ===== src/Server/Login.antt =====
-- The body of the loop of `main` in src/server/server.c: what becomes of a session from the queue.
use mathlib.Core.Path.{subst}
use squimpchat.Base.{
  ℕ, ◌<◌, ◌≡◌, ◌≢◌, ◌⊎◌, refl, sym, inl, inr, Bool, true, false, Option, none, some, List, ◌++◌,
  arith, take, drop, zeros, Run, ok, memcpy_lem,
}
use squimpchat.Session.{Session, conn_established, write}
use squimpchat.Queue.Chains.{write_self}
use squimpchat.Registry.{Registry, registry_max}
use squimpchat.Registry.Names.{IsName}
use squimpchat.Registry.Lookup.{IsRegistry, view, insert}
use squimpchat.Registry.Slots.{used}
use squimpchat.Registry.Insert.{refused, accepted, registry_add-Added}
use squimpchat.Net.{Net}
use squimpchat.Net.Send.{IsOpen}
use squimpchat.Wire.Packets.{auth_resp_packet}
use squimpchat.Server.{Server}
use squimpchat.Server.Shape.{IsSession, touched, after, send-after, modify_session_lem}
use squimpchat.Server.Users.{c_string, verify_credentials}
use squimpchat.Server.Worker.{
  auth_status, send_auth_resp, establish, login, answer_login, authenticate, handle_pending,
}

-- The C string that the worker makes of the name in an AUTH_REQ.
abbrev pub login_name : Session → List ℕ
login_name s =
    c_string (take s.auth_username_len s.auth_username ++ drop s.auth_username_len (zeros 33))

-- The name under which the session would be registered.
abbrev pub asked_name : Session → List ℕ
asked_name s = take s.auth_username_len s.auth_username

-- The stream of a login, if it is not closed by now, can be sent on.
abbrev pub IsAnswerable : Option ℕ → Net → Type 0
IsAnswerable none n = Unit
IsAnswerable (some stream) n = IsOpen stream n

-- The server after the AUTH_RESP, to which the session's stream and id belong.
abbrev pub answered : Option ℕ → ℕ → Bool → Server → Server
answered none id granted sv = sv
answered (some stream) id granted sv = after stream (auth_resp_packet id (auth_status granted)) sv

-- The session once the worker has taken it from the queue.
abbrev pub dequeued : Session → Session
dequeued s = record s { auth_queued = false }

-- The session once it is logged in.
abbrev pub established : Session → Session
established s = record s {
  username_len = s.auth_username_len;
  username = asked_name s ++ drop s.auth_username_len s.username;
  state = conn_established;
}

-- What a login comes to.
pub data Login (p : ℕ) (s : Session) (right : Bool) (sv : Server) (x : Run Server) : Type 0 where
  rejected :
      (right ≡ false)
        ⊎ ((view sv.registry (asked_name s) ≢ none) ⊎ (used sv.registry ≡ registry_max))
      → x ≡ ok (answered s.auth_stream s.session_id false sv)
      → Login p s right sv x
  logged_in :
      (r : Registry)
      → right ≡ true
      → view sv.registry (asked_name s) ≡ none
      → used sv.registry < registry_max
      → ((j : List ℕ)
          → view r j ≡ insert (asked_name s) (s.auth_stream, s.auth_pubkey) (view sv.registry) j)
      → IsRegistry r
      → x
        ≡ ok (
            answered s.auth_stream s.session_id true
              (record sv { registry = r; sessions = write sv.sessions p (some (established s)) }))
      → Login p s right sv x

pub answer_login_lem :
    (p : ℕ) {t : Session} (a : Option ℕ) (granted : Bool) (sv : Server)
    → sv.sessions p ≡ some t
    → IsAnswerable a sv.net
    → answer_login p a granted sv ≡ ok (answered a t.session_id granted sv)
unfolding answer_login send_auth_resp
answer_login_lem p none granted sv at o = refl
answer_login_lem p (some stream) granted sv at o = rw (at, send-after _ sv o)

pub establish_lem :
    (p : ℕ) {s : Session} (sv : Server)
    → sv.sessions p ≡ some s
    → IsSession s
    → establish p s sv ≡ ok (record sv { sessions = write sv.sessions p (some (established s)) })
unfolding establish
establish_lem p {s} sv at w =
    rw
      (memcpy_lem s.username s.auth_username s.auth_username_len
        (omega (arith, w.auth_name_fits, w.name_size))
        (omega (arith, w.auth_name_fits, w.auth_name_size)))
      (modify_session_lem _ sv at)

pub asked-IsName : {s : Session} → IsSession s → IsName s.auth_username s.auth_username_len
asked-IsName w = record {
  short = w.auth_name_fits;
  inside = omega (arith, w.auth_name_size, w.auth_name_fits);
}

authenticate_lem :
    (users : Option (List ℕ)) (p : ℕ) (s : Session) (right granted : Bool) (sv sv1 : Server)
    {t : Session}
    → IsSession s
    → verify_credentials users (login_name s) s.auth_password_hash ≡ ok right
    → login p s right sv ≡ ok (granted, sv1)
    → sv1.sessions p ≡ some t
    → IsAnswerable t.auth_stream sv1.net
    → authenticate users p s sv ≡ ok (answered t.auth_stream t.session_id granted sv1)
unfolding authenticate
authenticate_lem users p s right granted sv sv1 {t} w e l at o =
    rw
      (
        memcpy_lem (zeros 33) s.auth_username s.auth_username_len (omega (arith, w.auth_name_fits))
            (asked-IsName w).inside,
        e,
        l,
        at,
      )
      (answer_login_lem p t.auth_stream granted sv1 at o)

authenticate-Login :
    (users : Option (List ℕ)) {p : ℕ} {s : Session} {sv : Server} (right : Bool)
    → sv.sessions p ≡ some s
    → IsSession s
    → IsRegistry sv.registry
    → IsAnswerable s.auth_stream sv.net
    → verify_credentials users (login_name s) s.auth_password_hash ≡ ok right
    → Login p s right sv (authenticate users p s sv)
unfolding login
authenticate-Login users {p} {s} {sv} false at w reg o e =
    rejected (inl refl) (authenticate_lem users p s false false sv sv w e refl at o)
authenticate-Login users {p} {s} {sv} true at w reg o e =
    elim (registry_add-Added s.auth_stream reg (asked-IsName w) w.key_size) [
      | refused why is ↦
          rejected (inr why) (authenticate_lem users p s true false sv sv w e (rw is) at o)
      | accepted r fresh room is wr v more ↦ logged_in r refl fresh room v wr (
          authenticate_lem users p s true true sv
            (record sv { registry = r; sessions = write sv.sessions p (some (established s)) }) w e
            (rw (is, establish_lem p (record sv { registry = r }) at w))
            (write_self sv.sessions p (some (established s))) o)
    ]

pub open_pending :
    (users : Option (List ℕ)) {p : ℕ} {s : Session} (sv : Server)
    → sv.sessions p ≡ some s
    → s.conn_closed ≡ false
    → handle_pending users p sv
      ≡ authenticate users p
          (dequeued s)
          (record sv { sessions = write sv.sessions p (some (dequeued s)) })
unfolding handle_pending
open_pending users {p} {s} sv at live =
    rw
      (
        modify_session_lem (λ t. record t { auth_queued = false }) sv at,
        write_self sv.sessions p (some (dequeued s)),
      )
      (rw live)

-- A session of the right shape comes out of the queue and is not closed, the registry is well formed,
-- and its stream (if it has one) is open; the check of its name and hash against the file has an
-- outcome. The pass has no undefined behaviour. If the check fails, or the name is online, or 64 users
-- are, then AUTH_RESP INVALID is sent and nothing else is done. Otherwise the session becomes
-- CONN_ESTABLISHED under the name, the directory gains just the name, with its stream and key, the
-- registry is well formed, and AUTH_RESP OK is sent. Without a stream nothing is sent.
pub handle_pending-Login :
    (users : Option (List ℕ)) {p : ℕ} {s : Session} (sv : Server) (right : Bool)
    → sv.sessions p ≡ some s
    → s.conn_closed ≡ false
    → IsSession s
    → IsRegistry sv.registry
    → IsAnswerable s.auth_stream sv.net
    → verify_credentials users (login_name s) s.auth_password_hash ≡ ok right
    → Login p
        (dequeued s)
        right
        (record sv { sessions = write sv.sessions p (some (dequeued s)) })
        (handle_pending users p sv)
handle_pending-Login users {p} {s} sv right at live w reg o e =
    let sv1 = record sv { sessions = write sv.sessions p (some (dequeued s)) } in
    subst (Login p (dequeued s) right sv1) (sym (open_pending users sv at live)) (
      authenticate-Login users {p = p} {s = dequeued s} {sv = sv1} right
        (write_self sv.sessions p (some (dequeued s))) (touched w) reg o e)
