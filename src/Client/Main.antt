-- ===== src/Client/Main.antt =====
-- How `main` of src/client/client.c begins and ends: the arguments, the connection, the stream, the
-- HELLO, and what is closed at the end. Signals are left out.
use squimpchat.Base.{
  ℕ, ◌-◌, Bool, false, ◌==◌, ◌&&◌, Option, none, some, List, [], ◌∷◌, if◌then◌else◌, Run, ok, ◌>>=◌,
}
use squimpchat.Session.{Session, hello, zero_session}
use squimpchat.Net.{Net, conn_set_user_data, stream_set_user_data, stream_send}
use squimpchat.Wire.Packets.{hello_packet, bye_packet}
use squimpchat.Quic.{Ctx, quic_init, quic_destroy}
use squimpchat.Quic.Connect.{connect_begin, disconnect_begin, stream_open}
use squimpchat.Client.{Client}

-- The test of `argc`, by the arguments behind the program's name: the host.
unfoldable pub host_of : List (List ℕ) → Option (List ℕ)
host_of (host ∷ []) = some host
host_of _ = none

-- The session of `main`.
abbrev pub first_session : Session
first_session = record zero_session { state = hello }

-- `main` up to the wait in `sqmp_quic_connect`: the connection that is waited for, with the context, or
-- `none` if `main` returns 1.
unfoldable pub begin_main : Net → Option (ℕ × Ctx) × Net
begin_main n =
    let (ctx, n1) = quic_init 30000 n in
    elim ctx [
      | none ↦ (none, n1)
      | some c ↦
          let (conn, c1, n2) = connect_begin c n1 in
          elim conn [ none ↦ (none, quic_destroy (some c1) n2) | some p ↦ (some (p, c1), n2) ]
    ]

-- `main` behind `sqmp_quic_connect`, which returned `conn`, up to the wait for the HELLO_ACK, or for the
-- end of the connection if no stream can be opened; `session` is the session's address. The stream
-- is `none` if `main` will return 1.
unfoldable pub open_main : (session : ℕ) → Ctx → Option ℕ → Net → Run (Option ℕ × Net)
open_main session ctx none n = ok (none, quic_destroy (some ctx) n)
open_main session ctx (some conn) n = do
  n1 ← conn_set_user_data conn (some session) n
  (opened, n2) ← stream_open conn n1
  elim opened [
    | none ↦ (do n3 ← disconnect_begin (some conn) n2; ok (none, n3))
    | some stream ↦ (do
      n3 ← stream_set_user_data stream (some session) n2
      (_, n4) ← stream_send stream hello_packet n3
      ok (some stream, n4))
  ]

-- A turn in the wait on `login_ready` or `auth_done`: what the semaphore is when the wait ends, `none`
-- if it goes on. A signal that comes during the wait ends it if `g_interrupted` is set.
unfoldable pub wait_turn : (sem : ℕ) (signalled interrupted : Bool) → Option ℕ
wait_turn sem signalled interrupted =
    if sem == 0 then (if signalled && interrupted then some 0 else none) else some (sem - 1)

-- The command loop is entered.
unfoldable pub enters_loop : Client → Bool
enters_loop c = if c.interrupted then false else c.session.auth_ok

-- The end of `main` up to the wait in `sqmp_quic_disconnect`: a BYE, if the connection is alive.
unfoldable pub end_main : (stream conn : ℕ) → Client → Run Client
end_main stream conn c = do
  c1 ←
      if c.conn_alive
      then (do
        (_, n) ← stream_send stream (bye_packet c.session.session_id) c.net
        ok (record c { net = n }))
      else ok c
  n ← disconnect_begin (some conn) c1.net
  ok (record c1 { net = n })
