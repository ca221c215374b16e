-- ===== src/Client/Waits.antt =====
-- When the client's wait in `sqmp_quic_connect` ends (src/shared/msquic_wrapper.c): `conn_cb` posts the
-- semaphores on which that function waits.
use squimpchat.Base.{
  ℕ, ◌≡◌, refl, ◌∙◌, Bool, true, false, none, some, List, [], ◌∷◌, arith, ◌==◌, ==_refl,
  if◌then◌else◌, negate, Run, ok, fault, ◌>>=◌, Succeeds, inl, inr, Bool-cases, if_true,
}
use squimpchat.Net.{Net, Conn, write_conn}
use squimpchat.Quic.Callbacks.{
  ConnEvent, connected, shutdown_by_transport, shutdown_by_peer, shutdown_complete,
  peer_stream_started, other_conn_event, conn_cb, conn_connected, change_conn, modify_conn,
  conn_done, conn_ended, stream_started, post_connect, post_closed,
}
use squimpchat.Quic.Connect.{new_conn, Progress, connecting, closing, returned, connect_turn}
use squimpchat.Client.Events.{
  is_connected, is_transport, is_complete, some_event, event_on, events_on, event_on-is_server,
  events_on-connected, events_on-closed_sem, events_on-connect_sem,
}
use squimpchat.Client.{Client, on_disconnected}
use squimpchat.Client.Crypto.{OpenSsl}
use squimpchat.Client.Wrapper.{client_app}

-- The events of a connection, one after the other.
abbrev pub conn_events : OpenSsl → ℕ → List ConnEvent → Client → Run Client
conn_events o p [] c = ok c
conn_events o p (e ∷ es) c = do c1 ← conn_cb (client_app o) p e c; conn_events o p es c1

-- What a thread in `sqmp_quic_connect` reaches in two turns.
abbrev pub connect_turns : ℕ → Net → Run (Progress × Net)
connect_turns p n = do (w, n1) ← connect_turn (connecting p) n; connect_turn w n1

-- Where a thread in `sqmp_quic_connect` is, by the events that have come.
abbrev pub progress : ℕ → List ConnEvent → Progress
progress p es =
    if some_event is_connected es
    then returned (some p)
    else if negate (some_event is_transport es)
    then connecting p
    else if some_event is_complete es
    then returned none
    else closing p

-- The connection at an address.
abbrev Has : ℕ → Conn → Client → Type 0
Has p c s = s.net.conns p ≡ some c

change_conn-Has :
    (o : OpenSsl) (p : ℕ) (f : Conn → Conn) (s : Client) {c : Conn}
    → Has p c s
    → Succeeds (Has p (f c)) (change_conn (client_app o) p f s)
unfolding change_conn modify_conn client_app
change_conn-Has o p f s at = rw at (if_true _ _ (==_refl p))

conn_ended-Has :
    (o : OpenSsl) (p : ℕ) (s : Client) {c : Conn}
    → Has p c s
    → c.is_server ≡ false
    → Succeeds (Has p (post_closed c)) (conn_ended (client_app o) p s)
unfolding conn_ended client_app
conn_ended-Has o p s at client = rw (at, client) (if_true _ _ (==_refl p))

-- Two branches that end in the same way.
branches_Has :
    (p : ℕ) (b : Bool) (m k : Run Client) (x y : Conn)
    → Succeeds (Has p x) m
    → Succeeds (Has p y) k
    → Succeeds (Has p (if b then x else y)) (if b then m else k)
branches_Has p true m k x y h l = h
branches_Has p false m k x y h l = l

joined_Has :
    (p : ℕ) (b : Bool) (m k : Run Client) (f : Client → Run Client) (c : Conn)
    → Succeeds (Has p c) (m >>= f)
    → Succeeds (Has p c) (k >>= f)
    → Succeeds (Has p c) ((if b then m else k) >>= f)
joined_Has p true m k f c h l = h
joined_Has p false m k f c h l = l

-- An event of the client's connection has no undefined behaviour, and changes the connection so.
conn_cb-Has :
    (o : OpenSsl) (p : ℕ) (e : ConnEvent) (s : Client) {c : Conn}
    → Has p c s
    → c.is_server ≡ false
    → Succeeds (Has p (event_on e c)) (conn_cb (client_app o) p e s)
unfolding conn_cb conn_connected change_conn modify_conn conn_done stream_started client_app
    on_disconnected
conn_cb-Has o p connected s {c} at client =
    let up : Conn = record c { connected = true } in
    let s1 : Client = record s {
      net = record s.net { conns = write_conn s.net.conns p (some up) };
    } in
    rw at (change_conn-Has o p post_connect s1 {c = up} (if_true _ _ (==_refl p)))
conn_cb-Has o p shutdown_by_transport s {c} at client =
    rw at (branches_Has p c.connected _ _ _ _ at (if_true _ _ (==_refl p)))
conn_cb-Has o p shutdown_by_peer s at client = rw at at
conn_cb-Has o p shutdown_complete s {c} at client = rw at (
    joined_Has p c.connected (ok (on_disconnected s)) (ok s) (conn_ended (client_app o) p) _
      (conn_ended-Has o p (on_disconnected s) at client) (conn_ended-Has o p s at client))
conn_cb-Has o p (peer_stream_started h) s at client =
    elim (Bool-cases (s.net.answers s.net.calls)) [
      | inl room ↦ rw (at, room) at
      | inr full ↦ rw (at, full) at
    ]
conn_cb-Has o p other_conn_event s at client = rw at at

Succeeds-bind :
    {A B : Type 0} (P : A → Type 0) (Q : B → Type 0) (m : Run A) (f : A → Run B)
    → Succeeds P m
    → ((a : A) → P a → Succeeds Q (f a))
    → Succeeds Q (m >>= f)
Succeeds-bind P Q (ok a) f h k = k a h
Succeeds-bind P Q fault f h k = absurd h

conn_events-Has :
    (o : OpenSsl) (p : ℕ) (es : List ConnEvent) (s : Client) {c : Conn}
    → Has p c s
    → c.is_server ≡ false
    → Succeeds (Has p (events_on es c)) (conn_events o p es s)
conn_events-Has o p [] s at client = at
conn_events-Has o p (e ∷ es) s {c} at client =
    Succeeds-bind (Has p (event_on e c)) _ (conn_cb (client_app o) p e s) _
      (conn_cb-Has o p e s at client)
      λ s1 at1. conn_events-Has o p es s1 at1 (event_on-is_server e c ∙ client)

-- Two turns in `sqmp_quic_connect`, by the connection.
connect_turns_lem :
    (p : ℕ) (n : Net) {c : Conn}
    → n.conns p ≡ some c
    → Succeeds
        (λ r. r.0 ≡ (
          if c.connect_sem == 0
          then connecting p
          else if c.connected
          then returned (some p)
          else if c.closed_sem == 0
          then closing p
          else returned none))
        (connect_turns p n)
unfolding connect_turn
connect_turns_lem p n {c} at = elim (Bool-cases (c.connect_sem == 0)) [
  | inl asleep ↦ rw (at, asleep, at, asleep) refl
  | inr woken ↦ elim (Bool-cases c.connected) [
    | inl up ↦ rw (at, woken, up) refl
    | inr down ↦ elim (Bool-cases (c.closed_sem == 0)) [
      | inl open_still ↦ rw (at, woken, down, ==_refl p, open_still) refl
      | inr closed ↦ rw (at, woken, down, ==_refl p, closed) refl
    ]
  ]
]

progress_lem :
    (p : ℕ) (es : List ConnEvent) (h : ℕ)
    → let c = events_on es (new_conn h) in
      (if c.connect_sem == 0
        then connecting p
        else if c.connected
        then returned (some p)
        else if c.closed_sem == 0
        then closing p
        else returned none)
      ≡ progress p es
progress_lem p es h = ground (
  arith,
  events_on-connected es (new_conn h),
  events_on-closed_sem es (new_conn h),
  events_on-connect_sem es (new_conn h) refl,
)

-- For a connection that the client has begun and any sequence of MsQuic's events of it: `conn_cb` handles
-- them without undefined behaviour, and then `sqmp_quic_connect` returns the connection if it was
-- reported as connected, and NULL if its transport failed and its shutdown is complete. In all other
-- cases it still waits, also when the peer shut the connection down before it was connected.
pub connect_turns-progress :
    (o : OpenSsl) (p h : ℕ) (es : List ConnEvent) (s : Client)
    → s.net.conns p ≡ some (new_conn h)
    → Succeeds (λ r. r.0 ≡ progress p es) (conn_events o p es s >>= λ s1. connect_turns p s1.net)
connect_turns-progress o p h es s at =
    Succeeds-bind (Has p (events_on es (new_conn h))) _ (conn_events o p es s) _
      (conn_events-Has o p es s at refl)
      λ s1 at1. rw (← progress_lem p es h) (connect_turns_lem p s1.net at1)
