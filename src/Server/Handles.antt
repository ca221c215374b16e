-- ===== src/Server/Handles.antt =====
-- The handles and the memory of connections and streams at the server: `conn_cb`, `stream_cb` and
-- `listener_cb` of src/shared/msquic_wrapper.c with the callbacks of src/server/server.c.
use squimpchat.Base.{
  ok, ◌∙◌, ℕ, ◌≡◌, refl, Bool, true, false, none, some, List, ◌∷◌, ==_refl, if◌then◌else◌, if_true,
  Succeeds, inl, inr, Bool-cases,
}
use squimpchat.Session.{Session, write, modify}
use squimpchat.Net.{Net, Conn, Stream, Resource, close_call, answer, asked, given}
use squimpchat.Registry.Lookup.{IsRegistry}
use squimpchat.Quic.Held.{Holds, held, release, same_resource, held-release, held-handed_over}
use squimpchat.Server.Shape.{IsSession}
use squimpchat.Server.Leave.{Left}
use squimpchat.Quic.Callbacks.{
  stream_shutdown_complete, peer_stream_started, conn_cb, stream_cb, stream_started, stream_done,
  ListenerStatus, success, out_of_memory, internal_error, listener_cb, close_conn,
}
use squimpchat.Server.{Server, modify_session}
use squimpchat.Server.Callbacks.{on_stream_closed, on_stream_open}
use squimpchat.Net.{handed_over, stream_get_user_data, stream_set_user_data, conn_get_user_data}
use squimpchat.Server.Wrapper.{server_app}

-- What the start of a stream comes to, by the answer of `calloc`. The session's pointer is that of the
-- connection.
abbrev pub Started : Bool → ℕ → ℕ → Conn → List Resource → Server → Server → Type 0
Started true handle p c rs sv sv' =
    (sv'.net.streams (given sv.net)
      ≡ some (record { handle = handle; conn = p; user_data = c.user_data }))
    × Holds sv'.net (Resource.stream handle ∷ rs)
    × (sv'.sessions ≡ sv.sessions)
    × (sv'.registry ≡ sv.registry)
Started false handle p c rs sv sv' = held sv'.net.api ≡ none

not_held :
    (handle : ℕ) (rs : List Resource)
    → release (Resource.connection handle) rs ≡ none
    → release (Resource.connection handle) (Resource.stream handle ∷ rs) ≡ none
unfolding release same_resource
not_held handle rs e = rw e refl

-- A client starts a stream on an allocated connection, and MsQuic hands it over. If memory is found, the
-- stream is allocated with its connection and the pointer to the connection's session, and its
-- handle is held besides what was; sessions and registry stay. If no memory is found, and no
-- connection with the stream's handle is held, the program closes what it does not hold: the handle
-- of the stream as that of a connection.
pub conn_cb-Started :
    (p handle : ℕ) (sv : Server) (rs : List Resource) {c : Conn}
    → sv.net.conns p ≡ some c
    → Holds sv.net rs
    → release (Resource.connection handle) rs ≡ none
    → Succeeds
        (Started (answer sv.net) handle p c rs sv)
        (conn_cb server_app p (peer_stream_started handle) sv)
unfolding conn_cb stream_started server_app on_stream_open conn_get_user_data stream_set_user_data
conn_cb-Started p handle sv rs {c} at h e = elim (Bool-cases (answer sv.net)) [
  | inl room ↦
      rw (at, room)
        (rw (if_true _ _ (==_refl (given sv.net))) (
          if_true _ _ (==_refl (given sv.net)),
          held-handed_over sv.net.api (Resource.stream handle) h,
          refl,
          refl,
        ))
  | inr full ↦
      rw (at, full)
        (held-release _ (Resource.connection handle)
            (held-handed_over sv.net.api (Resource.stream handle) h)
          ∙ not_held handle rs e)
]

-- The end of a stream that a session owns.
abbrev pub Ended :
    ℕ → ℕ → ℕ → Bool → Session → List Resource → List Resource → Server → Server → Type 0
Ended handle p q app_close s hs rs sv sv' =
    (sv'.net.streams p ≡ none)
    × (Holds sv'.net (if app_close then hs else rs))
    × (sv'.sessions q ≡ some (record s { auth_stream = none }))
    × (sv'.registry ≡ sv.registry)

-- The end of an open stream that belongs to an allocated session and whose handle the program holds:
-- `stream_cb` frees the stream, closes its handle once, unless the program is closing it already,
-- and takes it out of the session. The registry stays as it is, with the stream's address if the
-- user is online.
pub stream_cb-Ended :
    (handle p q : ℕ) (app_close : Bool) (sv : Server) (hs rs : List Resource) {st : Stream}
    {c : Conn} {s : Session}
    → sv.net.streams p ≡ some st
    → sv.net.conns st.conn ≡ some c
    → st.user_data ≡ some q
    → sv.sessions q ≡ some s
    → Holds sv.net hs
    → release (Resource.stream handle) hs ≡ some rs
    → Succeeds
        (Ended handle p q app_close s hs rs sv)
        (stream_cb server_app handle p (stream_shutdown_complete app_close) sv)
unfolding stream_cb stream_done server_app on_stream_closed stream_get_user_data modify_session
    modify write
stream_cb-Ended handle p q true sv hs rs at over owner owns h k =
    rw (at, over, owner, owns, at) (if_true _ _ (==_refl p), h, if_true _ _ (==_refl q), refl)
stream_cb-Ended handle p q false sv hs rs at over owner owns h k =
    rw (at, over, owner, owns, at)
      (
        if_true _ _ (==_refl p),
        held-release sv.net.api (Resource.stream handle) h ∙ k,
        if_true _ _ (==_refl q),
        refl,
      )

-- What the end of an accepted connection comes to, by whether it was connected: the session is left as
-- `on_disconnected` leaves it, and the connection is closed and freed.
abbrev pub Gone : Bool → ℕ → ℕ → Session → List Resource → Server → Server → Type 0
Gone up p q s rs sv sv' =
    (sv1 : Server) × (if up then Left q s sv (ok sv1) else (sv1 ≡ sv))
    × (sv'.sessions ≡ sv1.sessions)
    × (sv'.registry ≡ sv1.registry)
    × (sv'.net.conns p ≡ none)
    × Holds sv'.net rs

-- The connection belongs to an allocated session of the right shape, and the registry is well formed.
abbrev pub Belongs : ℕ → Session → Conn → Server → Type 0
Belongs q s c sv =
    (c.user_data ≡ some q) × (sv.sessions q ≡ some s) × IsSession s × IsRegistry sv.registry

-- What the listener has made of a new connection with its handle.
abbrev pub Accepted : ℕ → Net → ListenerStatus × Net → Type 0
Accepted handle n (success, n') =
    (n'.conns (given n)
      ≡ some (record {
        handle = handle;
        connect_sem = 0;
        closed_sem = 0;
        connected = false;
        is_server = true;
        user_data = none;
      }))
    × (n'.api ≡ handed_over (Resource.connection handle) ∷ n.api)
Accepted handle n (out_of_memory, n') = n' ≡ asked n
Accepted handle n (internal_error, n') =
    (n'.conns (given n) ≡ none)
    × (n'.api
        ≡ close_call (Resource.connection handle)
          ∷ handed_over (Resource.connection handle)
          ∷ n.api)

-- For a new connection `listener_cb` allocates one of the server with its handle, and holds it; or it
-- finds no memory, and changes nothing; or MsQuic refuses the configuration, and the connection is
-- closed and freed.
pub listener_cb-Accepted : (handle : ℕ) (n : Net) → Accepted handle n (listener_cb (some handle) n)
unfolding listener_cb close_conn
listener_cb-Accepted handle n = elim (Bool-cases (answer n)) [
  | inr full ↦ rw full refl
  | inl room ↦ elim (Bool-cases (answer (asked n))) [
    | inr fails ↦ rw (room, fails) (if_true _ _ (==_refl (given n)), refl)
    | inl taken ↦ rw (room, taken) (if_true _ _ (==_refl (given n)), refl)
  ]
]
