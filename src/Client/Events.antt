-- ===== src/Client/Events.antt =====
-- What the events of `conn_cb` (src/shared/msquic_wrapper.c) do to a connection of the client, as functions
-- of the connection alone.
use squimpchat.Base.{
  ◌+◌, ◌≡◌, refl, Bool, true, false, ◌&&◌, ◌||◌, List, [], ◌∷◌, arith, ◌==◌, if◌then◌else◌, negate,
}
use squimpchat.Net.{Conn}
use squimpchat.Quic.Callbacks.{
  ConnEvent, connected, shutdown_by_transport, shutdown_by_peer, shutdown_complete,
  peer_stream_started, other_conn_event,
}

abbrev pub is_connected : ConnEvent → Bool
is_connected connected = true
is_connected _ = false

abbrev pub is_transport : ConnEvent → Bool
is_transport shutdown_by_transport = true
is_transport _ = false

abbrev pub is_complete : ConnEvent → Bool
is_complete shutdown_complete = true
is_complete _ = false

-- One of the events is such.
abbrev pub some_event : (ConnEvent → Bool) → List ConnEvent → Bool
some_event f [] = false
some_event f (e ∷ es) = f e || some_event f es

-- What an event does to the client's connection.
abbrev pub event_on : ConnEvent → Conn → Conn
event_on connected c = record c { connected = true; connect_sem = c.connect_sem + 1 }
event_on shutdown_by_transport c =
    if c.connected then c else record c { connect_sem = c.connect_sem + 1 }
event_on shutdown_complete c = record c { closed_sem = c.closed_sem + 1 }
event_on _ c = c

abbrev pub events_on : List ConnEvent → Conn → Conn
events_on [] c = c
events_on (e ∷ es) c = events_on es (event_on e c)

pub event_on-is_server : (e : ConnEvent) (c : Conn) → (event_on e c).is_server ≡ c.is_server
event_on-is_server connected c = refl
event_on-is_server shutdown_by_transport c = ground arith
event_on-is_server shutdown_by_peer c = refl
event_on-is_server shutdown_complete c = refl
event_on-is_server (peer_stream_started h) c = refl
event_on-is_server other_conn_event c = refl

-- A connection that is connected has been posted.
abbrev pub Posted : Conn → Type 0
Posted c = (c.connected && (c.connect_sem == 0)) ≡ false

event_on-Posted : (e : ConnEvent) (c : Conn) → Posted c → Posted (event_on e c)
event_on-Posted connected c h = ground arith
event_on-Posted shutdown_by_transport c h = ground arith
event_on-Posted shutdown_by_peer c h = h
event_on-Posted shutdown_complete c h = h
event_on-Posted (peer_stream_started _) c h = h
event_on-Posted other_conn_event c h = h

event_on-connected :
    (e : ConnEvent) (c : Conn) → (event_on e c).connected ≡ (c.connected || is_connected e)
event_on-connected connected c = ground arith
event_on-connected shutdown_by_transport c = ground arith
event_on-connected shutdown_by_peer c = ground arith
event_on-connected shutdown_complete c = ground arith
event_on-connected (peer_stream_started h) c = ground arith
event_on-connected other_conn_event c = ground arith

event_on-closed_sem :
    (e : ConnEvent) (c : Conn)
    → ((event_on e c).closed_sem == 0) ≡ ((c.closed_sem == 0) && negate (is_complete e))
event_on-closed_sem connected c = ground arith
event_on-closed_sem shutdown_by_transport c = ground arith
event_on-closed_sem shutdown_by_peer c = ground arith
event_on-closed_sem shutdown_complete c = ground arith
event_on-closed_sem (peer_stream_started h) c = ground arith
event_on-closed_sem other_conn_event c = ground arith

event_on-connect_sem :
    (e : ConnEvent) (c : Conn)
    → Posted c
    → ((event_on e c).connect_sem == 0)
      ≡ ((c.connect_sem == 0) && negate (is_connected e || is_transport e))
event_on-connect_sem connected c h = ground arith
event_on-connect_sem shutdown_by_transport c h = ground arith
event_on-connect_sem shutdown_by_peer c h = ground arith
event_on-connect_sem shutdown_complete c h = ground arith
event_on-connect_sem (peer_stream_started _) c h = ground arith
event_on-connect_sem other_conn_event c h = ground arith

pub events_on-connected :
    (es : List ConnEvent) (c : Conn)
    → (events_on es c).connected ≡ (c.connected || some_event is_connected es)
events_on-connected [] c = ground arith
events_on-connected (e ∷ es) c =
    ground (arith, events_on-connected es (event_on e c), event_on-connected e c)

pub events_on-closed_sem :
    (es : List ConnEvent) (c : Conn)
    → ((events_on es c).closed_sem == 0)
      ≡ ((c.closed_sem == 0) && negate (some_event is_complete es))
events_on-closed_sem [] c = ground arith
events_on-closed_sem (e ∷ es) c =
    ground (arith, events_on-closed_sem es (event_on e c), event_on-closed_sem e c)

pub events_on-connect_sem :
    (es : List ConnEvent) (c : Conn)
    → Posted c
    → ((events_on es c).connect_sem == 0)
      ≡ ((c.connect_sem == 0) && negate (some_event is_connected es || some_event is_transport es))
events_on-connect_sem [] c h = ground arith
events_on-connect_sem (e ∷ es) c h = ground (
  arith,
  events_on-connect_sem es (event_on e c) (event_on-Posted e c h),
  event_on-connect_sem e c h,
)
