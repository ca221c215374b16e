-- ===== src/Client/Started.antt =====
-- The set-up and the end of the client's `main` (src/client/client.c): what is open, on every path.
use squimpchat.Base.{
  ℕ, ◌≡◌, refl, true, false, Option, none, some, List, ◌∷◌, ◌==◌, Succeeds, ==_refl,
}
use squimpchat.Net.{Net, Conn, Resource}
use squimpchat.Quic.{Ctx, quic_init, quic_destroy}
use squimpchat.Quic.Held.{Holds, held_close}
use squimpchat.Quic.Context.{resources, Initialized, quic_init-Initialized, quic_destroy-Holds}
use squimpchat.Quic.Connect.{new_conn, connect_begin, disconnect_turn}
use squimpchat.Quic.Callbacks.{close_conn}
use squimpchat.Quic.Opened.{Connecting, connect_begin-Connecting}
use squimpchat.Client.Main.{begin_main}

-- Where `main` is before it waits for the connection: at its end with nothing open, or with a connection
-- that is started.
abbrev pub Begun : List Resource → Option (ℕ × Ctx) × Net → Type 0
Begun rs (none, n) = Holds n rs
Begun rs (some (p, c), n) =
    (h : ℕ) × (n.conns p ≡ some (new_conn h)) × Holds n (Resource.connection h ∷ resources c rs)

connected_or_destroyed :
    (o : Option ℕ) (c : Ctx) (n : Net) (rs : List Resource)
    → Connecting rs (o, c, n)
    → Begun rs (elim o [ none ↦ (none, quic_destroy (some c) n) | some p ↦ (some (p, c), n) ])
connected_or_destroyed none c n rs h = quic_destroy-Holds c n rs h
connected_or_destroyed (some p) c n rs h = h

Initialized-Begun :
    (o : Option Ctx) (n : Net) (rs : List Resource)
    → Initialized rs (o, n)
    → Begun rs (elim o [
      | none ↦ (none, n)
      | some c ↦
          let (conn, c1, n2) = connect_begin c n in
          elim conn [ none ↦ (none, quic_destroy (some c1) n2) | some p ↦ (some (p, c1), n2) ]
    ])
Initialized-Begun none n rs h = h
Initialized-Begun (some c) n rs (e, f, h) =
    connected_or_destroyed (connect_begin c n).0 _ _ rs (connect_begin-Connecting c n rs e f h)

-- Whatever `calloc` and MsQuic answer: before the client waits for its connection, either it has a
-- connection that is open, started and not connected yet, and its context knows all else that is
-- open; or it returns 1 and has closed all that it opened, nothing twice.
pub begin_main-Begun : (n : Net) (rs : List Resource) → Holds n rs → Begun rs (begin_main n)
unfolding begin_main
begin_main-Begun n rs h =
    Initialized-Begun (quic_init 30000 n).0 (quic_init 30000 n).1 rs
      (quic_init-Initialized 30000 n rs h)

-- When the shutdown of its connection is complete, the client's `sqmp_quic_disconnect` closes and frees the
-- connection, and `sqmp_quic_destroy` closes all the rest.
pub disconnect_turn-destroyed :
    (p : ℕ) (ctx : Ctx) (n : Net) (rs : List Resource) {c : Conn}
    → n.conns p ≡ some c
    → (c.closed_sem == 0) ≡ false
    → Holds n (Resource.connection c.handle ∷ resources ctx rs)
    → Succeeds
        (λ r. (r.0 ≡ true) × (r.1.conns p ≡ none) × Holds (quic_destroy (some ctx) r.1) rs)
        (disconnect_turn p n)
unfolding disconnect_turn close_conn
disconnect_turn-destroyed p ctx n rs {c} at complete h =
    rw (at, complete)
      (
        refl,
        rw (==_refl p) refl,
        quic_destroy-Holds ctx _ rs (held_close n.api (Resource.connection c.handle) h),
      )
