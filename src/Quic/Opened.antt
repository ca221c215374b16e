-- ===== src/Quic/Opened.antt =====
-- What connecting, disconnecting and opening a stream leave open and allocated, on every path
-- (src/shared/msquic_wrapper.c).
use squimpchat.Base.{
  ℕ, ◌+◌, ◌≡◌, refl, false, Option, none, some, List, ◌∷◌, arith, Succeeds, inl, inr, Bool-cases,
  ◌==◌, ==_refl, suc, if_true,
}
use squimpchat.Net.{
  Net, Conn, Resource, library, registration, ApiCall, open_call, settings_call, close_call, given,
  answer, asked,
}
use squimpchat.Quic.{Ctx, connect_settings}
use squimpchat.Quic.Held.{
  Holds, held, after_call, held_open, held_close, held_open_close, held_start,
}
use squimpchat.Quic.Context.{resources, set_resource}
use squimpchat.Quic.Connect.{new_conn, connect_begin, returned, closing, connect_turn, stream_open}
use squimpchat.Quic.Callbacks.{close_conn}

-- The outcome of the first part of `sqmp_quic_connect`: nothing is held that the context does not know,
-- or the connection is open and started, at its address, and not connected yet.
abbrev pub Connecting : List Resource → Option ℕ × Ctx × Net → Type 0
Connecting rs (none, c, n) = Holds n (resources c rs)
Connecting rs (some p, c, n) =
    (h : ℕ) × (n.conns p ≡ some (new_conn h)) × Holds n (Resource.connection h ∷ resources c rs)

abbrev Begun : List Resource → Option ℕ × Ctx × Net → ℕ → Type 0
Begun rs (none, c, n) h = Holds n (resources c rs)
Begun rs (some p, c, n) h =
    (n.conns p ≡ some (new_conn h)) × Holds n (Resource.connection h ∷ resources c rs)

Begun-Connecting :
    (o : Option ℕ) (c : Ctx) (n : Net) (rs : List Resource) (h : ℕ)
    → Begun rs (o, c, n) h
    → Connecting rs (o, c, n)
Begun-Connecting none c n rs h b = b
Begun-Connecting (some p) c n rs h (at, b) = (h, at, b)

connect_begin-Begun :
    (c : Ctx) (n : Net) (rs : List Resource)
    → c.listener ≡ none
    → c.config ≡ none
    → Holds n (resources c rs)
    → Begun rs (connect_begin c n) (n.fresh (n.calls + 3))
unfolding connect_begin held after_call close_conn
connect_begin-Begun c n rs e f h = ground (arith, h, set, conn_closed)
  where
    config : ℕ
    config = n.fresh n.calls

    handle : ℕ
    handle = n.fresh (n.calls + 3)

    rest : List Resource
    rest = set_resource registration c.reg (library ∷ rs)

    calls : List ApiCall
    calls =
        settings_call config (connect_settings c.idle_timeout_ms)
        ∷ open_call (Resource.configuration config)
        ∷ n.api

    clean : held n.api ≡ some rest
    clean = rw (e, f) at h

    set : held calls ≡ some (Resource.configuration config ∷ rest)
    set = rw clean refl

    conn_closed :
        held
          (close_call (Resource.connection handle) ∷ open_call (Resource.connection handle) ∷ calls)
        ≡ some (Resource.configuration config ∷ rest)
    conn_closed = held_open_close calls (Resource.connection handle) set

pub connect_begin-Connecting :
    (c : Ctx) (n : Net) (rs : List Resource)
    → c.listener ≡ none
    → c.config ≡ none
    → Holds n (resources c rs)
    → Connecting rs (connect_begin c n)
connect_begin-Connecting c n rs e f h =
    Begun-Connecting (connect_begin c n).0 _ _ rs _ (connect_begin-Begun c n rs e f h)

-- `sqmp_stream_open` gives a stream that is open, or nothing, and then it has closed what it opened.
abbrev pub Opening : ℕ → List Resource → Option ℕ × Net → ℕ → Type 0
Opening p rs (none, n) h = Holds n rs
Opening p rs (some q, n) h =
    (n.streams q ≡ some (record { handle = h; conn = p; user_data = none }))
    × Holds n (Resource.stream h ∷ rs)

-- On a connection that is allocated, `sqmp_stream_open` does not fail to run.
pub stream_open-Opening :
    (p : ℕ) (n : Net) (rs : List Resource) {c : Conn}
    → n.conns p ≡ some c
    → Holds n rs
    → Succeeds (λ r. Opening p rs r (n.fresh (suc n.calls))) (stream_open p n)
unfolding stream_open
stream_open-Opening p n rs e h = elim (Bool-cases (answer n)) [
  | inr full ↦ rw full h
  | inl room ↦ elim (Bool-cases (answer (asked n))) [
    | inr fails ↦ rw (room, e, fails) h
    | inl made ↦ elim (Bool-cases (answer (asked (asked n)))) [
      | inr fails ↦
          rw (room, e, made, fails)
            (held_open_close n.api (Resource.stream (n.fresh (suc n.calls))) h)
      | inl starts ↦
          rw (room, e, made, starts)
            (
              if_true _ _ (==_refl (given n)),
              held_start (open_call (Resource.stream (n.fresh (suc n.calls))) ∷ n.api)
                  (Resource.stream (n.fresh (suc n.calls)))
                  (held_open n.api (Resource.stream (n.fresh (suc n.calls))) h),
            )
    ]
  ]
]

-- A turn in `sqmp_quic_connect` that gives up closes the connection and frees it.
pub connect_turn-closed :
    (p : ℕ) (n : Net) (rs : List Resource) {c : Conn}
    → n.conns p ≡ some c
    → Holds n (Resource.connection c.handle ∷ rs)
    → (c.closed_sem == 0) ≡ false
    → Succeeds
        (λ r. (r.0 ≡ returned none) × Holds r.1 rs × (r.1.conns p ≡ none))
        (connect_turn (closing p) n)
unfolding connect_turn close_conn
connect_turn-closed p n rs {c} e h woken =
    rw (e, woken) (refl, held_close n.api (Resource.connection c.handle) h, rw (==_refl p) refl)
