-- ===== src/Server/Setup.antt =====
-- How `main` of src/server/server.c sets up QUIC, and that it closes what it has opened.
use squimpchat.Base.{◌≡◌, Option, none, some, List, if◌then◌else◌, inl, inr, Bool-cases}
use squimpchat.Net.{Net, Resource}
use squimpchat.Quic.{Ctx, quic_init, quic_listen, quic_destroy}
use squimpchat.Quic.Held.{Holds}
use squimpchat.Quic.Context.{
  resources, Initialized, quic_init-Initialized, quic_listen-Holds, quic_destroy-Holds,
}

-- What `main` gives back if it cannot listen; `none` where it returns 1.
abbrev listen_or_destroy : Ctx → Net → Option Ctx × Net
listen_or_destroy c n =
    let (listens, c1, n1) = quic_listen c n in
    if listens then (some c1, n1) else (none, quic_destroy (some c1) n1)

-- The set-up of `main`: the context that listens, or `none` if `main` returns 1.
unfoldable pub set_up : Net → Option Ctx × Net
set_up n =
    let (ctx, n1) = quic_init 30000 n in
    elim ctx [ none ↦ (none, n1) | some c ↦ listen_or_destroy c n1 ]

-- What the program holds after the set-up.
abbrev pub Ready : List Resource → Option Ctx × Net → Type 0
Ready rs (none, n) = Holds n rs
Ready rs (some c, n) = Holds n (resources c rs) × Holds (quic_destroy (some c) n) rs

listen_or_destroy-Ready :
    (c : Ctx) (n : Net) (rs : List Resource)
    → c.listener ≡ none
    → c.config ≡ none
    → Holds n (resources c rs)
    → Ready rs (listen_or_destroy c n)
listen_or_destroy-Ready c n rs e f h =
    let holds = quic_listen-Holds c n rs e f h in
    elim (Bool-cases (quic_listen c n).0) [
      | inl listens ↦ rw listens (holds, quic_destroy-Holds _ _ rs holds)
      | inr fails ↦ rw fails (quic_destroy-Holds _ _ rs holds)
    ]

Initialized-Ready :
    (o : Option Ctx) (n : Net) (rs : List Resource)
    → Initialized rs (o, n)
    → Ready rs (elim o [ none ↦ (none, n) | some c ↦ listen_or_destroy c n ])
Initialized-Ready none n rs h = h
Initialized-Ready (some c) n rs (e, f, h) = listen_or_destroy-Ready c n rs e f h

-- Whatever MsQuic and `calloc` answer: if the server cannot be set up, it has closed all that it
-- opened, nothing twice; if it is set up, its context knows all that is open, and to destroy the
-- context closes it.
pub set_up-Ready : (n : Net) (rs : List Resource) → Holds n rs → Ready rs (set_up n)
unfolding set_up
set_up-Ready n rs h =
    Initialized-Ready (quic_init 30000 n).0 (quic_init 30000 n).1 rs
      (quic_init-Initialized 30000 n rs h)
