-- ===== src/Client/Handled.antt =====
-- The client's `on_stream_recv` (src/client/client.c) and its handlers on an arbitrary packet: what a server
-- can do to a client.
use mathlib.Core.Path.{subst}
use squimpchat.Base.{
  ℕ, ◌≤◌, ◌≡◌, ◌⊎◌, refl, sym, inl, inr, Bool, true, ◌||◌, List, ◌∷◌, arith, ltb, ◌==◌,
  if◌then◌else◌, ◌>>=◌, negate, drop, zeros, Bool-cases, ok, memcpy, Safe, Safe-any, Safe-bind,
  if_both, Safe-if, Safe-ok,
}
use squimpchat.Session.{
  Session, SessionState, hello, auth, conn_established, is_hello, is_auth, is_established,
}
use squimpchat.Net.{Net, answer, asked, stream_send}
use squimpchat.Wire.{
  bytes_at, uint_at, msg_type_at, session_id_at, pkt_fixed_len, type_hello_ack, type_auth_resp,
  type_key_resp, type_chat_deliver, type_error, type_bye, error_user_not_found,
}
use squimpchat.Base.{Option, none, some, deref, ◌+◌}
use squimpchat.Net.{stream_get_user_data}
use squimpchat.Client.{
  says, server_error, with_status, no_key, dispatch_packet, Client, Line, printed,
  process_hello_ack, process_auth_resp, process_key_resp, process_bye, process_error, show_chat,
  process_chat_deliver, on_stream_recv,
}
use squimpchat.Client.Crypto.{OpenSsl}

-- How a packet may change the state of the client.
pub data Moves : SessionState → SessionState → Type 0 where
  stays : {a : SessionState} → Moves a a
  greeted : Moves hello auth
  admitted : Moves auth conn_established

-- The client's session before and after a packet.
pub record Moved (s t : Session) : Type 0 where
  pub state : Moves s.state t.state
  pub private_key : t.client_privkey ≡ s.client_privkey
  pub public_key : t.client_pubkey ≡ s.client_pubkey
  pub login_sem : s.login_ready ≤ t.login_ready
  pub auth_sem : s.auth_done ≤ t.auth_done
  pub key_sem : s.key_fetch_sem ≤ t.key_fetch_sem

-- A client before and after a packet.
pub record Handled (c c' : Client) : Type 0 where
  pub session : Moved c.session c'.session
  pub alive : c'.conn_alive ≡ c.conn_alive
  pub lines : (c'.lines ≡ c.lines) ⊎ ((l : Line) × (c'.lines ≡ l ∷ c.lines))

-- Only the state and the semaphores change.
moved :
    (s t : Session)
    → Moves s.state t.state
    → t.client_privkey ≡ s.client_privkey
    → t.client_pubkey ≡ s.client_pubkey
    → s.login_ready ≤ t.login_ready
    → s.auth_done ≤ t.auth_done
    → s.key_fetch_sem ≤ t.key_fetch_sem
    → Moved s t
moved s t m k l h i j = record {
  state = m;
  private_key = k;
  public_key = l;
  login_sem = h;
  auth_sem = i;
  key_sem = j;
}

Moved-refl : (s : Session) → Moved s s
Moved-refl s = moved s s stays refl refl (omega arith) (omega arith) (omega arith)

-- Nothing is printed.
silent :
    (c : Client) (s : Session) (n : Net) (b : Bool)
    → Moved c.session s
    → Handled c (record c { session = s; net = n; interrupted = b })
silent c s n b m = record { session = m; alive = refl; lines = inl refl }

-- One line is printed.
prints :
    (c : Client) (s : Session) (n : Net) (l : Line)
    → Moved c.session s
    → Handled c (record c { session = s; net = n; lines = l ∷ c.lines })
prints c s n l m = record { session = m; alive = refl; lines = inr (l, refl) }

Handled-refl : (c : Client) → Handled c c
Handled-refl c = silent c c.session c.net c.interrupted (Moved-refl c.session)

complains : (c : Client) (l : Line) → Handled c (says l c)
complains c l = prints c c.session c.net l (Moved-refl c.session)

is_hello-eq : (s : SessionState) → is_hello s ≡ true → s ≡ hello
is_hello-eq s h = ground arith

is_auth-eq : (s : SessionState) → is_auth s ≡ true → s ≡ auth
is_auth-eq s h = ground arith

process_hello_ack-Handled : (pkt : List ℕ) (c : Client) → Safe (Handled c) (process_hello_ack pkt c)
unfolding process_hello_ack
process_hello_ack-Handled pkt c = elim (Bool-cases (is_hello c.session.state)) [
  | inr no_hello ↦ rw no_hello (complains c _)
  | inl st ↦ rw st (
      Safe-any (Handled c) (uint_at 12 1 pkt) _ λ version.
        Safe-if (Handled c) (negate (version == 1)) _ _ (complains c _) (
          Safe-any (Handled c) (session_id_at pkt) _ λ id. silent c _ c.net c.interrupted (
            moved c.session _
              (subst (λ x. Moves x auth) (sym (is_hello-eq c.session.state st)) greeted) refl refl
              (omega arith) (omega arith) (omega arith))))
]

posted :
    (c c1 : Client)
    → Handled c c1
    → Handled c (record c1 { session = record c1.session { auth_done = c1.session.auth_done + 1 } })
posted c c1 h = record {
  session = record {
    state = h.session.state;
    private_key = h.session.private_key;
    public_key = h.session.public_key;
    login_sem = h.session.login_sem;
    auth_sem = omega (arith, h.session.auth_sem);
    key_sem = h.session.key_sem;
  };
  alive = h.alive;
  lines = h.lines;
}

with_status-Handled :
    (status : ℕ) (c : Client) → c.session.state ≡ auth → Handled c (with_status status c)
with_status-Handled status c st =
    if_both (Handled c) (status == 0)
      (silent c _ c.net c.interrupted (
        moved c.session _ (subst (λ x. Moves x conn_established) (sym st) admitted) refl refl
          (omega arith) (omega arith) (omega arith)))
      (prints c _ c.net _
        (moved c.session _ stays refl refl (omega arith) (omega arith) (omega arith)))

process_auth_resp-Handled : (pkt : List ℕ) (c : Client) → Safe (Handled c) (process_auth_resp pkt c)
unfolding process_auth_resp
process_auth_resp-Handled pkt c = elim (Bool-cases (is_auth c.session.state)) [
  | inr no_auth ↦ rw no_auth (posted c _ (complains c _))
  | inl st ↦ rw st (
      Safe-bind (Handled c) (Handled c) (do status ← uint_at 12 1 pkt; ok (with_status status c)) _
        (Safe-any (Handled c) (uint_at 12 1 pkt) _
          λ status. with_status-Handled status c (is_auth-eq c.session.state st))
        λ c1 h. posted c c1 h)
]

process_key_resp-Handled : (pkt : List ℕ) (c : Client) → Safe (Handled c) (process_key_resp pkt c)
unfolding process_key_resp
process_key_resp-Handled pkt c = Safe-any (Handled c) (uint_at 45 2 pkt) _ λ klen.
    Safe-any (Handled c)
      (if klen == 32 then memcpy c.session.key_fetch_result (drop 47 pkt) 32 else ok (zeros 32)) _
      λ key.
        silent c _ c.net c.interrupted
          (moved c.session _ stays refl refl (omega arith) (omega arith) (omega arith))

process_bye-Handled : (p : ℕ) (sp : Option ℕ) (c : Client) → Safe (Handled c) (process_bye p sp c)
unfolding process_bye
process_bye-Handled p sp c =
    Safe-any (Handled c) (stream_send p _ c.net) _
      λ r. silent c c.session r.1 true (Moved-refl c.session)

no_key-Handled : (sp : Option ℕ) (l : Line) (c : Client) → Handled c (no_key sp (says l c))
no_key-Handled none l c = complains c l
no_key-Handled (some p) l c =
    prints c _ c.net l (moved c.session _ stays refl refl (omega arith) (omega arith) (omega arith))

process_error-Handled :
    (sp : Option ℕ) (pkt : List ℕ) (c : Client) → Safe (Handled c) (process_error sp pkt c)
unfolding process_error
process_error-Handled sp pkt c = Safe-any (Handled c) (uint_at 12 1 pkt) _ λ code.
    Safe-any (Handled c) (uint_at 13 1 pkt) _ λ dlen.
      Safe-any (Handled c) (printed dlen (drop 14 pkt)) _ λ desc.
        if_both (Handled c) (code == error_user_not_found)
          (no_key-Handled sp (server_error code desc) c) (complains c (server_error code desc))

show_chat-Handled :
    (o : OpenSsl) (from pkt : List ℕ) (len : ℕ) (c : Client)
    → Safe (Handled c) (show_chat o from pkt len c)
unfolding show_chat
show_chat-Handled o from pkt len c =
    Safe-if (Handled c) (negate (answer c.net)) _ _
      (prints c c.session (asked c.net) _ (Moved-refl c.session))
      (Safe-any (Handled c) (bytes_at 47 32 pkt) _ λ ephemeral.
        Safe-any (Handled c) (bytes_at 303 12 pkt) _ λ nonce.
          Safe-any (Handled c) (bytes_at 319 len pkt) _
            λ text. prints c c.session (asked c.net) _ (Moved-refl c.session))

process_chat_deliver-Handled :
    (o : OpenSsl) (pkt : List ℕ) (c : Client) → Safe (Handled c) (process_chat_deliver o pkt c)
unfolding process_chat_deliver
process_chat_deliver-Handled o pkt c =
    Safe-if (Handled c) (negate (is_established c.session.state)) _ _ (complains c _) (
      Safe-any (Handled c) (uint_at 12 1 pkt) _ λ sender_len.
        Safe-any (Handled c) (printed sender_len (drop 13 pkt)) _ λ from.
          Safe-any (Handled c) (uint_at 45 2 pkt) _ λ key_len.
            Safe-any (Handled c) (uint_at 315 4 pkt) _ λ len.
              Safe-if (Handled c) (negate (key_len == 32) || ltb len 16) _ _
                (prints c c.session c.net _ (Moved-refl c.session))
                (show_chat-Handled o from pkt len c))

dispatch_packet-Handled :
    (o : OpenSsl) (t p : ℕ) (sp : Option ℕ) (pkt : List ℕ) (c : Client)
    → Safe (Handled c) (dispatch_packet o t p sp pkt c)
unfolding dispatch_packet
dispatch_packet-Handled o t p sp pkt c =
    Safe-if (Handled c) (t == type_hello_ack) _ _
      (Safe-any (Handled c) (deref sp) _ λ s. process_hello_ack-Handled pkt c)
      (Safe-if (Handled c) (t == type_auth_resp) _ _
        (Safe-any (Handled c) (deref sp) _ λ s. process_auth_resp-Handled pkt c)
        (Safe-if (Handled c) (t == type_key_resp) _ _
          (Safe-any (Handled c) (deref sp) _ λ s. process_key_resp-Handled pkt c)
          (Safe-if (Handled c) (t == type_chat_deliver) _ _
            (Safe-any (Handled c) (deref sp) _ λ s. process_chat_deliver-Handled o pkt c)
            (Safe-if (Handled c) (t == type_error) _ _ (process_error-Handled sp pkt c) (
              Safe-if (Handled c) (t == type_bye) _ _ (process_bye-Handled p sp c)
                (complains c _))))))

pub on_stream_recv-Safe :
    (o : OpenSsl) (p : ℕ) (pkt : List ℕ) (len : ℕ) (c : Client)
    → Safe (Handled c) (on_stream_recv o p pkt len c)
unfolding on_stream_recv
on_stream_recv-Safe o p pkt len c =
    Safe-if (Handled c) (ltb len pkt_fixed_len) _ _ (complains c _) (
      Safe-any (Handled c) (stream_get_user_data p c.net) _
        λ sp. Safe-any (Handled c) (msg_type_at pkt) _ λ t. dispatch_packet-Handled o t p sp pkt c)

-- Whatever bytes the client receives: if they are handled without undefined behaviour, its state is what
-- it was, or goes from HELLO to AUTH, or from AUTH to CONN_ESTABLISHED; its keys are what they were, no
-- semaphore on which it waits goes down, and at most one line is printed.
pub on_stream_recv-Handled :
    (o : OpenSsl) (p : ℕ) (pkt : List ℕ) (len : ℕ) {c c' : Client}
    → on_stream_recv o p pkt len c ≡ ok c'
    → Handled c c'
on_stream_recv-Handled o p pkt len {c} e =
    Safe-ok (Handled c) (on_stream_recv o p pkt len c) (on_stream_recv-Safe o p pkt len c) e
