-- ===== src/Server/Lasting.antt =====
-- Packets that come in one after the other on the streams of many clients (src/server/server.c).
use squimpchat.Base.{
  ℕ, ◌≤◌, inl, inr, Bool-cases, le_of_not_ltb, ◌≡◌, ◌≢◌, refl, sym, ap, ◌∙◌, true, false, Option,
  none, some, List, [], ◌∷◌, ◌++◌, ltb, length, Run, ok, ◌>>=◌, Safe, Safe-mono, Safe-if,
  Safe-bind_eq, Safe-both, Succeeds, Succeeds-also, Succeeds-bind,
}
use squimpchat.Session.{Session}
use squimpchat.Queue.Chains.{IsQueue, has, frame, ==_ne}
use squimpchat.Net.{Net, answer, asked, stream_get_user_data}
use squimpchat.Net.Send.{IsOpen}
use squimpchat.Wire.{join, msg_type_at, pkt_fixed_len, type_auth_req}
use squimpchat.Server.{Server}
use squimpchat.Server.Kept.{Turned, IsServer, Kept, Kept-IsServer}
use squimpchat.Server.Frozen.{Frozen-net, Frozen-Kept}
use squimpchat.Server.Answered.{Wired}
use squimpchat.Server.Steady.{Steady, Local-refl, Local-Steady, dispatch-Steady}
use squimpchat.Server.Callbacks.{on_stream_recv, stream_cb_receive}
use squimpchat.Server.Received.{stream_cb_receive-Safe}
use squimpchat.Server.Sound.{IsComplete, Served, stream_cb_receive-Succeeds}

on_stream_recv-Steady :
    {p : ℕ} (stream : ℕ) (pkt : List ℕ) (len : ℕ) (sv : Server)
    → stream_get_user_data stream sv.net ≡ ok (some p)
    → ((t : ℕ) → pkt_fixed_len ≤ len → msg_type_at pkt ≡ ok t → t ≢ type_auth_req)
    → Safe (Steady p sv) (on_stream_recv stream pkt len sv)
unfolding on_stream_recv
on_stream_recv-Steady {p} stream pkt len sv owner other =
    elim (Bool-cases (ltb len pkt_fixed_len)) [
      | inl few ↦ rw few (Local-Steady (Local-refl p sv))
      | inr enough ↦
          rw (enough, owner)
            (Safe-bind_eq (Steady p sv) (msg_type_at pkt) _ λ t e.
              dispatch-Steady t stream p pkt sv
                (other t (le_of_not_ltb len pkt_fixed_len enough) e))
    ]

-- A call of `malloc` before.
Steady-asked :
    {p : ℕ} (sv : Server) {sv' : Server}
    → Steady p (record sv { net = asked sv.net }) sv'
    → Steady p sv sv'
Steady-asked sv h = record {
  wired = record { streams = h.wired.streams; conns = h.wired.conns };
  queue = h.queue;
  others = h.others;
  users = λ w. h.users (Kept-IsServer (Frozen-Kept (Frozen-net sv (asked sv.net))) w);
}

stream_cb_receive-Steady :
    {p : ℕ} (stream : ℕ) (buffers : List (List ℕ)) (sv : Server)
    → stream_get_user_data stream sv.net ≡ ok (some p)
    → ((t : ℕ)
        → pkt_fixed_len ≤ length (join buffers)
        → msg_type_at (join buffers ++ 0 ∷ []) ≡ ok t
        → t ≢ type_auth_req)
    → Safe (Steady p sv) (stream_cb_receive stream buffers sv)
unfolding stream_cb_receive stream_get_user_data
stream_cb_receive-Steady {p} stream buffers sv owner other =
    let sv1 = record sv { net = asked sv.net } in
    Safe-if (Steady p sv) (answer sv.net) _ _
      (Safe-mono (Steady p sv1) (Steady p sv) _ (λ v h. Steady-asked sv h)
        (on_stream_recv-Steady stream (join buffers ++ 0 ∷ []) (length (join buffers)) sv1 owner
          other))
      (Steady-asked sv (Local-Steady (Local-refl p sv1)))

Turned-some : (s : Session) (o : Option Session) → Turned (some s) o → (t : Session) × (o ≡ some t)
Turned-some s none h = absurd h
Turned-some s (some t) h = (t, refl)

IsOpen-Wired : {i : ℕ} {n n' : Net} → Wired n n' → IsOpen i n → IsOpen i n'
IsOpen-Wired {i} w o = record {
  stream = o.stream;
  conn = o.conn;
  at = ap (λ f. f i) w.streams ∙ o.at;
  over = ap (λ f. f o.stream.conn) w.conns ∙ o.over;
}

owner-Wired :
    (i : ℕ) {r : Option ℕ} {n n' : Net}
    → Wired n n'
    → stream_get_user_data i n ≡ ok r
    → stream_get_user_data i n' ≡ ok r
unfolding stream_get_user_data
owner-Wired i w e = rw (ap (λ f. f i) w.streams) e

IsQueue-Steady :
    {p : ℕ} {xs : List ℕ} {sv sv' : Server}
    → Steady p sv sv'
    → has p xs ≡ false
    → IsQueue sv.queue sv.sessions xs
    → IsQueue sv'.queue sv'.sessions xs
IsQueue-Steady {p} {xs} {sv} {sv'} h out is = rw h.queue (record {
  chain =
      frame sv.sessions sv'.sessions sv.queue.head xs (λ a i. h.others a (==_ne a p xs i out))
        is.chain;
  last = is.last;
  distinct = is.distinct;
  posted = is.posted;
})

-- A packet on one stream leaves every session served.
Served-Steady :
    {p i q : ℕ} {s : Session} {xs : List ℕ} {sv sv' : Server}
    → has p xs ≡ false
    → Steady p sv sv'
    → Kept sv sv'
    → Served i q s xs sv
    → (t : Session) × Served i q t xs sv'
Served-Steady {i} {q} {s} {sv'} out h k w =
    let (t, at) = Turned-some s (sv'.sessions q) (rw (sym w.at) (k.sessions q)) in
    (
      t,
      record {
        invariant = Kept-IsServer k w.invariant;
        at = at;
        live = IsOpen-Wired h.wired w.live;
        owner = owner-Wired i h.wired w.owner;
        queue = IsQueue-Steady h out w.queue;
        absent = w.absent;
        users = λ n r e. IsOpen-Wired h.wired (w.users n r (h.users w.invariant n r e));
      },
    )

-- Each of the streams leads to a session that is served.
abbrev pub AllServed : List ℕ → List ℕ → Server → Type 0
AllServed streams xs sv =
    (i : ℕ) → has i streams ≡ true → (p : ℕ) × (s : Session) × Served i p s xs sv

-- What comes in on a stream, in pieces, is complete, and not an AUTH_REQ.
abbrev pub IsPlain : List (List ℕ) → Type 0
IsPlain buffers =
    (t : ℕ)
    → pkt_fixed_len ≤ length (join buffers)
    → msg_type_at (join buffers ++ 0 ∷ []) ≡ ok t
    → (t ≢ type_auth_req) × IsComplete t (join buffers ++ 0 ∷ [])

receive-AllServed :
    (streams xs : List ℕ) {sv : Server} (i : ℕ) (buffers : List (List ℕ))
    → has i streams ≡ true
    → IsPlain buffers
    → AllServed streams xs sv
    → Succeeds (λ sv'. AllServed streams xs sv') (stream_cb_receive i buffers sv)
receive-AllServed streams xs {sv} i buffers known plain all =
    let (p, s, w) = all i known in
    Succeeds-also IsServer (λ sv'. AllServed streams xs sv') (stream_cb_receive i buffers sv)
      (stream_cb_receive-Succeeds buffers (λ t l e. (plain t l e).1) w)
      (Safe-mono (λ v. Kept sv v × Steady p sv v) (λ sv'. AllServed streams xs sv')
        (stream_cb_receive i buffers sv)
        (λ v h j k.
          let (q, t, u) = all j k in let (t', u') = Served-Steady w.absent h.1 h.0 u in (q, t', u'))
        (Safe-both (Kept sv) (Steady p sv) (stream_cb_receive i buffers sv)
          (stream_cb_receive-Safe i buffers sv)
          (stream_cb_receive-Steady i buffers sv w.owner λ t l e. (plain t l e).0)))

-- The packets come in one after the other, each on its stream.
pub receive_all : List (ℕ × List (List ℕ)) → Server → Run Server
receive_all [] sv = ok sv
receive_all ((i, buffers) ∷ more) sv = do sv1 ← stream_cb_receive i buffers sv; receive_all more sv1

abbrev pub ArePlain : List ℕ → List (ℕ × List (List ℕ)) → Type 0
ArePlain streams [] = Unit
ArePlain streams ((i, buffers) ∷ more) =
    (has i streams ≡ true) × IsPlain buffers × ArePlain streams more

-- Many clients, each with an open stream that leads to an allocated session which does not wait in the
-- queue, send packets in any order, as many as they like, each of which has the bytes that its message
-- takes (or is shorter than 12 bytes) and is not an AUTH_REQ. If the invariant holds, the queue is well
-- formed and the streams of all users are open, the server handles them all without undefined
-- behaviour, for all answers of the environment. Afterwards all this holds again: the sessions are still
-- there, the streams of the senders and of all users are open, the queue stands for the same sessions,
-- and the invariant holds.
pub receive_all-AllServed :
    (streams xs : List ℕ) (packets : List (ℕ × List (List ℕ))) (sv : Server)
    → ArePlain streams packets
    → AllServed streams xs sv
    → Succeeds (λ sv'. AllServed streams xs sv') (receive_all packets sv)
unfolding receive_all
receive_all-AllServed streams xs [] sv plain all = all
receive_all-AllServed streams xs ((i, buffers) ∷ more) sv (known, plain, rest) all =
    Succeeds-bind (λ v. AllServed streams xs v) (λ v. AllServed streams xs v)
      (stream_cb_receive i buffers sv) _ (receive-AllServed streams xs i buffers known plain all)
      λ sv1 all1. receive_all-AllServed streams xs more sv1 rest all1
