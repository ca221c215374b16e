-- ===== src/Server/Farewell.antt =====
-- `sqmp_registry_send_bye_all` of src/shared/sqmp.c, which the main thread calls when it is told to stop.
use squimpchat.Base.{
  ℕ, ◌≡◌, ◌<◌, ◌^◌, refl, ap, ◌∙◌, Bool, true, false, Option, none, some, List, [], ◌∷◌, arith,
  if◌then◌else◌, length, ok,
}
use squimpchat.Registry.{Entry, Registry}
use squimpchat.Net.{Net, asked}
use squimpchat.Net.Send.{IsOpen, IsOpen-after_send, accepts, after_send, sent-after_send}
use squimpchat.Wire.Packets.{bye_packet}
use squimpchat.Server.{Server}
use squimpchat.Server.Shape.{send-after}
use squimpchat.Server.Worker.{bye_to, registry_send_bye_all}

-- The stream of an entry that is in use.
abbrev pub used_stream : Entry → Option ℕ
used_stream e = if e.in_use then e.stream else none

abbrev said : Option ℕ → List (ℕ × List ℕ) → List (ℕ × List ℕ)
said none sent = sent
said (some stream) sent = (stream, bye_packet 0) ∷ sent

-- What has been sent when each user has had a BYE.
abbrev pub farewells : Registry → List (ℕ × List ℕ) → List (ℕ × List ℕ)
farewells [] sent = sent
farewells (e ∷ es) sent = farewells es (said (used_stream e) sent)

abbrev IsReached : Option ℕ → Net → Type 0
IsReached none n = Unit
IsReached (some stream) n = IsOpen stream n

-- The streams of the users are open.
abbrev pub Reached : Registry → Net → Type 0
Reached [] n = Unit
Reached (e ∷ es) n = IsReached (used_stream e) n × Reached es n

abbrev pub Willing : Net → Type 0
Willing n = (k : ℕ) → n.answers k ≡ true

Reached-after_send :
    (r : Registry) (stream : ℕ) (bytes : List ℕ) (n : Net)
    → Reached r n
    → Reached r (after_send stream bytes n)
Reached-after_send [] stream bytes n o = tt
Reached-after_send (e ∷ es) stream bytes n o =
    (kept (used_stream e) o.0, Reached-after_send es stream bytes n o.1)
  where
    kept : (s : Option ℕ) → IsReached s n → IsReached s (after_send stream bytes n)
    kept none h = tt
    kept (some s) h = IsOpen-after_send stream bytes h

answers-after_send :
    (stream : ℕ) (bytes : List ℕ) (n : Net) → (after_send stream bytes n).answers ≡ n.answers
unfolding after_send
answers-after_send stream bytes n = ground arith

short : length (bye_packet 0) < 2 ^ 32
unfolding bye_packet
short = omega arith

taken : (n : Net) → Willing n → accepts n ≡ true
taken n w = rw (w n.calls, w (asked n).calls)

record Told (e : Entry) (sv : Server) : Type 0 where
  n : Net
  result : bye_to e sv ≡ ok (record sv { net = n })
  sent : n.sent ≡ said (used_stream e) sv.net.sent
  willing : Willing n
  reach : (r : Registry) → Reached r sv.net → Reached r n

with_stream-Told :
    (e : Entry) (b : Bool) (s : Option ℕ) (sv : Server)
    → Willing sv.net
    → IsReached (used_stream (record e { in_use = b; stream = s })) sv.net
    → Told (record e { in_use = b; stream = s }) sv
unfolding bye_to
with_stream-Told e true (some s) sv w o = record {
  n = after_send s (bye_packet 0) sv.net;
  result = rw (send-after (bye_packet 0) sv o);
  sent = sent-after_send s (bye_packet 0) sv.net (taken sv.net w) short;
  willing = λ j. rw (answers-after_send s (bye_packet 0) sv.net) (w j);
  reach = λ r h. Reached-after_send r s (bye_packet 0) sv.net h;
}
with_stream-Told e true none sv w o = record {
  n = sv.net;
  result = refl;
  sent = refl;
  willing = w;
  reach = λ r h. h;
}
with_stream-Told e false (some s) sv w o = record {
  n = sv.net;
  result = refl;
  sent = refl;
  willing = w;
  reach = λ r h. h;
}
with_stream-Told e false none sv w o = record {
  n = sv.net;
  result = refl;
  sent = refl;
  willing = w;
  reach = λ r h. h;
}

bye_to-Told :
    (e : Entry) (sv : Server) → Willing sv.net → IsReached (used_stream e) sv.net → Told e sv
bye_to-Told e sv w o = with_stream-Told e e.in_use e.stream sv w o

-- If memory is found, MsQuic takes every packet, and the streams of the entries in use are open, then
-- each such stream is sent one BYE with session id 0, in the order of the registry, and nothing else
-- is sent. Only the network changes.
pub registry_send_bye_all-farewells :
    (r : Registry) (sv : Server)
    → Willing sv.net
    → Reached r sv.net
    → (n : Net) × (registry_send_bye_all r sv ≡ ok (record sv { net = n }))
      × (n.sent ≡ farewells r sv.net.sent)
unfolding registry_send_bye_all
registry_send_bye_all-farewells [] sv w o = (sv.net, refl, refl)
registry_send_bye_all-farewells (e ∷ es) sv w o =
    let t = bye_to-Told e sv w o.0 in
    let (n, is, sent) =
      registry_send_bye_all-farewells es (record sv { net = t.n }) t.willing (t.reach es o.1) in
    (n, rw (t.result, is), sent ∙ ap (farewells es) t.sent)
