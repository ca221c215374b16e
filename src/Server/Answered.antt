-- ===== src/Server/Answered.antt =====
-- The answers of the server and what it passes on (src/shared/sqmp.c): only the network changes, and no
-- stream or connection.
use squimpchat.Base.{
  ℕ, ◌≡◌, refl, ◌∙◌, Option, none, some, List, negate, zeros, drop, memcpy, Safe, Safe-mono,
  Safe-bind, Safe-any, Safe-if,
}
use squimpchat.Session.{Session, is_established}
use squimpchat.Registry.{registry_find, registry_get_pubkey}
use squimpchat.Net.{Net, stream_send, answer, asked}
use squimpchat.Wire.{uint_at, session_id_at}
use squimpchat.Server.{Server, session_at, send, send_bye, send_error, session_id_of}
use squimpchat.Server.Handlers.{
  process_key_req, send_key, reply_key, route, process_chat_send, forward, deliver_chat,
}
use squimpchat.Base.{Run, Bool, if_both}
use squimpchat.Net.{open_stream}
use squimpchat.Server.Frozen.{Frozen, Frozen-net, Frozen-trans}

-- The streams and connections are what they were.
pub record Wired (n n' : Net) : Type 0 where
  pub streams : n'.streams ≡ n.streams
  pub conns : n'.conns ≡ n.conns

pub Wired-refl : (n : Net) → Wired n n
Wired-refl n = record { streams = refl; conns = refl }

pub asked-Wired : (n : Net) → Wired n (asked n)
asked-Wired n = record { streams = refl; conns = refl }

pub Wired-trans : {a b c : Net} → Wired a b → Wired b c → Wired a c
Wired-trans h k = record { streams = k.streams ∙ h.streams; conns = k.conns ∙ h.conns }

stream_send-Wired :
    (p : ℕ) (bytes : List ℕ) (n : Net) → Safe (λ r. Wired n r.1) (stream_send p bytes n)
unfolding stream_send
stream_send-Wired p bytes n =
    Safe-if (λ r. Wired n r.1) (answer n) _ _
      (Safe-any (λ r. Wired n r.1) (open_stream p n) _
        λ st.
          if_both (λ (r : Bool × Net). Wired n r.1) (answer (asked n))
            (record { streams = refl; conns = refl }) (record { streams = refl; conns = refl }))
      (asked-Wired n)

-- A packet was answered or passed on, and nothing else.
pub record Answered (sv sv' : Server) : Type 0 where
  pub frozen : Frozen sv sv'
  pub wired : Wired sv.net sv'.net

pub Answered-net : (sv : Server) (n : Net) → Wired sv.net n → Answered sv (record sv { net = n })
Answered-net sv n w = record { frozen = Frozen-net sv n; wired = w }

pub Answered-trans : {a b c : Server} → Answered a b → Answered b c → Answered a c
Answered-trans h k = record {
  frozen = Frozen-trans h.frozen k.frozen;
  wired = Wired-trans h.wired k.wired;
}

Safe-Frozen : (sv : Server) (x : Run Server) → Safe (Answered sv) x → Safe (Frozen sv) x
Safe-Frozen sv x = Safe-mono (Answered sv) (Frozen sv) x λ v a. a.frozen

pub send-Answered :
    (stream : ℕ) (bytes : List ℕ) (sv : Server) → Safe (λ r. Answered sv r.1) (send stream bytes sv)
unfolding send
send-Answered stream bytes sv =
    Safe-bind (λ r. Wired sv.net r.1) (λ r. Answered sv r.1) (stream_send stream bytes sv.net) _
      (stream_send-Wired stream bytes sv.net) λ r f. Answered-net sv r.1 f

pub send_bye-Answered :
    (stream : ℕ) (sp : Option ℕ) (sv : Server) → Safe (Answered sv) (send_bye stream sp sv)
unfolding send_bye
send_bye-Answered stream sp sv = Safe-any (Answered sv) (session_id_of sp sv) _ λ id.
    Safe-bind (λ r. Answered sv r.1) (Answered sv) (send stream _ sv) _ (send-Answered stream _ sv)
      λ r f. f

pub send_error-Answered :
    (stream : ℕ) (sp : Option ℕ) (code : ℕ) (desc : Option (List ℕ)) (sv : Server)
    → Safe (Answered sv) (send_error stream sp code desc sv)
unfolding send_error
send_error-Answered stream sp code desc sv = Safe-any (Answered sv) (session_id_of sp sv) _ λ id.
    Safe-bind (λ r. Answered sv r.1) (Answered sv) (send stream _ sv) _ (send-Answered stream _ sv)
      λ r f. f

send_key-Answered :
    (stream : ℕ) (pkt : List ℕ) (ulen : ℕ) (key : List ℕ) (sv : Server)
    → Safe (Answered sv) (send_key stream pkt ulen key sv)
unfolding send_key
send_key-Answered stream pkt ulen key sv =
    Safe-if (Answered sv) (answer sv.net) _ _
      (Safe-any (Answered sv) (session_id_at pkt) _ λ id.
        Safe-any (Answered sv) (memcpy (zeros 32) (drop 13 pkt) ulen) _ λ name.
          Safe-bind (λ r. Answered (record sv { net = asked sv.net }) r.1) (Answered sv)
            (send stream _ (record sv { net = asked sv.net })) _
            (send-Answered stream _ (record sv { net = asked sv.net }))
            λ r f. Answered-trans (Answered-net sv (asked sv.net) (asked-Wired sv.net)) f)
      (Answered-net sv (asked sv.net) (asked-Wired sv.net))

reply_key-Answered :
    (stream : ℕ) (sp : Option ℕ) (pkt : List ℕ) (ulen : ℕ) (key : Option (List ℕ)) (sv : Server)
    → Safe (Answered sv) (reply_key stream sp pkt ulen key sv)
unfolding reply_key
reply_key-Answered stream sp pkt ulen none sv = send_error-Answered stream sp _ _ sv
reply_key-Answered stream sp pkt ulen (some key) sv = send_key-Answered stream pkt ulen key sv

pub process_key_req-Answered :
    (stream : ℕ) (sp : Option ℕ) (pkt : List ℕ) (sv : Server)
    → Safe (Answered sv) (process_key_req stream sp pkt sv)
unfolding process_key_req
process_key_req-Answered stream sp pkt sv = Safe-any (Answered sv) (session_at sp sv) _ λ s.
    Safe-if (Answered sv) (negate (is_established s.state)) _ _
      (send_error-Answered stream sp _ _ sv)
      (Safe-any (Answered sv) (uint_at 12 1 pkt) _ λ ulen.
        Safe-any (Answered sv) (registry_get_pubkey (drop 13 pkt) ulen sv.registry) _
          λ key. reply_key-Answered stream sp pkt ulen key sv)

forward-Answered :
    (stream : ℕ) (sp : Option ℕ) (s : Session) (pkt : List ℕ) (recipient : ℕ) (sv : Server)
    → Safe (Answered sv) (forward stream sp s pkt recipient sv)
unfolding forward
forward-Answered stream sp s pkt recipient sv =
    let sv1 = record sv { net = asked sv.net } in
    Safe-any (Answered sv) (uint_at 315 4 pkt) _ λ len.
      Safe-if (Answered sv) (negate (answer sv.net)) _ _
        (Answered-net sv (asked sv.net) (asked-Wired sv.net))
        (Safe-any (Answered sv) (session_id_at pkt) _ λ id.
          Safe-any (Answered sv) (deliver_chat s pkt len) _ λ c.
            Safe-bind (λ r. Answered sv1 r.1) (Answered sv) (send recipient _ sv1) _
              (send-Answered recipient _ sv1)
              λ r f.
                Safe-mono (Answered r.1) (Answered sv) _
                  (λ v g.
                    Answered-trans
                      (Answered-trans (Answered-net sv (asked sv.net) (asked-Wired sv.net)) f) g)
                  (Safe-if (Answered r.1) r.0 _ _ (Answered-net r.1 r.1.net (Wired-refl r.1.net))
                    (send_error-Answered stream sp _ _ r.1)))

route-Answered :
    (stream : ℕ) (sp : Option ℕ) (s : Session) (pkt : List ℕ) (recipient : Option ℕ) (sv : Server)
    → Safe (Answered sv) (route stream sp s pkt recipient sv)
unfolding route
route-Answered stream sp s pkt none sv = send_error-Answered stream sp _ _ sv
route-Answered stream sp s pkt (some recipient) sv = forward-Answered stream sp s pkt recipient sv

pub process_chat_send-Answered :
    (stream : ℕ) (sp : Option ℕ) (pkt : List ℕ) (sv : Server)
    → Safe (Answered sv) (process_chat_send stream sp pkt sv)
unfolding process_chat_send
process_chat_send-Answered stream sp pkt sv = Safe-any (Answered sv) (session_at sp sv) _ λ s.
    Safe-if (Answered sv) (negate (is_established s.state)) _ _
      (send_error-Answered stream sp _ _ sv)
      (Safe-any (Answered sv) (uint_at 12 1 pkt) _ λ ulen.
        Safe-any (Answered sv) (registry_find (drop 13 pkt) ulen sv.registry) _
          λ r. route-Answered stream sp s pkt r sv)

pub send-Frozen :
    (stream : ℕ) (bytes : List ℕ) (sv : Server) → Safe (λ r. Frozen sv r.1) (send stream bytes sv)
send-Frozen stream bytes sv =
    Safe-mono (λ r. Answered sv r.1) (λ r. Frozen sv r.1) (send stream bytes sv) (λ r a. a.frozen)
      (send-Answered stream bytes sv)

pub send_bye-Frozen :
    (stream : ℕ) (sp : Option ℕ) (sv : Server) → Safe (Frozen sv) (send_bye stream sp sv)
send_bye-Frozen stream sp sv = Safe-Frozen sv _ (send_bye-Answered stream sp sv)

pub send_error-Frozen :
    (stream : ℕ) (sp : Option ℕ) (code : ℕ) (desc : Option (List ℕ)) (sv : Server)
    → Safe (Frozen sv) (send_error stream sp code desc sv)
send_error-Frozen stream sp code desc sv =
    Safe-Frozen sv _ (send_error-Answered stream sp code desc sv)

pub process_key_req-Frozen :
    (stream : ℕ) (sp : Option ℕ) (pkt : List ℕ) (sv : Server)
    → Safe (Frozen sv) (process_key_req stream sp pkt sv)
process_key_req-Frozen stream sp pkt sv =
    Safe-Frozen sv _ (process_key_req-Answered stream sp pkt sv)

pub process_chat_send-Frozen :
    (stream : ℕ) (sp : Option ℕ) (pkt : List ℕ) (sv : Server)
    → Safe (Frozen sv) (process_chat_send stream sp pkt sv)
process_chat_send-Frozen stream sp pkt sv =
    Safe-Frozen sv _ (process_chat_send-Answered stream sp pkt sv)
