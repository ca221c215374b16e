-- ===== src/Server/Received.antt =====
-- `on_stream_recv` of server.c on an arbitrary packet: the invariant of the server and the states of the
-- sessions.
use squimpchat.Base.{
  [], ◌∷◌, ◌++◌, ℕ, ◌≡◌, Option, List, ◌==◌, ltb, length, ok, Safe, Safe-mono, Safe-any, Safe-if,
  Safe-ok,
}
use squimpchat.Net.{stream_get_user_data}
use squimpchat.Net.{answer, asked}
use squimpchat.Wire.{
  join, msg_type_at, type_hello, type_auth_req, type_key_req, type_chat_send, type_error, type_bye,
  pkt_fixed_len,
}
use squimpchat.Server.{Server}
use squimpchat.Server.Kept.{Turned, IsServer, Kept, Kept-refl, Kept-IsServer, Kept-trans}
use squimpchat.Server.Callbacks.{dispatch, on_stream_recv, stream_cb_receive}
use squimpchat.Server.Answered.{process_key_req-Frozen, process_chat_send-Frozen}
use squimpchat.Server.Frozen.{Frozen-net, Frozen-Kept}
use squimpchat.Server.HandlersKept.{
  Safe-Kept, process_hello-Kept, process_auth_req-Kept, process_bye-Kept,
}

dispatch-Kept :
    (t stream : ℕ) (sp : Option ℕ) (pkt : List ℕ) (sv : Server)
    → Safe (Kept sv) (dispatch t stream sp pkt sv)
unfolding dispatch
dispatch-Kept t stream sp pkt sv =
    Safe-if (Kept sv) (t == type_hello) _ _ (process_hello-Kept stream sp pkt sv) (
      Safe-if (Kept sv) (t == type_auth_req) _ _ (process_auth_req-Kept stream sp pkt sv) (
        Safe-if (Kept sv) (t == type_key_req) _ _
          (Safe-Kept sv _ (process_key_req-Frozen stream sp pkt sv))
          (Safe-if (Kept sv) (t == type_chat_send) _ _
            (Safe-Kept sv _ (process_chat_send-Frozen stream sp pkt sv))
            (Safe-if (Kept sv) (t == type_error) _ _ (Kept-refl sv)
              (Safe-if (Kept sv) (t == type_bye) _ _ (process_bye-Kept sp sv) (Kept-refl sv))))))

on_stream_recv-Safe :
    (stream : ℕ) (pkt : List ℕ) (len : ℕ) (sv : Server)
    → Safe (Kept sv) (on_stream_recv stream pkt len sv)
unfolding on_stream_recv
on_stream_recv-Safe stream pkt len sv =
    Safe-if (Kept sv) (ltb len pkt_fixed_len) _ _ (Kept-refl sv) (
      Safe-any (Kept sv) (stream_get_user_data stream sv.net) _
        λ sp. Safe-any (Kept sv) (msg_type_at pkt) _ λ t. dispatch-Kept t stream sp pkt sv)

pub stream_cb_receive-Safe :
    (stream : ℕ) (buffers : List (List ℕ)) (sv : Server)
    → Safe (Kept sv) (stream_cb_receive stream buffers sv)
unfolding stream_cb_receive
stream_cb_receive-Safe stream buffers sv =
    let sv1 = record sv { net = asked sv.net } in
    Safe-if (Kept sv) (answer sv.net) _ _
      (Safe-mono (Kept sv1) (Kept sv) _
        (λ v k. Kept-trans (Frozen-Kept (Frozen-net sv (asked sv.net))) k)
        (on_stream_recv-Safe stream (join buffers ++ 0 ∷ []) (length (join buffers)) sv1))
      (Frozen-Kept (Frozen-net sv (asked sv.net)))

-- Whatever bytes come in on a stream: if they are handled without undefined behaviour, the state of
-- every session is what it was, or goes from HELLO to AUTH, or from CONN_ESTABLISHED to CLOSING (so
-- no packet logs a session in, or changes the name of one that is), no session is allocated or freed,
-- and the invariant is kept: the arrays of the sessions have their sizes, the names fit, the registry
-- is well formed, and no two sessions are logged in under one name.
pub stream_cb_receive-Kept :
    (stream : ℕ) (buffers : List (List ℕ)) {sv sv' : Server}
    → IsServer sv
    → stream_cb_receive stream buffers sv ≡ ok sv'
    → IsServer sv' × ((a : ℕ) → Turned (sv.sessions a) (sv'.sessions a))
stream_cb_receive-Kept stream buffers {sv} w e =
    let k =
      Safe-ok (Kept sv) (stream_cb_receive stream buffers sv)
        (stream_cb_receive-Safe stream buffers sv) e in
    (Kept-IsServer k w, k.sessions)
