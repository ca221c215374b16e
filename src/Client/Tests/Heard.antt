-- ===== src/Client/Tests/Heard.antt =====
-- Packets that the client receives (src/client/client.c).
use squimpchat.Base.{
  ◌≤◌, ℕ, ◌≡◌, refl, some, List, [], ◌∷◌, ◌++◌, arith, codes, length, zeros, ok, ok_injective,
  Succeeds,
}
use squimpchat.Session.{conn_established}
use squimpchat.Wire.{msg_type_at, uint_at, bytes_at, error_user_not_found}
use squimpchat.Wire.Messages.{Message, reports, encode}
use squimpchat.Net.{stream_get_user_data}
use squimpchat.Client.{Client, on_stream_recv}
use squimpchat.Client.Handled.{Handled}
use squimpchat.Client.Sound.{IsComplete, on_stream_recv-Succeeds}
use squimpchat.Client.Heard.{on_stream_recv-encode}
use squimpchat.Server.Tests.{net, willing, eve-IsOpen}
use squimpchat.Client.Tests.{openssl, client}

-- A client with the open stream 3.
abbrev connected : Client
connected = record (client conn_established) { net = net willing }

-- An ERROR that a server of another make sends, with a description of one byte and no array behind it.
abbrev short_error : List ℕ
short_error = 1 ∷ 7 ∷ zeros 10 ++ 9 ∷ 1 ∷ 33 ∷ []

short_error-IsComplete :
    (t : ℕ) → 12 ≤ 15 → msg_type_at short_error ≡ ok t → IsComplete t short_error
unfolding msg_type_at uint_at bytes_at
short_error-IsComplete t l e = record {
  hello_ack = λ k. omega arith;
  auth_resp = λ k. omega arith;
  key_resp = λ k. omega (arith, ok_injective e, k);
  error = λ k. omega arith;
  desc = λ k n f. omega (arith, ok_injective f);
  chat_deliver = λ k. omega (arith, ok_injective e, k);
  sender = λ k n f. omega (arith, ok_injective e, k);
  ciphertext = λ k n f. omega (arith, ok_injective e, k);
}

on_stream_recv-Succeeds_example :
    Succeeds (Handled connected) (on_stream_recv openssl 3 short_error 15 connected)
unfolding stream_get_user_data
on_stream_recv-Succeeds_example =
    on_stream_recv-Succeeds openssl 3 300 short_error 15 connected (omega arith)
      short_error-IsComplete refl (eve-IsOpen willing) refl

-- The recipient is offline.
abbrev offline : Message
offline = reports error_user_not_found (some (codes "recipient not online"))

on_stream_recv-encode_example :
    Succeeds
      (Handled connected)
      (on_stream_recv openssl 3 (encode 1 offline ++ 0 ∷ []) (length (encode 1 offline)) connected)
unfolding stream_get_user_data
on_stream_recv-encode_example =
    on_stream_recv-encode openssl 3 300 1 offline (0 ∷ []) connected tt refl (eve-IsOpen willing)
      refl
