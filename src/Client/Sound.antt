-- ===== src/Client/Sound.antt =====
-- Packets that are long enough for their message: the client handles them without undefined behaviour
-- (`on_stream_recv` of src/client/client.c, and the handlers of src/shared/sqmp.c).
use squimpchat.Base.{
  ℕ, zero, suc, ◌+◌, ◌≤◌, ◌≡◌, inl, inr, Bool-cases, le_of_not_ltb, ◌||◌, List, [], ◌∷◌, arith,
  length, drop, ltb, ◌==◌, negate, length-drop, ok, Succeeds, Returns, Returns-bind, Returns-if,
  Returns-if_eq, memcpy-Returns, Succeeds-Safe,
}
use squimpchat.Session.{is_hello, is_auth, is_established}
use squimpchat.Net.{answer}
use squimpchat.Net.Send.{IsOpen, stream_send-after_send}
use squimpchat.Wire.{
  bytes_at, uint_at, msg_type_at, session_id_at, pkt_fixed_len, type_hello_ack, type_auth_resp,
  type_key_resp, type_chat_deliver, type_error, type_bye,
}
use squimpchat.Wire.Total.{bytes_at-Returns, uint_at-Returns}
use squimpchat.Base.{Option, some}
use squimpchat.Net.{stream_get_user_data}
use squimpchat.Client.{
  dispatch_packet, Client, printed, process_hello_ack, process_auth_resp, process_key_resp,
  process_bye, process_error, show_chat, process_chat_deliver, on_stream_recv,
}
use squimpchat.Client.Crypto.{OpenSsl}
use squimpchat.Client.Handled.{Handled, on_stream_recv-Safe}

-- The packet has the bytes that its message takes for a client, and the lengths in it fit.
pub record IsComplete (t : ℕ) (pkt : List ℕ) : Type 0 where
  pub hello_ack : t ≡ type_hello_ack → 13 ≤ length pkt
  pub auth_resp : t ≡ type_auth_resp → 13 ≤ length pkt
  pub key_resp : t ≡ type_key_resp → 79 ≤ length pkt
  pub error : t ≡ type_error → 14 ≤ length pkt
  pub desc : t ≡ type_error → (n : ℕ) → uint_at 13 1 pkt ≡ ok n → 14 + n ≤ length pkt
  pub chat_deliver : t ≡ type_chat_deliver → 319 ≤ length pkt
  pub sender : t ≡ type_chat_deliver → (n : ℕ) → uint_at 12 1 pkt ≡ ok n → n ≤ 32
  pub ciphertext : t ≡ type_chat_deliver → (n : ℕ) → uint_at 315 4 pkt ≡ ok n → 319 + n ≤ length pkt

printed-Returns : (n : ℕ) (s : List ℕ) → n ≤ length s → Returns (printed n s)
unfolding printed
printed-Returns zero s h = tt
printed-Returns (suc n) [] h = absurd (omega (arith, h))
printed-Returns (suc n) (c ∷ s) h =
    Returns-if (c == 0) _ _ tt
      (Returns-bind (printed n s) _ (printed-Returns n s (omega (arith, h))) λ cs e. tt)

process_hello_ack-Returns :
    (pkt : List ℕ) (c : Client) → 13 ≤ length pkt → Returns (process_hello_ack pkt c)
unfolding process_hello_ack session_id_at
process_hello_ack-Returns pkt c h = Returns-if (negate (is_hello c.session.state)) _ _ tt (
    Returns-bind (uint_at 12 1 pkt) _ (uint_at-Returns 12 1 pkt h) λ version e.
      Returns-if (negate (version == 1)) _ _ tt
        (Returns-bind (uint_at 3 4 pkt) _ (uint_at-Returns 3 4 pkt (omega arith)) λ id f. tt))

process_auth_resp-Returns :
    (pkt : List ℕ) (c : Client) → 13 ≤ length pkt → Returns (process_auth_resp pkt c)
unfolding process_auth_resp
process_auth_resp-Returns pkt c h =
    Returns-bind _ _
      (Returns-if (is_auth c.session.state) _ _
        (Returns-bind (uint_at 12 1 pkt) _ (uint_at-Returns 12 1 pkt h) λ status e. tt) tt)
      λ s e. tt

process_key_resp-Returns :
    (pkt : List ℕ) (c : Client)
    → length c.session.key_fetch_result ≡ 32
    → 79 ≤ length pkt
    → Returns (process_key_resp pkt c)
unfolding process_key_resp
process_key_resp-Returns pkt c size h =
    Returns-bind (uint_at 45 2 pkt) _ (uint_at-Returns 45 2 pkt (omega arith)) λ klen e.
      Returns-bind _ _
        (Returns-if (klen == 32) _ _
          (memcpy-Returns c.session.key_fetch_result (drop 47 pkt) 32 (omega arith)
            (omega (arith, length-drop 47 pkt)))
          tt)
        λ key f. tt

process_bye-Returns :
    (p : ℕ) (sp : Option ℕ) (c : Client) → IsOpen p c.net → Returns (process_bye p sp c)
unfolding process_bye
process_bye-Returns p sp c o = rw (stream_send-after_send _ o) tt

process_error-Returns :
    (sp : Option ℕ) (pkt : List ℕ) (c : Client)
    → 14 ≤ length pkt
    → ((n : ℕ) → uint_at 13 1 pkt ≡ ok n → 14 + n ≤ length pkt)
    → Returns (process_error sp pkt c)
unfolding process_error
process_error-Returns sp pkt c h fits =
    Returns-bind (uint_at 12 1 pkt) _ (uint_at-Returns 12 1 pkt (omega arith)) λ code e.
      Returns-bind (uint_at 13 1 pkt) _ (uint_at-Returns 13 1 pkt h) λ dlen f.
        Returns-bind (printed dlen (drop 14 pkt)) _
          (printed-Returns dlen (drop 14 pkt) (omega (arith, fits dlen f, length-drop 14 pkt)))
          λ desc g. tt

show_chat-Returns :
    (o : OpenSsl) (from pkt : List ℕ) (len : ℕ) (c : Client)
    → 319 ≤ length pkt
    → 319 + len ≤ length pkt
    → Returns (show_chat o from pkt len c)
unfolding show_chat
show_chat-Returns o from pkt len c h long = Returns-if (negate (answer c.net)) _ _ tt (
    Returns-bind (bytes_at 47 32 pkt) _ (bytes_at-Returns 47 32 pkt (omega arith)) λ key e.
      Returns-bind (bytes_at 303 12 pkt) _ (bytes_at-Returns 303 12 pkt (omega arith)) λ nonce f.
        Returns-bind (bytes_at 319 len pkt) _ (bytes_at-Returns 319 len pkt long) λ text g. tt)

process_chat_deliver-Returns :
    (o : OpenSsl) (pkt : List ℕ) (c : Client)
    → 319 ≤ length pkt
    → ((n : ℕ) → uint_at 12 1 pkt ≡ ok n → n ≤ 32)
    → ((n : ℕ) → uint_at 315 4 pkt ≡ ok n → 319 + n ≤ length pkt)
    → Returns (process_chat_deliver o pkt c)
unfolding process_chat_deliver
process_chat_deliver-Returns o pkt c h short long =
    Returns-if (negate (is_established c.session.state)) _ _ tt (
      Returns-bind (uint_at 12 1 pkt) _ (uint_at-Returns 12 1 pkt (omega arith)) λ n e.
        Returns-bind (printed n (drop 13 pkt)) _
          (printed-Returns n (drop 13 pkt) (omega (arith, short n e, length-drop 13 pkt)))
          λ from f.
            Returns-bind (uint_at 45 2 pkt) _ (uint_at-Returns 45 2 pkt (omega arith)) λ klen g.
              Returns-bind (uint_at 315 4 pkt) _ (uint_at-Returns 315 4 pkt (omega arith)) λ len k.
                Returns-if (negate (klen == 32) || ltb len 16) _ _ tt
                  (show_chat-Returns o from pkt len c h (long len k)))

dispatch_packet-Returns :
    (o : OpenSsl) (t p a : ℕ) (pkt : List ℕ) (c : Client)
    → IsComplete t pkt
    → length c.session.key_fetch_result ≡ 32
    → IsOpen p c.net
    → Returns (dispatch_packet o t p (some a) pkt c)
unfolding dispatch_packet
dispatch_packet-Returns o t p a pkt c w size live =
    Returns-if_eq t type_hello_ack _ _ (λ i. process_hello_ack-Returns pkt c (w.hello_ack i))
      (Returns-if_eq t type_auth_resp _ _ (λ i. process_auth_resp-Returns pkt c (w.auth_resp i))
        (Returns-if_eq t type_key_resp _ _ (λ i. process_key_resp-Returns pkt c size (w.key_resp i))
          (Returns-if_eq t type_chat_deliver _ _
            (λ i.
              process_chat_deliver-Returns o pkt c (w.chat_deliver i) (w.sender i) (w.ciphertext i))
            (Returns-if_eq t type_error _ _
              (λ i. process_error-Returns (some a) pkt c (w.error i) (w.desc i))
              (Returns-if (t == type_bye) _ _ (process_bye-Returns p (some a) c live) tt)))))

on_stream_recv-Returns :
    (o : OpenSsl) (p a : ℕ) (pkt : List ℕ) (len : ℕ) (c : Client)
    → len ≤ length pkt
    → ((t : ℕ) → pkt_fixed_len ≤ len → msg_type_at pkt ≡ ok t → IsComplete t pkt)
    → length c.session.key_fetch_result ≡ 32
    → IsOpen p c.net
    → stream_get_user_data p c.net ≡ ok (some a)
    → Returns (on_stream_recv o p pkt len c)
unfolding on_stream_recv msg_type_at
on_stream_recv-Returns o p a pkt len c h k size live owner =
    elim (Bool-cases (ltb len pkt_fixed_len)) [
      | inl few ↦ rw few tt
      | inr enough ↦
          rw (enough, owner)
            (Returns-bind (msg_type_at pkt) _ (uint_at-Returns 1 1 pkt (ground arith)) λ t e.
              dispatch_packet-Returns o t p a pkt c (k t (le_of_not_ltb len pkt_fixed_len enough) e)
                size live)
    ]

-- Whatever the server sends, a packet of `len` bytes that lie in the buffer is handled by the
-- client without undefined behaviour, if it is shorter than 12 bytes or has the bytes that its
-- message takes (13 for a HELLO_ACK and an AUTH_RESP, 79 for a KEY_RESP, 14 and the description for
-- an ERROR, 319 and the ciphertext for a CHAT_DELIVER with a name of at most 32 bytes), the
-- client's stream is open and leads to its session, and the array for a key has its 32 bytes. This
-- holds in every state, for all answers of the environment and for any OpenSSL. The state goes at
-- most from HELLO to AUTH or from AUTH to CONN_ESTABLISHED, the keys stay, no semaphore goes down,
-- and at most one line is printed.
pub on_stream_recv-Succeeds :
    (o : OpenSsl) (p a : ℕ) (pkt : List ℕ) (len : ℕ) (c : Client)
    → len ≤ length pkt
    → ((t : ℕ) → pkt_fixed_len ≤ len → msg_type_at pkt ≡ ok t → IsComplete t pkt)
    → length c.session.key_fetch_result ≡ 32
    → IsOpen p c.net
    → stream_get_user_data p c.net ≡ ok (some a)
    → Succeeds (Handled c) (on_stream_recv o p pkt len c)
on_stream_recv-Succeeds o p a pkt len c h k size live owner =
    Succeeds-Safe (Handled c) _ (on_stream_recv-Returns o p a pkt len c h k size live owner)
      (on_stream_recv-Safe o p pkt len c)
