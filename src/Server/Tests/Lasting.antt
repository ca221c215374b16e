-- ===== src/Server/Tests/Lasting.antt =====
-- Many packets (src/server/server.c).
use squimpchat.Base.{
  ℕ, [], ◌∷◌, refl, inl, inr, List, arith, ok_injective, Bool-cases, ==_iff, ◌==◌, Succeeds,
}
use squimpchat.Wire.{msg_type_at, uint_at, bytes_at}
use squimpchat.Wire.Packets.{hello_packet, bye_packet}
use squimpchat.Server.Lasting.{IsPlain, AllServed, receive_all, receive_all-AllServed}
use squimpchat.Server.Tests.Logins.{after_hello}
use squimpchat.Server.Tests.Sound.{after_hello-Served}

-- A second HELLO, three bytes of nothing, and a BYE.
abbrev packets : List (ℕ × List (List ℕ))
packets = (1, hello_packet ∷ []) ∷ (1, (1 ∷ 1 ∷ []) ∷ (7 ∷ []) ∷ []) ∷ (1, bye_packet 1 ∷ []) ∷ []

hello-IsPlain : IsPlain (hello_packet ∷ [])
unfolding msg_type_at uint_at bytes_at hello_packet
hello-IsPlain t l e = (
  (λ k. omega (arith, ok_injective e, k)),
  record {
    hello = λ k. omega arith;
    auth_req = λ k. omega (arith, ok_injective e, k);
    auth_name = λ k n f. omega (arith, ok_injective e, k);
    key_req = λ k. omega (arith, ok_injective e, k);
    chat_send = λ k. omega (arith, ok_injective e, k);
    ciphertext = λ k n f. omega (arith, ok_injective e, k);
  },
)

bye-IsPlain : IsPlain (bye_packet 1 ∷ [])
unfolding msg_type_at uint_at bytes_at bye_packet
bye-IsPlain t l e = (
  (λ k. omega (arith, ok_injective e, k)),
  record {
    hello = λ k. omega (arith, ok_injective e, k);
    auth_req = λ k. omega (arith, ok_injective e, k);
    auth_name = λ k n f. omega (arith, ok_injective e, k);
    key_req = λ k. omega (arith, ok_injective e, k);
    chat_send = λ k. omega (arith, ok_injective e, k);
    ciphertext = λ k n f. omega (arith, ok_injective e, k);
  },
)

short-IsPlain : IsPlain ((1 ∷ 1 ∷ []) ∷ (7 ∷ []) ∷ [])
short-IsPlain t l e = absurd (omega (arith, l))

one_served : AllServed (1 ∷ []) [] after_hello
one_served i known = elim (Bool-cases (i == 1)) [
  | inl e ↦ rw ((==_iff i 1).0 e) (100, after_hello-Served.0, after_hello-Served.1)
  | inr e ↦ absurd (ground arith)
]

receive_all-AllServed_example :
    Succeeds (λ sv'. AllServed (1 ∷ []) [] sv') (receive_all packets after_hello)
receive_all-AllServed_example =
    receive_all-AllServed (1 ∷ []) [] packets after_hello
      (refl, hello-IsPlain, (refl, short-IsPlain, (refl, bye-IsPlain, tt))) one_served
