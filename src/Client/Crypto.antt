-- ===== src/Client/Crypto.antt =====
-- `encrypt_chat` and `decrypt_chat` of src/client/client.c. OpenSSL is a parameter: a call that may fail
-- returns `none` for that. Messages are shorter than 2 ^ 31 bytes, so that no cast of a length changes it.
use mathlib.Core.Path.{subst}
use squimpchat.Base.{
  ℕ, ◌-◌, ◌≡◌, refl, Bool, true, false, Option, none, some, List, ◌++◌, arith, ltb, if◌then◌else◌,
  length, take, drop, length-append, take-append_eq, drop-append_eq,
}

-- What the code uses of OpenSSL.
pub record OpenSsl : Type 0 where
  -- the `n`-th new X25519 key (the private part), and the public part of a key
  pub keygen : ℕ → Option (List ℕ)
  pub public_of : List ℕ → List ℕ
  -- the bytes make a public key, or a private one
  pub is_public : List ℕ → Bool
  pub is_private : List ℕ → Bool
  -- the shared secret of a private and a public key
  pub derive : List ℕ → List ℕ → Option (List ℕ)
  pub sha256 : List ℕ → List ℕ
  -- the `n`-th 12 random bytes
  pub rand : ℕ → Option (List ℕ)
  -- AES-256-GCM by key and nonce: a ciphertext and its tag of 16 bytes, and back
  pub seal : List ℕ → List ℕ → List ℕ → Option (List ℕ × List ℕ)
  pub unseal : List ℕ → List ℕ → List ℕ → List ℕ → Option (List ℕ)

-- What `encrypt_chat` writes to its output parameters.
pub record Encrypted : Type 0 where
  pub ephemeral_pub : List ℕ
  pub nonce : List ℕ
  pub ciphertext : List ℕ

infixl 5 ◌>>=◌
abbrev ◌>>=◌ {ℓ κ} : {A : Type ℓ} {B : Type κ} → Option A → (A → Option B) → Option B
none >>= f = none
some a >>= f = f a

abbrev ensure : Bool → Option Bool
ensure true = some true
ensure false = none

-- `encrypt_chat`, for the `n`-th time: `none` for -1.
unfoldable pub encrypt_chat : OpenSsl → ℕ → List ℕ → List ℕ → Option Encrypted
encrypt_chat o n peer_pubkey plaintext = do
  ephemeral ← o.keygen n
  _ ← ensure (o.is_public peer_pubkey)
  shared ← o.derive ephemeral peer_pubkey
  nonce ← o.rand n
  (ciphertext, tag) ← o.seal (o.sha256 shared) nonce plaintext
  some (record {
    ephemeral_pub = o.public_of ephemeral;
    nonce = nonce;
    ciphertext = ciphertext ++ tag;
  })

-- `decrypt_chat`: `none` for -1.
unfoldable pub decrypt_chat : OpenSsl → List ℕ → List ℕ → List ℕ → List ℕ → Option (List ℕ)
decrypt_chat o privkey ephemeral_pub nonce ciphertext =
    let data_len = length ciphertext - 16 in
    if ltb (length ciphertext) 16 then none else (do
      _ ← ensure (o.is_private privkey)
      _ ← ensure (o.is_public ephemeral_pub)
      shared ← o.derive privkey ephemeral_pub
      o.unseal (o.sha256 shared) nonce (take data_len ciphertext) (drop data_len ciphertext))

-- What OpenSSL documents of X25519 and AES-256-GCM: two parties derive the same secret, public parts
-- are public keys, a tag has 16 bytes, and what was sealed opens under the same key and nonce.
pub record IsOpenSsl (o : OpenSsl) : Type 0 where
  pub agree : (a b : List ℕ) → o.derive a (o.public_of b) ≡ o.derive b (o.public_of a)
  pub is_public : (a : List ℕ) → o.is_public (o.public_of a) ≡ true
  pub tag_size : (k n p : List ℕ) {c t : List ℕ} → o.seal k n p ≡ some (c, t) → length t ≡ 16
  pub opens :
      (k n p : List ℕ) {c t : List ℕ} → o.seal k n p ≡ some (c, t) → o.unseal k n c t ≡ some p

bind_some-cases :
    {A B : Type 0} (m : Option A) (f : A → Option B) {b : B}
    → (m >>= f) ≡ some b
    → (a : A) × (m ≡ some a) × (f a ≡ some b)
bind_some-cases none f h = cc
bind_some-cases (some a) f h = (a, refl, h)

decrypt_sealed :
    {o : OpenSsl} {privkey a shared nonce plaintext c t : List ℕ}
    → IsOpenSsl o
    → o.is_private privkey ≡ true
    → o.derive a (o.public_of privkey) ≡ some shared
    → o.seal (o.sha256 shared) nonce plaintext ≡ some (c, t)
    → decrypt_chat o privkey (o.public_of a) nonce (c ++ t) ≡ some plaintext
unfolding decrypt_chat
decrypt_sealed {o} {privkey} {a} {shared} {nonce} {plaintext} {c} {t} w priv secret sealed = rw (
  long,
  priv,
  w.is_public a,
  w.agree privkey a,
  secret,
  take-append_eq (length (c ++ t) - 16) c t data_len,
  drop-append_eq (length (c ++ t) - 16) c t data_len,
  w.opens (o.sha256 shared) nonce plaintext sealed,
)
  where
    tag : length t ≡ 16
    tag = w.tag_size (o.sha256 shared) nonce plaintext sealed

    long : ltb (length (c ++ t)) 16 ≡ false
    long = ground (arith, length-append c t, tag)

    data_len : length (c ++ t) - 16 ≡ length c
    data_len = omega (arith, length-append c t, tag)

-- A message that was encrypted for the public part of a private key is decrypted with that key.
pub decrypt_chat-encrypt_chat :
    {o : OpenSsl} (n : ℕ) {privkey : List ℕ} (plaintext : List ℕ) {e : Encrypted}
    → IsOpenSsl o
    → o.is_private privkey ≡ true
    → encrypt_chat o n (o.public_of privkey) plaintext ≡ some e
    → decrypt_chat o privkey e.ephemeral_pub e.nonce e.ciphertext ≡ some plaintext
unfolding encrypt_chat
decrypt_chat-encrypt_chat {o} n {privkey} plaintext {e} w priv made =
    let (a, _, r1) = bind_some-cases (o.keygen n) _ made in
    let (_, _, r2) = bind_some-cases (ensure (o.is_public (o.public_of privkey))) _ r1 in
    let (shared, secret, r3) = bind_some-cases (o.derive a (o.public_of privkey)) _ r2 in
    let (nonce, _, r4) = bind_some-cases (o.rand n) _ r3 in
    let (sealed, is, r5) = bind_some-cases (o.seal (o.sha256 shared) nonce plaintext) _ r4 in
    let eq : record {
      ephemeral_pub = o.public_of a;
      nonce = nonce;
      ciphertext = sealed.0 ++ sealed.1;
    }
        ≡ e =
      cc r5 in
    subst (λ x. decrypt_chat o privkey x.ephemeral_pub x.nonce x.ciphertext ≡ some plaintext) eq
      (decrypt_sealed w priv secret is)
