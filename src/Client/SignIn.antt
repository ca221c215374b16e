-- ===== src/Client/SignIn.antt =====
-- `sqmp_login` of src/client/client.c, and what the server (src/shared/sqmp.c, src/server/server.c) and the
-- tool of data/sqmp_add_user.c make of the same name and password.
use squimpchat.Base.{
  ℕ, ◌≤◌, ◌<◌, ◌^◌, ◌≡◌, ◌≢◌, refl, ap, ◌∙◌, Bool, true, false, Option, none, some, List, [], ◌∷◌,
  ◌++◌, arith, ltb, ◌==◌, length, Succeeds, memcpy_lem,
}
use squimpchat.Net.Send.{IsOpen, accepts, stream_send-after_send, sent-after_send}
use squimpchat.Wire.Packets.{auth_req_packet}
use squimpchat.Wire.Reads.{length-auth_req_packet}
use squimpchat.Server.Users.{newline}
use squimpchat.Server.Shape.{padded, memcpy-padded, length-padded}
use squimpchat.AddUser.File.{plain, c_string-plain}
use squimpchat.Client.{Client}
use squimpchat.Client.Crypto.{OpenSsl}
use squimpchat.Client.Login.{cut_newline, typed, send_auth_req, send_credentials, login}

cut_newline_lem : (cs : List ℕ) → cut_newline (cs ++ newline ∷ []) ≡ cs
unfolding cut_newline
cut_newline_lem [] = refl
cut_newline_lem (c ∷ []) = refl
cut_newline_lem (c ∷ d ∷ ds) = ap (λ r. c ∷ r) (cut_newline_lem (d ∷ ds))

-- A line that is ended by the return key.
pub typed_lem : (cs : List ℕ) → plain cs ≡ true → typed (cs ++ newline ∷ []) ≡ cs
unfolding typed
typed_lem cs h = ap cut_newline (c_string-plain cs h) ∙ cut_newline_lem cs

-- What a user types, and what OpenSSL makes of it; the memory and MsQuic do not fail.
pub record Typing (o : OpenSsl) (turn dest : ℕ) (name password key : List ℕ) (c : Client)
    : Type 0 where
  pub plain_name : plain name ≡ true
  pub plain_password : plain password ≡ true
  pub some_name : length name ≢ 0
  pub fits : length name ≤ 32
  pub made : o.keygen turn ≡ some key
  pub own_name_size : length c.session.username ≡ 32
  pub hash_size : length (o.sha256 password) ≡ 32
  pub key_size : length (o.public_of key) ≡ 32
  pub live : IsOpen dest c.net
  pub taken : accepts c.net ≡ true

-- The AUTH_REQ for what was typed.
abbrev pub auth_req_of : OpenSsl → List ℕ → List ℕ → List ℕ → Client → List ℕ
auth_req_of o name password key c =
    auth_req_packet c.session.session_id (length name) (padded (length name) name)
      (o.sha256 password) (o.public_of key)

-- `sqmp_login` has sent this packet, and has the new private key.
abbrev pub Sent : ℕ → List ℕ → List ℕ → Client → Bool × Client → Type 0
Sent dest bytes key c (sent, c') =
    (sent ≡ true) × (c'.net.sent ≡ (dest, bytes) ∷ c.net.sent) × (c'.session.client_privkey ≡ key)

module _ {o : OpenSsl} (turn dest : ℕ) {name password key : List ℕ} {c : Client}
    (t : Typing o turn dest name password key c) where
  -- The packet that is sent.
  abbrev auth_req : List ℕ
  auth_req = auth_req_of o name password key c

  small : length auth_req < 2 ^ 32
  small = omega (
    arith,
    length-auth_req_packet c.session.session_id (length name) (padded (length name) name)
        (o.sha256 password) (o.public_of key)
        (length-padded (length name) name t.fits (omega arith)) t.hash_size t.key_size,
  )

  typed_line :
      login o turn dest (some (name ++ newline ∷ [])) (some (password ++ newline ∷ [])) c
      ≡ send_credentials o turn dest name password c
  unfolding login
  typed_line =
      rw (typed_lem name t.plain_name, typed_lem password t.plain_password, some_length, short) refl
    where
      some_length : (length name == 0) ≡ false
      some_length = ground (arith, t.some_name)

      short : ltb 32 (length name) ≡ false
      short = ground (arith, t.fits)

  -- The client with its new key.
  abbrev keyed : Client
  keyed = record c {
    session = record c.session { client_pubkey = o.public_of key; client_privkey = key };
  }

  new_key :
      send_credentials o turn dest name password c
      ≡ send_auth_req dest name (o.sha256 password) keyed
  unfolding send_credentials
  new_key = ground (arith, t.made)

  auth_req-Sent :
      Succeeds (Sent dest auth_req key c) (send_auth_req dest name (o.sha256 password) keyed)
  unfolding send_auth_req
  auth_req-Sent =
      rw
        (
          memcpy-padded (length name) name t.fits (omega arith),
          memcpy_lem c.session.username name (length name) (omega (arith, t.fits, t.own_name_size))
              (omega arith),
          stream_send-after_send {n = c.net} auth_req t.live,
          t.taken,
        )
        (refl, sent-after_send dest auth_req c.net t.taken small, refl)

  -- A user types a name of 1 to 32 bytes and a password, each ended by the return key and without a 0:
  -- if a key can be made and MsQuic takes the packet, the client sends one AUTH_REQ with the name, the
  -- hash of the password and the public part of the new key, and keeps its private part.
  pub login-Sent :
      Succeeds
        (Sent dest auth_req key c)
        (login o turn dest (some (name ++ newline ∷ [])) (some (password ++ newline ∷ [])) c)
  login-Sent = rw (typed_line, new_key) auth_req-Sent

-- Nothing that could be a login was typed, or no key was made.
pub data Refused (o : OpenSsl) (turn : ℕ) : Option (List ℕ) → Option (List ℕ) → Type 0 where
  no_name : (p : Option (List ℕ)) → Refused o turn none p
  empty_name : (l : List ℕ) (p : Option (List ℕ)) → length (typed l) ≡ 0 → Refused o turn (some l) p
  long_name : (l : List ℕ) (p : Option (List ℕ)) → 32 < length (typed l) → Refused o turn (some l) p
  no_password : (l : List ℕ) → Refused o turn (some l) none
  no_key : (l p : List ℕ) → o.keygen turn ≡ none → Refused o turn (some l) (some p)

-- In each of these cases `sqmp_login` returns -1, sends nothing and leaves the session as it is.
pub login-Refused :
    {o : OpenSsl} (turn dest : ℕ) {name_line password_line : Option (List ℕ)} (c : Client)
    → Refused o turn name_line password_line
    → Succeeds
        (λ r. (r.0 ≡ false) × (r.1.net ≡ c.net) × (r.1.session ≡ c.session))
        (login o turn dest name_line password_line c)
unfolding login send_credentials
login-Refused turn dest c (no_name p) = (refl, refl, refl)
login-Refused turn dest c (empty_name l p h) = ground (arith, h)
login-Refused turn dest c (long_name l p h) = ground (arith, h)
login-Refused turn dest c (no_password l) = ground arith
login-Refused turn dest c (no_key l p h) = ground (arith, h)
