-- ===== src/Client/Login.antt =====
-- `sqmp_login` of src/client/client.c. The two lines that `fgets` reads from the terminal are arguments,
-- `none` at the end of the input: the first has at most 32 bytes, the second at most 255. Prompts
-- and the terminal's echo are left out, and so is that OpenSSL may fail to write out a key.
use squimpchat.Base.{
  ℕ, Bool, false, ◌||◌, Option, none, some, List, [], ◌∷◌, ltb, ◌==◌, if◌then◌else◌, length, zeros,
  Run, ok, ◌>>=◌, memcpy,
}
use squimpchat.Net.{stream_send}
use squimpchat.Wire.Packets.{auth_req_packet}
use squimpchat.Server.Users.{newline, c_string}
use squimpchat.Client.{Client, invalid_username, auth_send_failed}
use squimpchat.Client.Crypto.{OpenSsl}

-- One newline at the end is cut off.
unfoldable pub cut_newline : List ℕ → List ℕ
cut_newline [] = []
cut_newline (c ∷ []) = if c == newline then [] else c ∷ []
cut_newline (c ∷ d ∷ ds) = c ∷ cut_newline (d ∷ ds)

-- The string that the program has of a line.
unfoldable pub typed : List ℕ → List ℕ
unfolding cut_newline
typed line = cut_newline (c_string line)

-- The AUTH_REQ with the name, the hash of the password and the public key.
unfoldable pub send_auth_req : ℕ → List ℕ → List ℕ → Client → Run (Bool × Client)
send_auth_req stream name hash c = do
  field ← memcpy (zeros 32) name (length name)
  own ← memcpy c.session.username name (length name)
  (sent, n) ←
      stream_send stream
        (auth_req_packet c.session.session_id (length name) field hash c.session.client_pubkey)
        c.net
  let s = record c.session { username_len = length name; username = own }
  let lines = if sent then c.lines else auth_send_failed ∷ c.lines
  ok (sent, record c { session = s; net = n; lines = lines })

-- Behind the reading of the password: the new key, by the `turn`-th call of OpenSSL, and the packet.
unfoldable pub send_credentials : OpenSsl → ℕ → ℕ → List ℕ → List ℕ → Client → Run (Bool × Client)
unfolding send_auth_req
send_credentials o turn stream name password c = elim (o.keygen turn) [
  | none ↦ ok (false, c)
  | some key ↦ send_auth_req stream name (o.sha256 password) (record c {
    session = record c.session { client_pubkey = o.public_of key; client_privkey = key };
  })
]

-- `sqmp_login`: `true` for 0, `false` for -1.
unfoldable pub login :
    OpenSsl → ℕ → ℕ → Option (List ℕ) → Option (List ℕ) → Client → Run (Bool × Client)
unfolding send_credentials typed
login o turn stream none password_line c = ok (false, c)
login o turn stream (some name_line) password_line c =
    let name = typed name_line in
    let invalid = record c { lines = invalid_username ∷ c.lines } in
    if (length name == 0) || ltb 32 (length name) then ok (false, invalid) else elim password_line [
      | none ↦ ok (false, c)
      | some line ↦ send_credentials o turn stream name (typed line) c
    ]
