-- ===== src/Client/Commands.antt =====
-- The command loop of `main` of src/client/client.c: what a line that the user enters means, and what
-- is done for it. A message waits for the recipient's key; meanwhile other threads run.
use squimpchat.Base.{
  ℕ, ◌-◌, Bool, true, false, ◌||◌, Option, none, some, List, [], ◌∷◌, codes, ltb, ◌==◌,
  if◌then◌else◌, length, bytes_eq, Run, ok, ◌>>=◌,
}
use squimpchat.Client.{Client, sent_to, usage, name_too_long, key_timeout, send_failed}
use squimpchat.Client.Crypto.{OpenSsl}
use squimpchat.Client.Chat.{request_key, send_message}

abbrev pub space : ℕ
space = 32

abbrev with_front : ℕ → Option (List ℕ × List ℕ) → Option (List ℕ × List ℕ)
with_front c none = none
with_front c (some (front, rest)) = some (c ∷ front, rest)

-- `strchr(line, ' ')`: the strings before and behind the first space.
unfoldable pub split_space : List ℕ → Option (List ℕ × List ℕ)
split_space [] = none
split_space (c ∷ cs) =
    let rest = with_front c (split_space cs) in if c == space then some ([], cs) else rest

-- What a line means.
pub data Command : Type 0 where
  nothing leave bad_usage long_name : Command
  message : List ℕ → List ℕ → Command

-- Behind the test for a space.
unfoldable pub command_of : Option (List ℕ × List ℕ) → Command
command_of none = bad_usage
command_of (some (recipient, text)) =
    if (length recipient == 0) || (length text == 0)
    then bad_usage
    else if ltb 32 (length recipient)
    then long_name
    else message recipient text

-- The tests of the loop's body; a line has no 0 byte.
unfoldable pub parse_command : List ℕ → Command
unfolding split_space command_of
parse_command line =
    if length line == 0
    then nothing
    else if bytes_eq line (codes "quit") || bytes_eq line (codes "exit")
    then leave
    else command_of (split_space line)

-- What the main thread does next: it leaves the loop, reads the next line, or waits for a key.
pub data Turn : Type 0 where
  ended again : Turn
  waits : List ℕ → List ℕ → Turn

-- `send_chat` up to its wait, behind the line that says what is sent.
unfoldable pub begin_message : ℕ → List ℕ → List ℕ → Client → Run (Turn × Client)
begin_message stream recipient text c = do
  c1 ← request_key stream recipient (record c { lines = sent_to recipient text ∷ c.lines })
  ok (waits recipient text, c1)

-- The body of the loop, and its condition, up to the wait in `send_chat`; `none` is the end of the
-- input.
unfoldable pub command_turn : ℕ → Option (List ℕ) → Client → Run (Turn × Client)
unfolding parse_command begin_message
command_turn stream line c = if c.interrupted then ok (ended, c) else elim line [
  | none ↦ ok (ended, c)
  | some bytes ↦ elim (parse_command bytes) [
    | nothing ↦ ok (again, c)
    | leave ↦ ok (ended, c)
    | bad_usage ↦ ok (again, record c { lines = usage ∷ c.lines })
    | long_name ↦ ok (again, record c { lines = name_too_long ∷ c.lines })
    | message recipient text ↦ begin_message stream recipient text c
  ]
]

-- A message that was not sent is reported.
abbrev report : Bool × Client → Client
report (true, c) = c
report (false, c) = record c { lines = send_failed ∷ c.lines }

-- A turn of the main thread in the wait of `send_chat` and behind it: if the semaphore lets it, it
-- takes the key; if not, it gives up or goes on to wait. A signal ends the wait as the time does.
unfoldable pub message_turn :
    OpenSsl → (turn stream : ℕ) (timed_out : Bool) → List ℕ → List ℕ → Client → Run (Turn × Client)
message_turn o turn stream timed_out recipient text c =
    let late = report (false, record c { lines = key_timeout recipient ∷ c.lines }) in
    if c.session.key_fetch_sem == 0
    then ok (if timed_out then (again, late) else (waits recipient text, c))
    else (do
      r ←
          send_message o turn stream recipient text (record c {
            session = record c.session { key_fetch_sem = c.session.key_fetch_sem - 1 };
          })
      ok (again, report r))
