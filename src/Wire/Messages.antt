-- ===== src/Wire/Messages.antt =====
-- The packets of src/include/sqmp.h that the client and the server send, by what they say.
use squimpchat.Base.{ℕ, Option, List}
use squimpchat.Wire.{
  type_hello, type_hello_ack, type_auth_req, type_auth_resp, type_key_req, type_key_resp,
  type_error, type_bye, type_chat_send, type_chat_deliver,
}
use squimpchat.Wire.Packets.{
  hello_packet, hello_ack_packet, auth_req_packet, auth_resp_packet, key_req_packet,
  key_resp_packet, error_packet, bye_packet, Chat, chat_packet,
}

-- The packets that the client and the server send. A name comes with its length and its array of 32 bytes.
pub data Message : Type 0 where
  sends_hello : Message
  acks_hello : Message
  asks_login : (n : ℕ) (name hash key : List ℕ) → Message
  answers_login : (status : ℕ) → Message
  asks_key : (n : ℕ) (name : List ℕ) → Message
  answers_key : (n : ℕ) (name key : List ℕ) → Message
  reports : (code : ℕ) (desc : Option (List ℕ)) → Message
  leaves : Message
  sends_chat : Chat → Message
  delivers_chat : Chat → Message

-- The packet with a session id; the HELLO has none.
abbrev pub encode : ℕ → Message → List ℕ
encode id sends_hello = hello_packet
encode id acks_hello = hello_ack_packet id
encode id (asks_login n name hash key) = auth_req_packet id n name hash key
encode id (answers_login status) = auth_resp_packet id status
encode id (asks_key n name) = key_req_packet id n name
encode id (answers_key n name key) = key_resp_packet id n name key
encode id (reports code desc) = error_packet id code desc
encode id leaves = bye_packet id
encode id (sends_chat c) = chat_packet type_chat_send id c
encode id (delivers_chat c) = chat_packet type_chat_deliver id c

abbrev pub type_of : Message → ℕ
type_of sends_hello = type_hello
type_of acks_hello = type_hello_ack
type_of (asks_login n name hash key) = type_auth_req
type_of (answers_login status) = type_auth_resp
type_of (asks_key n name) = type_key_req
type_of (answers_key n name key) = type_key_resp
type_of (reports code desc) = type_error
type_of leaves = type_bye
type_of (sends_chat c) = type_chat_send
type_of (delivers_chat c) = type_chat_deliver
