-- ===== src/Protocol/Parse.antt =====
-- `parse_packet` of src/packet_util.rs. Of the numbers in an
-- error's text it keeps that of the message.
use direlera_rs.Prelude.{
  ℕ, zero, suc, ◌+◌, ◌-◌, ◌*◌, List, [], ◌∷◌, Bytes, length, get_or, take, drop, ltb, ◌==◌,
  if◌then◌else◌,
}
use direlera_rs.Protocol.{ParsedMessage}

pub data ParseError : Type 0 where
  packet_is_empty : ParseError
  no_messages : ParseError
  incomplete_header : ℕ → ParseError
  invalid_length : ℕ → ParseError
  incomplete_data : ParseError

pub data Parsed {ℓ} (A : Type ℓ) : Type ℓ where
  ok : A → Parsed A
  err : ParseError → Parsed A

-- The early returns of the loop.
infixl 5 ◌>>=◌
abbrev pub ◌>>=◌ {κ ℓ} : {B : Type κ} {A : Type ℓ} → Parsed A → (A → Parsed B) → Parsed B
err e >>= next = err e
ok r >>= next = next r

-- `get_u16_le`
abbrev pub get_u16_le : Bytes → ℕ
get_u16_le buf = get_or buf 0 0 + 256 * get_or buf 1 0

-- One message and what is left of the buffer; `i` is the index that an error shows.
unfoldable pub parse_message : ℕ → Bytes → Parsed (ParsedMessage × Bytes)
parse_message i buf =
    if ltb (length buf) 5
    then err (incomplete_header (i + 1))
    else (let message_length = get_u16_le (drop 2 buf) in
        let rest = drop 5 buf in
        if ltb message_length 1
        then err (invalid_length (i + 1))
        else (if ltb (length rest) (message_length - 1)
            then err incomplete_data
            else ok (
              record {
                message_number = get_u16_le buf;
                message_length = message_length;
                message_type = get_or (drop 4 buf) 0 0;
                payload = take (message_length - 1) rest;
              },
              drop (message_length - 1) rest,
            )))

-- The loop over the messages that are left.
unfoldable pub parse_messages : ℕ → ℕ → Bytes → Parsed (List ParsedMessage)
parse_messages zero i buf = ok []
parse_messages (suc n) i buf =
    parse_message i buf >>= λ r. parse_messages n (i + 1) r.1 >>= λ ms. ok (r.0 ∷ ms)

-- Bytes after the last message are ignored.
unfoldable pub parse_packet : Bytes → Parsed (List ParsedMessage)
unfolding parse_messages
parse_packet [] = err packet_is_empty
parse_packet (num_messages ∷ buf) =
    if num_messages == 0 then err no_messages else parse_messages num_messages 0 buf
