-- ===== src/Protocol/RoundTrip.antt =====
-- `make_packet` of src/kaillera/protocol.rs against `parse_packet` of src/packet_util.rs.
use direlera_rs.Prelude.{
  ℕ, ◌+◌, ◌<◌, ◌≡◌, refl, List, [], ◌∷◌, ◌++◌, Bytes, arith, length, map, concat, All, take_append,
  drop_append, length-append, append_assoc,
}
use direlera_rs.Protocol.{ParsedMessage, make_packet}
use direlera_rs.Protocol.Parse.{ok, parse_message, parse_messages}

-- A message that fits its fields.
pub record IsMessage (m : ParsedMessage) : Type 0 where
  pub number : m.message_number < 65536
  pub fits : length m.payload < 65535
  pub size : m.message_length ≡ length m.payload + 1

abbrev pub encode : ParsedMessage → Bytes
encode m = make_packet m.message_type m.message_number m.payload

pub parse_message-encode :
    (i : ℕ) (m : ParsedMessage) (rest : Bytes)
    → IsMessage m
    → parse_message i (encode m ++ rest) ≡ ok (m, rest)
unfolding parse_message make_packet
parse_message-encode i m rest v =
    ground
      (arith, take_append m.payload rest, drop_append m.payload rest, length-append m.payload rest)

-- Messages that fit their fields, encoded one after the other, parse back to the same messages,
-- whatever bytes follow.
pub parse_messages-encode :
    (i : ℕ) (ms : List ParsedMessage) (rest : Bytes)
    → All IsMessage ms
    → parse_messages (length ms) i (concat (map encode ms) ++ rest) ≡ ok ms
unfolding parse_messages
parse_messages-encode i [] rest v = refl
parse_messages-encode i (m ∷ ms) rest v =
    rw (append_assoc (encode m) (concat (map encode ms)) rest) (
      rw (parse_message-encode i m (concat (map encode ms) ++ rest) v.0)
        (rw (parse_messages-encode (i + 1) ms rest v.1) refl))
