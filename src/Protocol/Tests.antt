-- ===== src/Protocol/Tests.antt =====
-- src/kaillera/protocol.rs and `parse_packet` of src/packet_util.rs on concrete inputs.
use direlera_rs.Prelude.{◌+◌, ◌%◌, ◌≡◌, refl, some, List, [], ◌∷◌, ◌++◌, map, concat, arith, All}
use direlera_rs.Protocol.{ParsedMessage, new, make_send_packet}
use direlera_rs.Protocol.Parse.{
  ok, err, no_messages, incomplete_header, parse_messages, parse_message, parse_packet,
}
use direlera_rs.Protocol.RoundTrip.{IsMessage, encode, parse_messages-encode}
use direlera_rs.Protocol.Redundancy.{message, Tracks, make_send_packet-parses}
use direlera_rs.Protocol.Sends.{Item, send_all, send_all-parses, new-Tracks}

parse_packet_no_messages : parse_packet (0 ∷ 1 ∷ []) ≡ err no_messages
unfolding parse_packet
parse_packet_no_messages = refl

parse_packet_short : parse_packet (2 ∷ 7 ∷ 0 ∷ 1 ∷ 0 ∷ 9 ∷ 8 ∷ []) ≡ err (incomplete_header 2)
unfolding parse_packet parse_messages parse_message
parse_packet_short = refl

abbrev chats : List ParsedMessage
chats = message 4 7 (65 ∷ 0 ∷ []) ∷ message 5 8 [] ∷ []

chats-IsMessage : All IsMessage chats
chats-IsMessage = (
  record { number = omega arith; fits = omega arith; size = refl },
  (record { number = omega arith; fits = omega arith; size = refl }, tt),
)

parse_messages-encode_example :
    parse_messages 2 0 (concat (map encode chats) ++ (1 ∷ 2 ∷ [])) ≡ ok chats
parse_messages-encode_example = parse_messages-encode 0 chats (1 ∷ 2 ∷ []) chats-IsMessage

abbrev items : List Item
items = (7, 65 ∷ 0 ∷ []) ∷ (8, []) ∷ (9, 1 ∷ []) ∷ []

send_all-parses_example :
    parse_packet (make_send_packet (send_all new items) 10 (5 ∷ [])).0
    ≡ ok (message 3 10 (5 ∷ []) ∷ message 2 9 (1 ∷ []) ∷ message 1 8 [] ∷ [])
send_all-parses_example =
    send_all-parses items (10, 5 ∷ []) (omega arith, (omega arith, (omega arith, tt))) (omega arith)

make_send_packet-parses_example :
    (parse_packet (make_send_packet new 7 (65 ∷ [])).0
      ≡ ok (message new.send_count 7 (65 ∷ []) ∷ []))
    × Tracks (make_send_packet new 7 (65 ∷ [])).1 (message new.send_count 7 (65 ∷ []) ∷ [])
    × ((make_send_packet new 7 (65 ∷ [])).1.send_count ≡ (new.send_count + 1) % 65536)
    × ((make_send_packet new 7 (65 ∷ [])).1.last_sent ≡ some (make_send_packet new 7 (65 ∷ [])).0)
make_send_packet-parses_example =
    make_send_packet-parses new [] 7 (65 ∷ []) new-Tracks (omega arith)
