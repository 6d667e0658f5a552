-- ===== src/Packet/Tests.antt =====
-- The builders of src/packet_util.rs on concrete inputs.
use direlera_rs.Prelude.{◌≡◌, refl, some, [], ◌∷◌, Bytes, arith}
use direlera_rs.Packet.{
  read_string_bytes, build_start_game_packet, build_user_quit_packet,
  build_connection_rejected_packet, build_quit_game_packet, build_game_chat_packet,
  build_global_chat_packet, build_close_game_packet, build_drop_game_packet, build_game_data_packet,
  build_game_cache_packet, build_server_to_client_ack_packet, build_ready_to_play_packet,
}
use direlera_rs.Packet.Format.{Kind, byte, word, long, Field, read_fields, IsText}
use direlera_rs.Packet.RoundTrip.{user_packets-read, game_packets-read}

abbrev name : Bytes
name = 65 ∷ 66 ∷ []

name-IsText : IsText name
name-IsText = ((λ e. omega arith), ((λ e. omega arith), tt))

read_to_end : read_string_bytes name ≡ (name, [])
unfolding read_string_bytes
read_to_end = refl

user_packets-read_example :
    (read_fields (Kind.text ∷ word ∷ Kind.text ∷ []) (build_user_quit_packet name 258 name)
      ≡ some (Field.text name ∷ Field.number 258 ∷ Field.text name ∷ [], []))
    × (read_fields
          (Kind.text ∷ word ∷ Kind.text ∷ [])
          (build_connection_rejected_packet name 258 name)
        ≡ some (Field.text name ∷ Field.number 258 ∷ Field.text name ∷ [], []))
    × (read_fields (Kind.text ∷ word ∷ []) (build_quit_game_packet name 258)
        ≡ some (Field.text name ∷ Field.number 258 ∷ [], []))
    × (read_fields (Kind.text ∷ byte ∷ []) (build_drop_game_packet name 2)
        ≡ some (Field.text name ∷ Field.number 2 ∷ [], []))
    × (read_fields (Kind.text ∷ Kind.text ∷ []) (build_game_chat_packet name name)
        ≡ some (Field.text name ∷ Field.text name ∷ [], []))
    × (read_fields (Kind.text ∷ Kind.text ∷ []) (build_global_chat_packet name name)
        ≡ some (Field.text name ∷ Field.text name ∷ [], []))
user_packets-read_example = user_packets-read name 258 2 name name-IsText (omega arith) name-IsText

game_packets-read_example :
    (read_fields (Kind.text ∷ word ∷ byte ∷ byte ∷ []) (build_start_game_packet 300 1 2)
      ≡ some (Field.text [] ∷ Field.number 300 ∷ Field.number 1 ∷ Field.number 2 ∷ [], []))
    × (read_fields (Kind.text ∷ long ∷ []) (build_close_game_packet 70000)
        ≡ some (Field.text [] ∷ Field.number 70000 ∷ [], []))
    × (read_fields (Kind.text ∷ word ∷ []) (build_game_data_packet name)
        ≡ some (Field.text [] ∷ Field.number 2 ∷ [], name))
    × (read_fields (Kind.text ∷ byte ∷ []) (build_game_cache_packet 7)
        ≡ some (Field.text [] ∷ Field.number 7 ∷ [], []))
    × (read_fields (Kind.text ∷ long ∷ long ∷ long ∷ long ∷ []) build_server_to_client_ack_packet
        ≡ some (
          Field.text [] ∷ Field.number 0 ∷ Field.number 1 ∷ Field.number 2 ∷ Field.number 3 ∷ [],
          [],
        ))
    × (read_fields (Kind.text ∷ []) build_ready_to_play_packet ≡ some (Field.text [] ∷ [], []))
game_packets-read_example =
    game_packets-read 300 1 2 70000 7 name (omega arith) (omega arith) (omega arith)
