-- ===== src/Packet.antt =====
-- The payloads of messages: the `put_*` helpers and the builders of src/packet_util.rs, and
-- `read_string_bytes` of src/handlers/util.rs.
pub mod Format
pub mod RoundTrip
mod Tests
use direlera_rs.Prelude.{ℕ, ◌%◌, List, [], ◌∷◌, ◌++◌, Bytes, length, ◌==◌, if◌then◌else◌}
use direlera_rs.Protocol.{le16, le32}

-- `put` at the end of a buffer.
abbrev pub put_bytes_with_null : Bytes → Bytes → Bytes
put_bytes_with_null buf bytes = (buf ++ bytes) ++ 0 ∷ []

abbrev pub put_empty_string : Bytes → Bytes
put_empty_string buf = buf ++ 0 ∷ []

abbrev pub put_u8 : Bytes → ℕ → Bytes
put_u8 buf n = buf ++ n ∷ []

abbrev pub put_u16_le : Bytes → ℕ → Bytes
put_u16_le buf n = buf ++ le16 n

abbrev pub put_u32_le : Bytes → ℕ → Bytes
put_u32_le buf n = buf ++ le32 n

-- The bytes before the first zero, and what follows it; without a zero, all of the buffer.
unfoldable pub read_string_bytes : Bytes → Bytes × Bytes
read_string_bytes [] = ([], [])
read_string_bytes (b ∷ buf) =
    let (s, rest) = read_string_bytes buf in if b == 0 then ([], buf) else (b ∷ s, rest)

unfoldable pub build_start_game_packet : ℕ → ℕ → ℕ → Bytes
build_start_game_packet frame_delay player_number total_players =
    put_u8 (put_u8 (put_u16_le (put_empty_string []) frame_delay) player_number) total_players

unfoldable pub build_game_chat_packet : Bytes → Bytes → Bytes
build_game_chat_packet username message =
    put_bytes_with_null (put_bytes_with_null [] username) message

unfoldable pub build_global_chat_packet : Bytes → Bytes → Bytes
build_global_chat_packet username message =
    put_bytes_with_null (put_bytes_with_null [] username) message

unfoldable pub build_user_quit_packet : Bytes → ℕ → Bytes → Bytes
build_user_quit_packet username user_id message =
    put_bytes_with_null (put_u16_le (put_bytes_with_null [] username) user_id) message

unfoldable pub build_quit_game_packet : Bytes → ℕ → Bytes
build_quit_game_packet username user_id = put_u16_le (put_bytes_with_null [] username) user_id

unfoldable pub build_connection_rejected_packet : Bytes → ℕ → Bytes → Bytes
build_connection_rejected_packet username user_id message =
    put_bytes_with_null (put_u16_le (put_bytes_with_null [] username) user_id) message

unfoldable pub build_close_game_packet : ℕ → Bytes
build_close_game_packet game_id = put_u32_le (put_empty_string []) game_id

unfoldable pub build_ready_to_play_packet : Bytes
build_ready_to_play_packet = put_empty_string []

unfoldable pub build_server_to_client_ack_packet : Bytes
build_server_to_client_ack_packet =
    put_u32_le (put_u32_le (put_u32_le (put_u32_le (put_empty_string []) 0) 1) 2) 3

unfoldable pub build_drop_game_packet : Bytes → ℕ → Bytes
build_drop_game_packet username player_number =
    put_u8 (put_bytes_with_null [] username) player_number

-- The length is cut to 16 bits.
unfoldable pub build_game_data_packet : Bytes → Bytes
build_game_data_packet game_data =
    put_u16_le (put_empty_string []) (length game_data % 65536) ++ game_data

unfoldable pub build_game_cache_packet : ℕ → Bytes
build_game_cache_packet position = 0 ∷ position ∷ []
