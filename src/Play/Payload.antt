-- ===== src/Play/Payload.antt =====
-- The payloads of game data and cache positions that src/handlers/sync.rs reads.
use direlera_rs.Prelude.{
  ℕ, ◌+◌, ◌<◌, ◌≡◌, some, ◌++◌, Bytes, arith, length, take_append, length-append, ◌%◌, ◌/◌, ◌*◌,
}
use direlera_rs.Packet.{build_game_data_packet, build_game_cache_packet}
use direlera_rs.Play.{game_data_payload, game_cache_payload}

-- Game data of less than 65536 bytes and a cache position are read back from the payload of that
-- format, whatever bytes follow.
pub payload-build :
    (game_data rest : Bytes) (pos : ℕ)
    → length game_data < 65536
    → (game_data_payload (build_game_data_packet game_data ++ rest) ≡ some game_data)
      × (game_cache_payload (build_game_cache_packet pos ++ rest) ≡ some pos)
unfolding game_data_payload game_cache_payload build_game_data_packet build_game_cache_packet
payload-build game_data rest pos h =
    let n = length game_data in
    let e : (n % 65536) % 256 + 256 * (((n % 65536) / 256) % 256) ≡ n = omega arith in
    (rw e (ground (arith, take_append game_data rest, length-append game_data rest)), ground arith)
