-- ===== src/Server/Status.antt =====
-- The payloads that src/handlers/util.rs builds from clients and rooms. The order of a hash map is not
-- specified; here it is that of the entries.
use Prim.Native.Char.{code}
use Prim.Native.String.{String}
use direlera_rs.Prelude.{
  ℕ, zero, suc, ◌+◌, ◌-◌, ◌/◌, ◌%◌, ◌^◌, Bool, Option, none, some, List, [], ◌∷◌, ◌++◌, Bytes,
  length, ltb, ◌==◌, if◌then◌else◌, nat_eq,
}
use direlera_rs.Dict.{Dict, lookup}
use direlera_rs.Packet.{put_bytes_with_null, put_empty_string, put_u8, put_u16_le, put_u32_le}
use direlera_rs.Room.{GamePlayerInfo, GameInfo}
use direlera_rs.State.{ClientInfo, AppState, get_client}

abbrev pub codes : String → Bytes
codes String.[] = []
codes (String.◌∷◌ c s) = code c ∷ codes s

-- A number in decimal, as `format!` writes it; it has at most as many digits as its value tells.
abbrev decimal_from : ℕ → ℕ → Bytes
decimal_from zero n = (48 + n % 10) ∷ []
decimal_from (suc f) n =
    let rest = decimal_from f (n / 10) in
    if ltb n 10 then (48 + n) ∷ [] else rest ++ (48 + n % 10) ∷ []

abbrev pub decimal : ℕ → Bytes
decimal n = decimal_from n n

unfoldable pub build_join_game_response : ClientInfo → Bytes
build_join_game_response user =
    put_u8
      (put_u16_le
        (put_u32_le (put_bytes_with_null (put_u32_le (put_empty_string []) 0) user.username)
          user.ping)
        user.user_id)
      user.conn_type

unfoldable pub build_new_game_notification : Bytes → Bytes → Bytes → ℕ → Bytes
build_new_game_notification username game_name emulator_name game_id =
    put_u32_le
      (put_bytes_with_null (put_bytes_with_null (put_bytes_with_null [] username) game_name)
        emulator_name)
      game_id

abbrev ping_of : Option ClientInfo → ℕ
ping_of none = 0
ping_of (some c) = c.ping

abbrev pub ping_at : AppState → ℕ → ℕ
ping_at s addr = ping_of (get_client s addr)

abbrev put_players : AppState → ℕ → List GamePlayerInfo → Bytes → Bytes
put_players s src [] buf = buf
put_players s src (p ∷ ps) buf = put_players s src ps (
    if p.addr == src
    then buf
    else put_u8
        (put_u16_le (put_u32_le (put_bytes_with_null buf p.username) (ping_at s p.addr)) p.user_id)
        p.conn_type)

unfoldable pub make_player_information : AppState → ℕ → GameInfo → Bytes
make_player_information s src g =
    put_players s src g.players (put_u32_le (put_empty_string []) ((length g.players - 1) % 2 ^ 32))

unfoldable pub make_update_game_status : GameInfo → Bytes
make_update_game_status g =
    put_u8
      (put_u8 (put_u8 (put_u32_le (put_empty_string []) g.game_id) g.game_status) g.num_players)
      g.max_players

unfoldable pub make_user_joined : ClientInfo → Bytes
make_user_joined c =
    put_u8 (put_u32_le (put_u16_le (put_bytes_with_null [] c.username) c.user_id) c.ping)
      c.conn_type

abbrev pub num_acks_for_speed_test : ℕ
num_acks_for_speed_test = 3

-- The handshake is done.
abbrev pub is_logged_in : ClientInfo → Bool
is_logged_in c = ltb num_acks_for_speed_test c.ack_count

abbrev with_visible : Option ClientInfo → List ClientInfo → List ClientInfo
with_visible none cs = cs
with_visible (some c) cs = if is_logged_in c then c ∷ cs else cs

abbrev visible_in : Dict ℕ ClientInfo → ℕ → Dict ℕ ℕ → List ClientInfo
visible_in ids src [] = []
visible_in ids src ((addr, id) ∷ m) =
    if addr == src
    then visible_in ids src m
    else with_visible (lookup id ids) (visible_in ids src m)

unfoldable pub visible_users : AppState → ℕ → List ClientInfo
visible_users s src = visible_in s.clients_by_id src s.clients_by_addr

abbrev put_users : List ClientInfo → Bytes → Bytes
put_users [] buf = buf
put_users (c ∷ cs) buf = put_users cs (
    put_u8
      (put_u16_le (put_u8 (put_u32_le (put_bytes_with_null buf c.username) c.ping) c.player_status)
        c.user_id)
      c.conn_type)

abbrev game_status_to_byte : ℕ → ℕ
game_status_to_byte status = if ltb status 3 then status else 0

abbrev put_games : Dict ℕ GameInfo → Bytes → Bytes
put_games [] buf = buf
put_games ((id, g) ∷ gs) buf = put_games gs (
    put_u8
      (put_bytes_with_null
        (put_bytes_with_null
          (put_bytes_with_null (put_u32_le (put_bytes_with_null buf g.game_name) g.game_id)
            g.emulator_name)
          g.owner)
        (decimal g.num_players ++ (b'/' ∷ decimal g.max_players)))
      (game_status_to_byte g.game_status))

unfoldable pub make_server_status : AppState → ℕ → Bytes
make_server_status s src =
    let users = visible_users s src in
    put_games s.games (
      put_users users (
        put_u32_le (put_u32_le (put_empty_string []) (length users % 2 ^ 32))
          (length s.games % 2 ^ 32)))

-- One payload for each line.
unfoldable pub make_server_information : List Bytes → List Bytes
make_server_information [] = []
make_server_information (line ∷ lines) =
    put_bytes_with_null (put_bytes_with_null [] (codes "Server")) line
    ∷ make_server_information lines
