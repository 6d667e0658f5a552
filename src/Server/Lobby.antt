-- ===== src/Server/Lobby.antt =====
-- `handle_create_game` and `handle_join_game` of src/handlers/game.rs.
use direlera_rs.Prelude.{
  ℕ, ◌+◌, ◌*◌, Bool, false, Option, none, some, Bytes, get_or, drop, take, length, ltb,
  if◌then◌else◌,
}
use direlera_rs.Packet.{read_string_bytes}
use direlera_rs.Room.{
  GamePlayerInfo, GameInfo, is_member, new_player, new_room, can_join, add_player,
}
use direlera_rs.State.{
  ClientInfo, AppState, get_client, get_game, add_game, next_game_id, get_all_client_addrs,
}
use direlera_rs.Server.{
  Env, Exec, ◌>>=◌, ◌>>◌, pure, gets, modify, client, game, with_client_mut, with_game_mut,
  for_each,
}
use direlera_rs.Server.MessageType.{create_game, update_game_status, player_information, join_game}
use direlera_rs.Server.Status.{
  build_new_game_notification, build_join_game_response, make_player_information,
  make_update_game_status,
}
use direlera_rs.Server.Send.{send_packet, broadcast_packet, broadcast_packet_to_game}
use direlera_rs.Server.Leave.{broadcast_status}
use direlera_rs.Server.User.{change}

-- `get_u32_le`
abbrev get_u32_le : Bytes → ℕ
get_u32_le buf =
    get_or buf 0 0 + 256 * get_or buf 1 0 + 65536 * get_or buf 2 0 + 16777216 * get_or buf 3 0

abbrev pub listed : ℕ → Option GameInfo → Bool
listed src none = false
listed src (some g) = is_member src g.players

-- The client is in a game that exists and lists it.
abbrev is_seated : AppState → ℕ → Option ℕ → Bool
is_seated s src none = false
is_seated s src (some game_id) = listed src (get_game s game_id)

abbrev pub game_of : Option ClientInfo → Option ℕ
game_of none = none
game_of (some c) = c.game_id

abbrev pub enter : ℕ → ClientInfo → ClientInfo
enter game_id c = record c { game_id = some game_id }

-- A game that is gone, or does not list the client, is forgotten.
abbrev pub forget_stale : ℕ → Option ℕ → Exec (Unit {0})
forget_stale src none = pure tt
forget_stale src (some game_id) = with_client_mut src (λ c. record c { game_id = none })

abbrev pub host : ℕ → ClientInfo → GamePlayerInfo
host src c = new_player src c.username c.user_id c.conn_type

unfoldable pub announce_game : Env → ℕ → GameInfo → Exec (Unit {0})
announce_game env src g = do
  broadcast_packet create_game
      (build_new_game_notification g.owner g.game_name g.emulator_name g.game_id)
  broadcast_status g
  info ← gets (λ s. make_player_information s src g)
  send_packet env src player_information info
  c ← client src
  send_packet env src join_game (build_join_game_response c)

unfoldable pub open_game : Env → ℕ → Bytes → Exec (Unit {0})
open_game env src game_name = do
  game_id ← change next_game_id
  c ← client src
  let g = new_room game_id game_name c.emulator_name (host src c)
  modify (λ s. add_game s game_id g)
  with_client_mut src (enter game_id)
  announce_game env src g

-- The name is cut to 127 bytes.
abbrev game_name_in : Bytes → Bytes
game_name_in payload =
    let (_, buf) = read_string_bytes payload in take 127 (read_string_bytes buf).0

unfoldable pub handle_create_game : Env → Bytes → ℕ → Exec (Unit {0})
handle_create_game env payload src = do
  current ← gets (λ s. game_of (get_client s src))
  seated ← gets (λ s. is_seated s src current)
  if seated
      then pure tt
      else (do forget_stale src current; open_game env src (game_name_in payload))

unfoldable pub announce_join : Env → ℕ → ℕ → Exec (Unit {0})
announce_join env src game_id = do
  g ← game game_id
  addrs ← gets get_all_client_addrs
  for_each (λ addr. send_packet env addr update_game_status (make_update_game_status g)) addrs
  info ← gets (λ s. make_player_information s src g)
  send_packet env src player_information info
  c ← client src
  broadcast_packet_to_game game_id join_game (build_join_game_response c)

unfoldable pub enter_room : Env → ℕ → ClientInfo → ℕ → Exec (Unit {0})
enter_room env src c game_id = do
  with_client_mut src (enter game_id)
  with_game_mut src (λ g. add_player g (host src c))
  announce_join env src game_id

abbrev pub join_found : Env → ℕ → ClientInfo → ℕ → Option GameInfo → Exec (Unit {0})
join_found env src c game_id none = pure tt
join_found env src c game_id (some g) = if can_join g then enter_room env src c game_id else pure tt

abbrev pub join_from : Env → ℕ → ClientInfo → ℕ → Option ℕ → Exec (Unit {0})
join_from env src c game_id (some current) = pure tt
join_from env src c game_id none = do
  g ← gets (λ s. get_game s game_id)
  join_found env src c game_id g

unfoldable pub join : Env → ℕ → ℕ → Exec (Unit {0})
join env src game_id = do c ← client src; join_from env src c game_id c.game_id

-- The game's number stands after the empty string; a payload that is too short is ignored.
unfoldable pub handle_join_game : Env → Bytes → ℕ → Exec (Unit {0})
handle_join_game env payload src =
    let (_, buf) = read_string_bytes payload in
    if ltb (length buf) 11
    then pure tt
    else (let (_, rest) = read_string_bytes (drop 4 buf) in
        if ltb (length rest) 7 then pure tt else join env src (get_u32_le buf))
