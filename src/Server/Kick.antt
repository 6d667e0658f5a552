-- ===== src/Server/Kick.antt =====
-- `handle_kick_user` of src/handlers/game.rs.
use direlera_rs.Prelude.{
  ℕ, Bool, true, false, not, Option, none, some, [], ◌∷◌, Bytes, length, ltb, ◌==◌, if◌then◌else◌,
  nat_eq,
}
use direlera_rs.Dict.{Dict, lookup}
use direlera_rs.Protocol.Parse.{get_u16_le}
use direlera_rs.Packet.{read_string_bytes, build_quit_game_packet}
use direlera_rs.Room.{GameInfo, is_member, kick_room}
use direlera_rs.State.{ClientInfo, AppState, get_client, get_game}
use direlera_rs.Server.{
  Env, Exec, ◌>>=◌, ◌>>◌, pure, gets, attempt, client, game, or_fail, with_client_mut, with_room,
  not_in_a_game,
}
use direlera_rs.Server.MessageType.{quit_game}
use direlera_rs.Server.Send.{send_packet}
use direlera_rs.Server.Leave.{execute_drop_game, to_lobby, quit_and_status}

abbrev matching : ℕ → ℕ → Option ClientInfo → Option (ℕ × ClientInfo) → Option (ℕ × ClientInfo)
matching user_id addr none rest = rest
matching user_id addr (some c) rest = if c.user_id == user_id then some (addr, c) else rest

abbrev pub find_in : Dict ℕ ClientInfo → ℕ → Dict ℕ ℕ → Option (ℕ × ClientInfo)
find_in ids user_id [] = none
find_in ids user_id ((addr, id) ∷ m) = matching user_id addr (lookup id ids) (find_in ids user_id m)

-- The first client with the id, `find_map`.
unfoldable pub kick_target : AppState → ℕ → Option (ℕ × ClientInfo)
kick_target s user_id = find_in s.clients_by_id user_id s.clients_by_addr

abbrev pub drop_if : Env → ℕ → ℕ → Bool → Exec (Unit {0})
drop_if env game_id addr false = pure tt
drop_if env game_id addr true = attempt (execute_drop_game env game_id addr >>= λ _. pure tt)

unfoldable pub kick_out : Env → ℕ → ℕ → ClientInfo → Exec (Unit {0})
kick_out env game_id addr target = do
  attempt (with_client_mut addr to_lobby)
  was_playing ← with_room game_id (λ g. kick_room g addr)
  drop_if env game_id addr was_playing
  send_packet env addr quit_game (build_quit_game_packet target.username target.user_id)
  g ← gets (λ s. get_game s game_id)
  quit_and_status game_id (build_quit_game_packet target.username target.user_id) g

abbrev pub kick_there : Env → ℕ → ℕ → ClientInfo → Option GameInfo → Exec (Unit {0})
kick_there env game_id addr target none = pure tt
kick_there env game_id addr target (some g) = kick_out env game_id addr target

-- Only a client in the same game is kicked.
abbrev pub kick_from : Env → ℕ → ℕ → ClientInfo → Option ℕ → Exec (Unit {0})
kick_from env game_id addr target none = pure tt
kick_from env game_id addr target (some other) =
    if other == game_id
    then (do g ← gets (λ s. get_game s game_id); kick_there env game_id addr target g)
    else pure tt

abbrev pub current_game : Option ClientInfo → Option ℕ
current_game none = none
current_game (some c) = c.game_id

abbrev pub kick_found : Env → ℕ → Option (ℕ × ClientInfo) → Exec (Unit {0})
kick_found env game_id none = pure tt
kick_found env game_id (some (addr, target)) = do
  c ← gets (λ s. get_client s addr)
  kick_from env game_id addr target (current_game c)

unfoldable pub kick_checked : Env → ℕ → ℕ → Exec (Unit {0})
kick_checked env src user_id = do
  c ← client src
  game_id ← or_fail not_in_a_game c.game_id
  g ← game game_id
  if not (is_member src g.players)
      then pure tt
      else if not (g.owner_user_id == c.user_id)
      then pure tt
      else (do found ← gets (λ s. kick_target s user_id); kick_found env game_id found)

unfoldable pub handle_kick_user : Env → Bytes → ℕ → Exec (Unit {0})
handle_kick_user env payload src =
    let (_, buf) = read_string_bytes payload in
    if ltb (length buf) 2 then pure tt else kick_checked env src (get_u16_le buf)
