-- ===== src/Server/Leave.antt =====
-- `handle_quit_game`, `execute_drop_game` and `handle_drop_game` of src/handlers/game.rs: what they do to
-- the room is in Room; here are the clients, the datagrams and the errors.
use direlera_rs.Prelude.{
  ℕ, ◌+◌, ◌%◌, Bool, true, false, ◌&&◌, Option, none, some, List, ◌++◌, Bytes, get_elem?,
  if◌then◌else◌,
}
use direlera_rs.Sync.Outcome.{Outcome}
use direlera_rs.Sync.Core.{is_nil}
use direlera_rs.Sync.Cached.{CachedPlayerOutput}
use direlera_rs.Packet.{
  build_quit_game_packet, build_close_game_packet, build_game_chat_packet, build_drop_game_packet,
}
use direlera_rs.Room.{
  GamePlayerInfo, GameInfo, position, QuitOutcome, playing, waiting_open, waiting_closed, quit_room,
}
use direlera_rs.Room.Live.{DropOutcome, ignored, sync_manager_not_found, dropped}
use direlera_rs.Room.Live
use direlera_rs.State.{ClientInfo, get_client, get_game, remove_game}
use direlera_rs.Play.{response_message, resolve_in_game}
use direlera_rs.Server.{
  World, Env, Result, ok, err, panics, loops, Exec, ◌>>=◌, ◌>>◌, pure, raise, gets, modify, attempt,
  client, with_client_mut, with_room, for_each, invalid_player_id, game_sync_error,
}
use direlera_rs.Server
use direlera_rs.Server.MessageType.{update_game_status, close_game, quit_game, drop_game, game_chat}
use direlera_rs.Server.Status.{codes, make_update_game_status}
use direlera_rs.Server.Send.{send_packet, broadcast_packet, broadcast_packet_to_game}

abbrev pub player_status_playing : ℕ
player_status_playing = 0

abbrev pub player_status_idle : ℕ
player_status_idle = 1

abbrev pub set_status : ℕ → GamePlayerInfo → Exec (Unit {0})
set_status status p = with_client_mut p.addr (λ c. record c { player_status = status })

abbrev pub broadcast_status : GameInfo → Exec (Unit {0})
broadcast_status g = broadcast_packet update_game_status (make_update_game_status g)

-- The engine's answers to a drop; the list of players is that from before the drop.
abbrev pub send_to : Env → CachedPlayerOutput → Option GamePlayerInfo → Exec (Unit {0})
send_to env o none = raise invalid_player_id
send_to env o (some p) =
    let (message_type, payload) = response_message o.response in
    send_packet env p.addr message_type payload

abbrev pub send_output : Env → List GamePlayerInfo → CachedPlayerOutput → Exec (Unit {0})
send_output env players o = send_to env o (get_elem? players o.player_id)

abbrev pub room_is_empty : Option GameInfo → Bool
room_is_empty none = true
room_is_empty (some g) = is_nil g.players

-- The room is closed if everyone had left.
unfoldable pub close_room : ℕ → Exec (Unit {0})
close_room game_id = do
  modify (λ s. (remove_game s game_id).1)
  broadcast_packet close_game (build_close_game_packet game_id)

unfoldable pub announce_drop :
    Env → ℕ → ClientInfo → ℕ → List GamePlayerInfo → List CachedPlayerOutput → Exec Bool
announce_drop env game_id c slot players outputs = do
  for_each (set_status player_status_idle) players
  broadcast_packet_to_game game_id drop_game (build_drop_game_packet c.username ((slot + 1) % 256))
  for_each (send_output env players) outputs
  pure true

abbrev pub announce_end : Bool → GameInfo → Exec (Unit {0})
announce_end all_dropped g = if all_dropped then broadcast_status g else pure tt

unfoldable pub after_drop :
    Env
    → ℕ
    → ClientInfo
    → ℕ
    → List GamePlayerInfo
    → List CachedPlayerOutput
    → Bool
    → GameInfo
    → Exec Bool
after_drop env game_id c slot players outputs all_dropped g = do
  with_room game_id (λ _. (tt, g))
  announce_end all_dropped g
  now ← gets (λ s. get_game s game_id)
  if all_dropped && room_is_empty now
      then (do close_room game_id; pure true)
      else announce_drop env game_id c slot players outputs

abbrev pub slot_or_0 : Option ℕ → ℕ
slot_or_0 none = 0
slot_or_0 (some i) = i

-- A drop that is ignored gives `false`.
abbrev pub in_game :
    Env → ℕ → ClientInfo → ℕ → GameInfo → Outcome (DropOutcome × GameInfo) → Exec Bool
in_game env game_id c src g (Outcome.ok (ignored, g')) = pure false
in_game env game_id c src g (Outcome.ok (sync_manager_not_found, g')) =
    raise Server.sync_manager_not_found
in_game env game_id c src g (Outcome.ok (dropped outputs all, g')) =
    after_drop env game_id c (slot_or_0 (position src g.players)) g.players outputs all g'
in_game env game_id c src g (Outcome.err e) = raise game_sync_error
in_game env game_id c src g Outcome.loops = λ w. (loops, w)

abbrev pub drop_known : Env → ℕ → ClientInfo → ℕ → Option GameInfo → Exec Bool
drop_known env game_id c src none = pure false
drop_known env game_id c src (some g) = in_game env game_id c src g (Live.execute_drop_game g src)

unfoldable pub execute_drop_game : Env → ℕ → ℕ → Exec Bool
execute_drop_game env game_id src = do
  c ← client src
  g ← gets (λ s. get_game s game_id)
  drop_known env game_id c src g

abbrev pub drop_resolved : Env → ℕ → Option ((ℕ × GameInfo) × ℕ) → Exec (Unit {0})
drop_resolved env src none = pure tt
drop_resolved env src (some ((game_id, g), i)) = do
  done ← execute_drop_game env game_id src
  pure tt

unfoldable pub handle_drop_game : Env → ℕ → Exec (Unit {0})
handle_drop_game env src = do found ← gets (λ s. resolve_in_game s src); drop_resolved env src found

-- The client is back in the lobby.
abbrev pub to_lobby : ClientInfo → ClientInfo
to_lobby c = record c { game_id = none; player_status = player_status_idle }

abbrev pub quit_and_status : ℕ → Bytes → Option GameInfo → Exec (Unit {0})
quit_and_status game_id payload none = pure tt
quit_and_status game_id payload (some g) = do
  broadcast_packet_to_game game_id quit_game payload
  broadcast_status g

abbrev pub quit_or_all : ℕ → Bytes → Option GameInfo → Exec (Unit {0})
quit_or_all game_id payload none = broadcast_packet quit_game payload
quit_or_all game_id payload (some g) = quit_and_status game_id payload (some g)

abbrev pub status_if_there : Option GameInfo → Exec (Unit {0})
status_if_there none = pure tt
status_if_there (some g) = broadcast_status g

abbrev pub dropping : Env → ℕ → ℕ → Exec (Unit {0})
dropping env game_id addr = execute_drop_game env game_id addr >>= λ _. pure tt

-- What follows a quit, by its outcome.
unfoldable pub announce_quit : Env → ℕ → ℕ → Bytes → QuitOutcome → Exec (Unit {0})
announce_quit env game_id src payload playing = do
  attempt (dropping env game_id src)
  g ← gets (λ s. get_game s game_id)
  quit_or_all game_id payload g
announce_quit env game_id src payload waiting_closed = do
  close_room game_id
  broadcast_packet quit_game payload
announce_quit env game_id src payload waiting_open = do
  broadcast_packet_to_game game_id quit_game payload
  g ← gets (λ s. get_game s game_id)
  status_if_there g

abbrev pub chat_owner : ℕ → Bytes → Option GameInfo → Exec (Unit {0})
chat_owner game_id name none = pure tt
chat_owner game_id name (some g) =
    broadcast_packet_to_game game_id game_chat
      (build_game_chat_packet (codes "Server") (name ++ codes " is now the room host"))

abbrev pub announce_owner : ℕ → Option Bytes → Exec (Unit {0})
announce_owner game_id none = pure tt
announce_owner game_id (some name) = do
  g ← gets (λ s. get_game s game_id)
  chat_owner game_id name g

unfoldable pub leave_room : Env → ℕ → ClientInfo → ℕ → Exec (Unit {0})
leave_room env src c game_id = do
  with_client_mut src to_lobby
  r ← with_room game_id (λ g. quit_room g src)
  announce_quit env game_id src (build_quit_game_packet c.username c.user_id) r.0
  announce_owner game_id r.1

abbrev pub leave_known : Env → ℕ → ClientInfo → ℕ → Option GameInfo → Exec (Unit {0})
leave_known env src c game_id none = pure tt
leave_known env src c game_id (some g) = leave_room env src c game_id

abbrev pub quit_of : Env → ℕ → ClientInfo → Option ℕ → Exec (Unit {0})
quit_of env src c none = pure tt
quit_of env src c (some game_id) = do
  g ← gets (λ s. get_game s game_id)
  leave_known env src c game_id g

abbrev pub quit_client : Env → ℕ → Option ClientInfo → Exec (Unit {0})
quit_client env src none = pure tt
quit_client env src (some c) = quit_of env src c c.game_id

-- A client that is not there, or in no game, has nothing to quit.
unfoldable pub handle_quit_game : Env → ℕ → Exec (Unit {0})
handle_quit_game env src = do c ← gets (λ s. get_client s src); quit_client env src c
