-- ===== src/Server/Dispatch.antt =====
-- `handle_message` of src/handlers/mod.rs and `process_ordered_message` of src/main.rs.
use direlera_rs.Prelude.{ℕ, Bytes, ◌==◌, if◌then◌else◌}
use direlera_rs.Protocol.{ParsedMessage}
use direlera_rs.Session.{SessionState, process_packet}
use direlera_rs.Server.{World, Env, Result, Exec, pure, attempt, for_each}
use direlera_rs.Server.MessageType
use direlera_rs.Server.Leave.{handle_quit_game, handle_drop_game}
use direlera_rs.Server.User.{handle_user_login, handle_user_quit}
use direlera_rs.Server.Chat.{handle_global_chat, handle_game_chat}
use direlera_rs.Server.Lobby.{handle_create_game, handle_join_game}
use direlera_rs.Server.Start.{handle_start_game, handle_ready_to_play_signal}
use direlera_rs.Server.Kick.{handle_kick_user}
use direlera_rs.Server.Input.{handle_game_data, handle_game_cache}
use direlera_rs.Server.Ack.{handle_client_to_server_ack}

-- A keep-alive only refreshes the time of activity, which is done before.
abbrev handle_client_keep_alive : Exec (Unit {0})
handle_client_keep_alive = pure tt

-- The messages of a game.
abbrev pub handle_game_message : Env → ℕ → Bytes → ℕ → Exec (Unit {0})
handle_game_message env t payload src =
    if t == MessageType.start_game
    then handle_start_game env payload src
    else if t == MessageType.game_data
    then handle_game_data env payload src
    else if t == MessageType.game_cache
    then handle_game_cache env payload src
    else if t == MessageType.drop_game
    then handle_drop_game env src
    else if t == MessageType.ready_to_play
    then handle_ready_to_play_signal payload src
    else pure tt

-- The messages of the lobby.
abbrev pub handle_room_message : Env → ℕ → Bytes → ℕ → Exec (Unit {0})
handle_room_message env t payload src =
    if t == MessageType.create_game
    then handle_create_game env payload src
    else if t == MessageType.quit_game
    then handle_quit_game env src
    else if t == MessageType.join_game
    then handle_join_game env payload src
    else if t == MessageType.kick_user
    then handle_kick_user env payload src
    else handle_game_message env t payload src

-- A message of another type is ignored.
unfoldable pub handle_message : Env → ℕ → Bytes → ℕ → Exec (Unit {0})
handle_message env t payload src =
    if t == MessageType.user_quit
    then handle_user_quit env payload src
    else if t == MessageType.user_login
    then handle_user_login env payload src
    else if t == MessageType.client_to_server_ack
    then handle_client_to_server_ack env src
    else if t == MessageType.global_chat
    then handle_global_chat payload src
    else if t == MessageType.game_chat
    then handle_game_chat payload src
    else if t == MessageType.client_keep_alive
    then handle_client_keep_alive
    else handle_room_message env t payload src

-- An error of a handler is logged, and the next message is handled.
unfoldable pub process_ordered_message : Env → ℕ → ParsedMessage → Exec (Unit {0})
process_ordered_message env src m = attempt (handle_message env m.message_type m.payload src)

-- A packet of a session: the messages that it releases are handled in their order.
unfoldable pub process_packet_in_session :
    Env → ℕ → SessionState → Bytes → World → (Result (Unit {0}) × World) × SessionState
process_packet_in_session env src s bytes w =
    let (ms, s') = process_packet s bytes in (for_each (process_ordered_message env src) ms w, s')
