-- ===== src/Server/User.antt =====
-- `handle_user_login` and `handle_user_quit` of src/handlers/user.rs, and the end of a session in
-- src/session_manager.rs.
use direlera_rs.Prelude.{
  ℕ, ◌-◌, Bool, true, false, Option, none, some, Bytes, get_or, take, drop, length, ltb, ◌==◌,
  if◌then◌else◌,
}
use direlera_rs.Protocol.{make_send_packet}
use direlera_rs.Protocol
use direlera_rs.Packet.{
  read_string_bytes, build_user_quit_packet, build_connection_rejected_packet,
  build_server_to_client_ack_packet,
}
use direlera_rs.State.{
  ClientInfo, AppState, get_client, add_client, remove_client, find_client_by_username,
  remove_client_by_username, next_user_id,
}
use direlera_rs.Server.{
  Env, ok, Exec, ◌>>=◌, ◌>>◌, pure, gets, modify, attempt, emit, close_session,
}
use direlera_rs.Server.MessageType.{user_quit, connection_rejected, server_to_client_ack}
use direlera_rs.Server.Status.{codes}
use direlera_rs.Server.Send.{send_packet, broadcast_packet}
use direlera_rs.Server.Leave.{player_status_idle, handle_quit_game}

abbrev session_alive_threshold_secs : ℕ
session_alive_threshold_secs = 30

abbrev lan_connection_type : ℕ
lan_connection_type = 1

-- The only answer to a login that is refused, from a new generator.
unfoldable pub reject_login : ℕ → Bytes → Exec (Unit {0})
reject_login src message =
    emit src
      (make_send_packet Protocol.new connection_rejected
        (build_connection_rejected_packet (codes "server") 0 message)).0

-- A result of the state's operation, and the new state.
abbrev pub change : {A : Type 0} → (AppState → A × AppState) → Exec A
change f w = let (a, s) = f w.app in (ok a, record w { app = s })

-- The rest of the lobby is told.
abbrev pub say_quit : Bytes → ClientInfo → Exec (Unit {0})
say_quit message c =
    broadcast_packet user_quit (build_user_quit_packet c.username c.user_id message)

abbrev pub evicted : Option (ℕ × ClientInfo) → Exec (Unit {0})
evicted none = pure tt
evicted (some (addr, c)) = do say_quit (codes "reconnected") c; close_session addr

abbrev pub quit_if_in_game : Env → ℕ → Option ℕ → Exec (Unit {0})
quit_if_in_game env addr none = pure tt
quit_if_in_game env addr (some game_id) = attempt (handle_quit_game env addr)

abbrev pub is_alive : Env → ClientInfo → Bool
is_alive env c = ltb (env.now_secs - c.last_activity_secs) session_alive_threshold_secs

-- The old session of the name is refused if it is alive, and is put out otherwise; the flag tells
-- whether the login goes on.
abbrev pub make_way : Env → ℕ → Bytes → Option (ℕ × ClientInfo) → Exec Bool
make_way env src username none = pure true
make_way env src username (some (addr, c)) =
    if is_alive env c
    then (do reject_login src (codes "Username is already in use."); pure false)
    else (do
      quit_if_in_game env addr c.game_id
      old ← change (λ s. remove_client_by_username s username)
      evicted old
      pure true)

abbrev pub new_client : Env → Bytes → Bytes → ℕ → ℕ → ClientInfo
new_client env username emulator_name conn_type user_id = record {
  session_id = env.new_session_id;
  username = username;
  emulator_name = emulator_name;
  conn_type = conn_type;
  user_id = user_id;
  ping = 0;
  player_status = player_status_idle;
  game_id = none;
  last_ping_time = some env.now;
  ack_count = 0;
  ping_total = 0;
  last_activity_secs = env.now_secs;
  packet_generator = Protocol.new;
}

unfoldable pub register : Env → ℕ → Bytes → Bytes → ℕ → Exec (Unit {0})
register env src username emulator_name conn_type = do
  user_id ← change next_user_id
  modify (λ s. add_client s src (new_client env username emulator_name conn_type user_id))
  send_packet env src server_to_client_ack build_server_to_client_ack_packet

unfoldable pub login : Env → ℕ → Bytes → Bytes → ℕ → Exec (Unit {0})
login env src username emulator_name conn_type = do
  old ← gets (λ s. find_client_by_username s username)
  goes_on ← make_way env src username old
  if goes_on then register env src username emulator_name conn_type else pure tt

-- A name is cut to 31 bytes; without a byte for it the connection type is 0.
unfoldable pub handle_user_login : Env → Bytes → ℕ → Exec (Unit {0})
handle_user_login env payload src =
    let (username, buf) = read_string_bytes payload in
    let (emulator_name, rest) = read_string_bytes buf in
    let conn_type = get_or rest 0 0 in
    if conn_type == lan_connection_type
    then login env src (take 31 username) emulator_name conn_type
    else reject_login src (codes "Only LAN connection type is allowed.")

abbrev pub quit_said : Bytes → Option ClientInfo → Exec (Unit {0})
quit_said message none = pure tt
quit_said message (some c) = say_quit message c

unfoldable pub quit_user : Env → Bytes → ℕ → Exec (Unit {0})
quit_user env message src = do
  handle_quit_game env src
  c ← change (λ s. remove_client s src)
  quit_said message c
  close_session src

abbrev quit_message : Bytes → Bytes
quit_message buf =
    let rest = if ltb (length buf) 2 then buf else drop 2 buf in (read_string_bytes rest).0

unfoldable pub handle_user_quit : Env → Bytes → ℕ → Exec (Unit {0})
handle_user_quit env payload src =
    let (_, buf) = read_string_bytes payload in quit_user env (quit_message buf) src

abbrev pub ended : Env → Bytes → ℕ → Option ClientInfo → Exec (Unit {0})
ended env reason addr none = pure tt
ended env reason addr (some c) = do
  quit_if_in_game env addr c.game_id
  gone ← change (λ s. remove_client s addr)
  attempt (quit_said reason gone)

-- The end of a session that was closed: its client quits the game and is removed, and the lobby
-- is told. Nothing fails.
unfoldable pub end_session : Env → Bytes → ℕ → Exec (Unit {0})
end_session env reason addr = do
  c ← gets (λ s. get_client s addr)
  ended env reason addr c
  modify (λ s. (remove_client s addr).1)
