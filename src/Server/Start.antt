-- ===== src/Server/Start.antt =====
-- `handle_start_game` of src/handlers/game.rs and `handle_ready_to_play_signal` of src/handlers/sync.rs.
use direlera_rs.Prelude.{
  ℕ, ◌+◌, ◌%◌, Bool, true, false, not, ◌||◌, Option, none, some, List, [], ◌∷◌, ◌++◌, Bytes, map,
  replicate, get_or, length, ltb, ◌==◌, if◌then◌else◌, nat_eq,
}
use direlera_rs.Dict.{insert}
use direlera_rs.Sync.Core.{is_nil}
use direlera_rs.Packet.{
  read_string_bytes, build_start_game_packet, build_game_chat_packet, build_ready_to_play_packet,
}
use direlera_rs.Room.{GamePlayerInfo, GameInfo, is_member, is_live, in_room}
use direlera_rs.Room.Live.{max_of, start_room}
use direlera_rs.State.{ClientInfo, AppState, get_client}
use direlera_rs.Server.{
  World, Env, Result, ok, panics, Exec, ◌>>=◌, ◌>>◌, pure, gets, attempt, client, game, or_fail,
  with_client_mut, fetch_game_info, for_each, not_in_a_game,
}
use direlera_rs.Server.MessageType.{start_game, game_chat, ready_to_play}
use direlera_rs.Server.Status.{codes, decimal, ping_at}
use direlera_rs.Server.Send.{send_packet, broadcast_packet_to_game}
use direlera_rs.Server.Leave.{
  player_status_idle, player_status_playing, set_status, broadcast_status,
}

abbrev pub player_status_net_sync : ℕ
player_status_net_sync = 2

-- The delay of a player by the ping of its client, or by 0 where there is none.
abbrev pub frame_delay : Env → AppState → GamePlayerInfo → ℕ
frame_delay env s p = env.auto_game_delay_frames (ping_at s p.addr) p.conn_type

abbrev by_ping : Env → List ℕ → List ℕ
by_ping env delays =
    if env.same_game_delay || env.shared_game_delay_window
    then replicate (length delays) (max_of delays + env.shared_game_delay_window_margin_frames)
    else delays

-- The delays that the clients are told.
abbrev advertised : Env → AppState → Option ℕ → List GamePlayerInfo → List ℕ
advertised env s none ps = by_ping env (map (frame_delay env s) ps)
advertised env s (some d) ps =
    if d == 0 then map (λ (p : GamePlayerInfo). p.conn_type) ps else replicate (length ps) d

abbrev pub started : World → ℕ → Option GameInfo → Result (Unit {0}) × World
started w game_id none = (panics, w)
started w game_id (some g) =
    (ok tt, record w { app = record w.app { games = insert game_id g w.app.games } })

-- The two changes of the room: those who left are taken out, and the engine is made.
unfoldable pub start_in : Env → ℕ → GameInfo → Exec (Unit {0})
start_in env game_id g w =
    started w game_id
      (start_room env.disable_output_cache env.fixed_game_delay (frame_delay env w.app) g)

abbrev pub send_starts : Env → List ℕ → ℕ → ℕ → List GamePlayerInfo → Exec (Unit {0})
send_starts env delays total i [] = pure tt
send_starts env delays total i (p ∷ ps) =
    send_packet env p.addr start_game
      (build_start_game_packet (get_or delays i p.conn_type % 65536) ((i + 1) % 256) (total % 256))
    >> send_starts env delays total (i + 1) ps

-- "P1=2, P2=3"
abbrev delay_text : ℕ → List ℕ → Bytes
delay_text i [] = []
delay_text i (d ∷ ds) =
    codes "P"
    ++ (decimal i
        ++ (codes "="
            ++ (decimal d ++ ((if is_nil ds then [] else codes ", ") ++ delay_text (i + 1) ds))))

unfoldable pub announce_start : Env → ℕ → ℕ → List GamePlayerInfo → List ℕ → Exec (Unit {0})
announce_start env src game_id ps delays = do
  for_each (set_status player_status_idle) ps
  g ← fetch_game_info src
  broadcast_status g
  send_starts env delays (length g.players) 0 g.players
  broadcast_packet_to_game game_id game_chat
      (build_game_chat_packet (codes "Server") (codes "Game delays: " ++ delay_text 1 delays))

unfoldable pub start : Env → ℕ → ℕ → GameInfo → Exec (Unit {0})
start env src game_id g = do
  start_in env game_id g
  delays ← gets (λ s. advertised env s env.fixed_game_delay (in_room g.players))
  announce_start env src game_id (in_room g.players) delays

abbrev pub already_started : ℕ → ClientInfo → Exec (Unit {0})
already_started game_id c =
    broadcast_packet_to_game game_id game_chat
      (build_game_chat_packet c.username (codes "Game is already started"))

unfoldable pub start_checked : Env → ℕ → Exec (Unit {0})
start_checked env src = do
  c ← client src
  game_id ← or_fail not_in_a_game c.game_id
  g ← game game_id
  if not (is_member src g.players)
      then pure tt
      else if is_live g
      then already_started game_id c
      else if not (g.owner_user_id == c.user_id)
      then pure tt
      else start env src game_id g

unfoldable pub handle_start_game : Env → Bytes → ℕ → Exec (Unit {0})
handle_start_game env payload src =
    let (_, buf) = read_string_bytes payload in
    if ltb (length buf) 4 then pure tt else start_checked env src

abbrev pub waits : Option ClientInfo → Bool
waits none = false
waits (some c) = c.player_status == player_status_net_sync

-- Every listed player has a client that is ready.
abbrev pub all_ready : AppState → List GamePlayerInfo → Bool
all_ready s [] = true
all_ready s (p ∷ ps) = if waits (get_client s p.addr) then all_ready s ps else false

unfoldable pub begin_play : GameInfo → Exec (Unit {0})
begin_play g = do
  for_each (λ p. attempt (set_status player_status_playing p)) g.players
  broadcast_packet_to_game g.game_id ready_to_play build_ready_to_play_packet

unfoldable pub mark_ready : ℕ → Exec (Unit {0})
mark_ready src = do
  with_client_mut src (λ c. record c { player_status = player_status_net_sync })
  g ← fetch_game_info src
  broadcast_status g
  ready ← gets (λ s. all_ready s g.players)
  if ready then begin_play g else pure tt

unfoldable pub handle_ready_to_play_signal : Bytes → ℕ → Exec (Unit {0})
handle_ready_to_play_signal payload src = if is_nil payload then pure tt else (do
  c ← client src
  if c.player_status == player_status_playing then pure tt else mark_ready src)
