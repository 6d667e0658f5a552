-- ===== src/Server/Tests.antt =====
-- The server's handlers on concrete inputs.
use direlera_rs.Prelude.{
  ℕ, length, ◌/◌, ◌<◌, ◌≤◌, ◌≡◌, ◌≢◌, refl, true, false, none, some, [], ◌∷◌, arith, nat_eq, ◌⊎◌,
}
use direlera_rs.Protocol.{make_send_packet}
use direlera_rs.Protocol
use direlera_rs.Sync.Outcome.{Outcome}
use direlera_rs.Dict
use direlera_rs.Dict.{lookup, insert}
use direlera_rs.Sync.Core
use direlera_rs.Sync.Cache
use direlera_rs.Sync.Cached.{ClientInput, ServerResponse, CachedPlayerOutput}
use direlera_rs.Sync.Cached
use direlera_rs.Sync.Delayed.{DelayedGameSync, fresh}
use direlera_rs.Sync.Delayed
use direlera_rs.Room.{GamePlayerInfo, GameInfo, new_player, new_room, is_live}
use direlera_rs.Room.Live.{DropOutcome, dropped}
use direlera_rs.Room.Live
use direlera_rs.State.{add_client, ClientInfo, get_client, get_game, get_all_client_addrs}
use direlera_rs.Server.{World, Env, ok, err, panics, client_not_found}
use direlera_rs.Server.Status.{codes}
use direlera_rs.Server.Send.{broadcast_packet, broadcast_packet_to_game}
use direlera_rs.Server.Leave.{execute_drop_game}
use direlera_rs.Server.Start.{handle_start_game, handle_ready_to_play_signal}
use direlera_rs.Server.Kick.{handle_kick_user}
use direlera_rs.Server.Ack.{handle_client_to_server_ack}
use direlera_rs.Server.Messages.{Returns}
use direlera_rs.Protocol.{make_packet}
use direlera_rs.Server.Mail.{mail, Sends}
use direlera_rs.Server.Targets.{ToGame, broadcast_targets}
use direlera_rs.Server.Gone.{drop_loses_outputs}
use direlera_rs.Server.Unready.{note_ready, ready_blocked}
use direlera_rs.Server.Owners.{non_owner_refused}
use direlera_rs.Server.Kick.{kick_target}
use direlera_rs.Protocol.Parse.{get_u16_le}
use direlera_rs.Packet.{read_string_bytes}
use direlera_rs.Server.Alone.{emptied, kick_alone}
use direlera_rs.Server.Acks.{IsWrapped, ack_bound}

abbrev pub env : Env
env = record {
  now = 1000;
  now_secs = 1;
  new_session_id = 100;
  mean_ping = λ total count. total / count;
  auto_game_delay_frames = λ ping conn_type. 1;
  welcome_lines = codes "Hello" ∷ [];
  bytes_for_log = λ name. name;
  addr_text = λ addr. codes "127.0.0.1:1";
  disable_output_cache = false;
  fixed_game_delay = some 0;
  same_game_delay = false;
  shared_game_delay_window = false;
  shared_game_delay_window_margin_frames = 0;
}

abbrev engine : DelayedGameSync
engine = fresh (Cached.new (1 ∷ 1 ∷ 1 ∷ [])) (0 ∷ 0 ∷ 0 ∷ [])

abbrev state_of {ℓ} : {A : Type ℓ} → Outcome (A × DelayedGameSync) → DelayedGameSync
state_of (Outcome.ok r) = r.1
state_of (Outcome.err e) = engine
state_of Outcome.loops = engine

-- The first player has left and the third has sent an input.
abbrev waiting : DelayedGameSync
waiting = state_of (
    Delayed.process_client_input (state_of (Delayed.mark_player_dropped engine 0)) 2
      (ClientInput.game_data (9 ∷ [])))

abbrev gone : GamePlayerInfo
gone = record (new_player 1 (65 ∷ []) 1 1) { left_room = true }

abbrev room : GameInfo
room = record (new_room 7 (77 ∷ []) [] (new_player 3 (67 ∷ []) 3 1)) {
  num_players = 2;
  game_status = 1;
  players = gone ∷ new_player 2 (66 ∷ []) 2 1 ∷ new_player 3 (67 ∷ []) 3 1 ∷ [];
  sync_manager = some waiting;
}

abbrev after : GameInfo
after = record room { sync_manager = some (state_of (Delayed.mark_player_dropped waiting 1)) }

abbrev frame : ℕ → CachedPlayerOutput
frame i = record { player_id = i; response = ServerResponse.game_data (0 ∷ 0 ∷ 9 ∷ []) }

-- The drop of the second player lets a frame for each player go.
drop_second :
    Live.execute_drop_game room 2
    ≡ Outcome.ok (dropped (frame 0 ∷ frame 1 ∷ frame 2 ∷ []) false, after)
unfolding Live.execute_drop_game Delayed.mark_player_dropped Delayed.process_client_input Cached.new
    Cached.mark_player_dropped Core.mark_player_dropped Core.new Core.drain_ready_inputs Core.drain
    Core.ready Cached.player_count Cached.resolve Cached.process_client_input
    Core.process_client_input Core.queue_input Core.chunks Core.round Core.flush_all Core.flush
    Delayed.all_players_dropped Core.all_players_dropped insert lookup Dict.remove Cache.empty
    Cache.find Cache.get Cache.len Cache.push Cached.convert Cached.make_cached_output
    Delayed.catch_up Delayed.deliver Delayed.forward Delayed.warm_up
drop_second = refl

abbrev ben : ClientInfo
ben = record {
  session_id = 200;
  username = 66 ∷ [];
  emulator_name = [];
  conn_type = 1;
  user_id = 2;
  ping = 10;
  player_status = 1;
  game_id = some 7;
  last_ping_time = some 0;
  ack_count = 4;
  ping_total = 40;
  last_activity_secs = 0;
  packet_generator = Protocol.new;
}

abbrev cat : ClientInfo
cat = record ben { session_id = 300; username = 67 ∷ []; user_id = 3 }

-- The first player's client is gone.
abbrev world : World
world = record {
  app = record {
    clients_by_addr = (2, 200) ∷ (3, 300) ∷ [];
    clients_by_id = (200, ben) ∷ (300, cat) ∷ [];
    games = (7, room) ∷ [];
    next_game = 8;
    next_user = 4;
  };
  sent = [];
  closed = [];
}

found : (get_client world.app 2 ≡ some ben) × (get_game world.app 7 ≡ some room)
unfolding get_client get_game lookup
found = (refl, refl)

not_found : get_client world.app 1 ≡ none
unfolding get_client lookup
not_found = refl

drop_loses_outputs_example :
    ((execute_drop_game env 7 2 world).0 ≡ err client_not_found)
    × ((execute_drop_game env 7 2 world).1.sent ≡ [])
    × (get_game (execute_drop_game env 7 2 world).1.app 7 ≡ some after)
drop_loses_outputs_example =
    drop_loses_outputs env 7 2 1 world ben room after (frame 0 ∷ frame 1 ∷ frame 2 ∷ []) found.0
      found.1 drop_second refl not_found

ready_blocked_example : handle_ready_to_play_signal (0 ∷ []) 2 world ≡ note_ready 2 room world
ready_blocked_example =
    ready_blocked (0 ∷ []) 2 1 7 world ben room (λ e. cc) found.0 refl refl found.1 refl not_found

-- The player that left is not reached.
broadcast_targets_example :
    Sends world
      (broadcast_packet 7 (65 ∷ 0 ∷ []) world)
      (mail 2 7 (65 ∷ 0 ∷ []) ∷ mail 3 7 (65 ∷ 0 ∷ []) ∷ [])
    × ToGame 7 7 (65 ∷ 0 ∷ []) world (some room) (broadcast_packet_to_game 7 7 (65 ∷ 0 ∷ []) world)
unfolding get_client get_game get_all_client_addrs lookup
broadcast_targets_example = broadcast_targets 7 (65 ∷ 0 ∷ []) 7 world

not_owner : room.owner_user_id ≢ ben.user_id
not_owner e = omega arith

non_owner_refused_example :
    (handle_kick_user env (0 ∷ 3 ∷ 0 ∷ []) 2 world ≡ (ok tt, world))
    × ((is_live room ≡ true) ⊎ (handle_start_game env (0 ∷ 3 ∷ 0 ∷ []) 2 world ≡ (ok tt, world)))
non_owner_refused_example =
    non_owner_refused env (0 ∷ 3 ∷ 0 ∷ []) 2 7 world ben room found.0 refl found.1 not_owner

-- A client that acknowledged 65535 times.
abbrev busy : ClientInfo
busy = record ben { ack_count = 65535 }

abbrev busy_world : World
busy_world = record world { app = add_client world.app 2 busy }

busy_found : get_client busy_world.app 2 ≡ some busy
unfolding get_client add_client lookup insert
busy_found = refl

ack_bound_example :
    let r = handle_client_to_server_ack env 2 busy_world in
    ((busy.ack_count < 65535) × Returns r.0)
    ⊎ ((busy.ack_count ≡ 65535) × (r.0 ≡ panics) × IsWrapped env 2 0 busy r.1)
ack_bound_example = ack_bound env 2 0 busy_world busy busy_found refl (omega arith)

-- Ben alone in a waiting room that it owns kicks itself.
abbrev own_room : GameInfo
own_room = new_room 7 (77 ∷ []) [] (new_player 2 (66 ∷ []) 2 1)

abbrev own_world : World
own_world = record world { app = record world.app { games = (7, own_room) ∷ [] } }

own_found :
    (get_game own_world.app 7 ≡ some own_room)
    × (kick_target own_world.app (get_u16_le (read_string_bytes (0 ∷ 2 ∷ 0 ∷ [])).1)
        ≡ some (2, ben))
unfolding get_game lookup kick_target read_string_bytes
own_found = (refl, refl)

self_id_read : 2 ≤ length (read_string_bytes (0 ∷ 2 ∷ 0 ∷ [])).1
unfolding read_string_bytes
self_id_read = omega arith

kick_alone_example :
    let r = handle_kick_user env (0 ∷ 2 ∷ 0 ∷ []) 2 own_world in
    Returns r.0 × (get_game r.1.app 7 ≡ some (emptied own_room))
unfolding get_client
kick_alone_example =
    kick_alone env (0 ∷ 2 ∷ 0 ∷ []) 2 7 own_world ben own_room (new_player 2 (66 ∷ []) 2 1)
      self_id_read found.0 refl own_found.0 refl refl refl refl own_found.1
