-- ===== src/Room/Tests.antt =====
-- Rooms of src/handlers/game.rs on concrete inputs.
use direlera_rs.Prelude.{
  ◌≡◌, ◌≢◌, refl, false, none, some, [], ◌∷◌, arith, length, nat_eq, map, subst,
}
use direlera_rs.Sync.Outcome.{ok}
use direlera_rs.Sync.Cached
use direlera_rs.Sync.Delayed.{DelayedGameSync, fresh}
use direlera_rs.Room.{
  GamePlayerInfo, GameInfo, position, new_player, new_room, join_room, quit_room, kick_room,
  migrate_owner_if_needed, tombstone, game_status_playing,
}
use direlera_rs.Room.Live.{quit_game, execute_drop_game, DropOutcome, start_room, startup_warmups}
use direlera_rs.Room.Owner.{Migrated, migrate_owner-HasOwner}
use direlera_rs.Room.Invariant.{IsRoom, new_room-IsRoom}
use direlera_rs.Room.Leaving.{Joined, join_room-IsRoom, quit_and_kick_slots}
use direlera_rs.Room.Dropping.{just_left-IsRoomBut, execute_drop_game-IsRoom, quit_game-IsRoom}
use direlera_rs.Room.Starting.{start_room-IsRoom}

abbrev host : GamePlayerInfo
host = new_player 1 (72 ∷ []) 10 1

abbrev guest : GamePlayerInfo
guest = new_player 2 (71 ∷ []) 20 1

abbrev room : GameInfo
room = new_room 7 (77 ∷ []) [] host

room-IsRoom : IsRoom room
room-IsRoom = new_room-IsRoom 7 (77 ∷ []) [] host refl (omega arith)

room_not_empty : room.players ≢ []
room_not_empty e = cc

abbrev pair : GameInfo
pair = record room { num_players = 2; players = host ∷ guest ∷ [] }

joined : join_room room guest ≡ pair
unfolding join_room
joined = refl

-- The host quits, and the guest owns the room.
quit-pair :
    quit_game pair 1
    ≡ ok
        (record pair { owner = 71 ∷ []; owner_user_id = 20; num_players = 1; players = guest ∷ [] })
unfolding quit_game quit_room migrate_owner_if_needed
quit-pair = refl

abbrev live : GameInfo
live = record pair {
  game_status = 1;
  sync_manager = some (fresh (Cached.new (1 ∷ 1 ∷ [])) (6 ∷ 6 ∷ []));
}

pair-IsRoom : IsRoom pair
pair-IsRoom =
    subst IsRoom joined
      (join_room-IsRoom room guest room_not_empty refl (omega arith) room-IsRoom).0

pair_not_empty : pair.players ≢ []
pair_not_empty e = cc

join_room-IsRoom_example : IsRoom (join_room room guest) × Joined room guest (join_room room guest)
join_room-IsRoom_example = join_room-IsRoom room guest room_not_empty refl (omega arith) room-IsRoom

quit_game-IsRoom_example : (r : GameInfo) × (quit_game pair 1 ≡ ok r) × IsRoom r
quit_game-IsRoom_example = quit_game-IsRoom pair 1 pair-IsRoom

abbrev Started : Type 0
Started =
    (r : GameInfo) × (start_room false none (λ p. 2) pair ≡ some r)
    × (r.players ≡ pair.players)
    × IsRoom r
    × (r.game_status ≡ game_status_playing)
    × ((d : DelayedGameSync) × (r.sync_manager ≡ some d)
        × (d.inner.sync.player_delays ≡ map (λ (p : GamePlayerInfo). p.conn_type) pair.players)
        × (d.total_delays ≡ startup_warmups none (map (λ p. 2) pair.players)))

start_room-IsRoom_example : Started
start_room-IsRoom_example = start_room-IsRoom none (λ p. 2) pair refl pair_not_empty pair-IsRoom

abbrev started : Started
started = start_room-IsRoom none (λ p. 2) pair refl pair_not_empty pair-IsRoom

-- The host just left the game of the two, and is not dropped yet.
abbrev host_left : GameInfo
host_left = (migrate_owner_if_needed (tombstone started.0 1)).1

host_has_slot : position 1 host_left.players ≡ some 0
host_has_slot =
    let same = (migrate_owner-HasOwner (tombstone started.0 1)).players in rw (same, started.2) refl

execute_drop_game-IsRoom_example :
    (r : DropOutcome × GameInfo) × (execute_drop_game host_left 1 ≡ ok r) × IsRoom r.1
execute_drop_game-IsRoom_example =
    execute_drop_game-IsRoom host_left 1
      (just_left-IsRoomBut started.0 1 started.5.0 started.5.1 started.3)

quit_and_kick_slots_example :
    (position 2 (quit_room live 1).1.players ≡ some 1)
    × (length (quit_room live 1).1.players ≡ 2)
    × (position 2 (kick_room live 1).1.players ≡ some 1)
    × (length (kick_room live 1).1.players ≡ 2)
quit_and_kick_slots_example = quit_and_kick_slots live 1 2 refl

migrate_owner-HasOwner_example :
    Migrated
      (record pair { players = guest ∷ [] })
      (migrate_owner_if_needed (record pair { players = guest ∷ [] }))
migrate_owner-HasOwner_example = migrate_owner-HasOwner (record pair { players = guest ∷ [] })
