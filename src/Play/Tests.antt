-- ===== src/Play/Tests.antt =====
-- Inputs of src/handlers/sync.rs on concrete rooms.
use direlera_rs.Prelude.{
  ℕ, zero, suc, ◌≡◌, refl, none, some, [], ◌∷◌, ◌++◌, arith, inl, ◌⊎◌, true, nat_eq,
}
use direlera_rs.Sync.Outcome.{ok}
use direlera_rs.Sync.Core
use direlera_rs.Sync.Core.Invariant.{AllPositive}
use direlera_rs.Sync.Cached.{ClientInput}
use direlera_rs.Sync.Cached
use direlera_rs.Sync.Cached.Calls
use direlera_rs.Sync.Delayed.{DelayedGameSync, fresh, all_players_dropped}
use direlera_rs.Sync.Delayed.History.{new-IsValid}
use direlera_rs.Packet.{build_game_data_packet, build_game_cache_packet}
use direlera_rs.Room.{GamePlayerInfo, GameInfo, new_player, new_room}
use direlera_rs.Room.Players.{has_left}
use direlera_rs.Room.Invariant.{flag, Live, IsRoom}
use direlera_rs.Play.{
  game_data_payload, game_cache_payload, Processed, process_input, handle_game_data, ignored,
}
use direlera_rs.Play.Payload.{payload-build}
use direlera_rs.Play.Answers.{Answered, process_input-Answered}
use direlera_rs.State

abbrev host : GamePlayerInfo
host = new_player 1 (72 ∷ []) 10 1

abbrev engine : DelayedGameSync
engine = fresh (Cached.new (1 ∷ [])) (6 ∷ [])

abbrev room : GameInfo
room = record (new_room 7 (77 ∷ []) [] host) { game_status = 1; sync_manager = some engine }

one-AllPositive : AllPositive (1 ∷ [])
one-AllPositive zero h = omega arith
one-AllPositive (suc j) h = absurd (omega arith)

engine-Live : Live 1 (host ∷ []) none engine
unfolding Cached.new Core.new all_players_dropped Core.all_players_dropped
engine-Live = record {
  playing = refl;
  valid =
      new-IsValid (Cached.new (1 ∷ [])) (6 ∷ []) (Calls.new-IsValid (1 ∷ []) one-AllPositive) refl;
  slots = refl;
  left = left;
  going = refl;
}
  where
    left : (j : ℕ) → has_left (host ∷ []) j ≡ true → (flag engine j ≡ true) ⊎ (none ≡ some j)
    left zero h = cc
    left (suc j) h = cc

room-IsRoom : IsRoom room
room-IsRoom = record {
  counted = refl;
  fits = omega arith;
  small = omega arith;
  positive = (omega arith, tt);
  owner = inl refl;
  mode = engine-Live;
}

-- A payload that is too short is ignored.
short_ignored : handle_game_data State.new 1 (0 ∷ 4 ∷ []) ≡ ok (ignored, State.new)
unfolding handle_game_data game_data_payload
short_ignored = refl

payload-build_example :
    (game_data_payload (build_game_data_packet (1 ∷ 2 ∷ []) ++ (9 ∷ [])) ≡ some (1 ∷ 2 ∷ []))
    × (game_cache_payload (build_game_cache_packet 5 ++ (9 ∷ [])) ≡ some 5)
payload-build_example = payload-build (1 ∷ 2 ∷ []) (9 ∷ []) 5 (omega arith)

process_input-Answered_example :
    (r : Processed × GameInfo) × (process_input room 0 (ClientInput.game_data (4 ∷ [])) ≡ ok r)
    × IsRoom r.1
    × Answered room.players engine 0 (ClientInput.game_data (4 ∷ [])) r.0
process_input-Answered_example =
    process_input-Answered room 1 0 (ClientInput.game_data (4 ∷ [])) engine room-IsRoom refl refl
