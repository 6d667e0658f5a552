-- ===== src/Room/Live.antt =====
-- What the start, the drop of a player and the end of a game do to a room: `handle_start_game` and
-- `execute_drop_game` of src/handlers/game.rs under the lock, and the quit and the kick with them.
use Prim.Native.Nat.{max}
use direlera_rs.Prelude.{
  ℕ, ◌+◌, ◌-◌, ◌%◌, Bool, true, false, Option, none, some, List, [], ◌∷◌, length, map, replicate,
  ◌==◌, if◌then◌else◌,
}
use direlera_rs.Sync.Outcome.{Outcome, ok, err, loops, ◌>>=◌}
use direlera_rs.Sync.Cached.{CachedPlayerOutput}
use direlera_rs.Sync.Cached
use direlera_rs.Sync.Delayed.{DelayedGameSync, with_player_delays, all_players_dropped}
use direlera_rs.Sync.Delayed
use direlera_rs.Room.{
  GamePlayerInfo, game_status_waiting, game_status_playing, GameInfo, position, in_room,
  migrate_owner_if_needed, QuitOutcome, playing, waiting_open, waiting_closed, quit_room,
}

abbrev emulinker_startup_warmup_frames : ℕ → ℕ → ℕ
emulinker_startup_warmup_frames highest_delay player_delay =
    highest_delay + (highest_delay - player_delay) + 5

-- The largest of a list, `max().unwrap_or(1)`.
abbrev pub max_of : List ℕ → ℕ
max_of [] = 1
max_of (n ∷ []) = n
max_of (n ∷ m ∷ ns) = max n (max_of (m ∷ ns))

-- The startup frames of each player: none or the fixed delay, or by the delays in `frame_delays`,
-- which the code computes from the pings.
unfoldable pub startup_warmups : Option ℕ → List ℕ → List ℕ
startup_warmups (some d) frame_delays = replicate (length frame_delays) d
startup_warmups none frame_delays =
    map (emulinker_startup_warmup_frames (max_of frame_delays)) frame_delays

-- A start: those who left are taken out, and the engine gets a slot for each player; `none` is the
-- panic of the engine's assertion.
abbrev pub compacted : GameInfo → GameInfo
compacted g = record g {
  players = in_room g.players;
  num_players = length (in_room g.players) % 256;
}

abbrev pub with_sync : GameInfo → Option DelayedGameSync → Option GameInfo
with_sync g none = none
with_sync g (some d) = some (record g { game_status = game_status_playing; sync_manager = some d })

unfoldable pub start_room : Bool → Option ℕ → (GamePlayerInfo → ℕ) → GameInfo → Option GameInfo
unfolding startup_warmups
start_room disable_output_cache fixed_game_delay frame_delay g =
    let ps = in_room g.players in
    with_sync (compacted g) (
      with_player_delays
        (Cached.with_output_cache_disabled
          (Cached.new (map (λ (p : GamePlayerInfo). p.conn_type) ps)) disable_output_cache)
        (startup_warmups fixed_game_delay (map frame_delay ps)))

-- The end of a game: those who left are purged.
unfoldable pub end_game : GameInfo → GameInfo
unfolding migrate_owner_if_needed
end_game g =
    (migrate_owner_if_needed
      (record (compacted g) { game_status = game_status_waiting; sync_manager = none })).1

pub data DropOutcome : Type 0 where
  ignored sync_manager_not_found : DropOutcome
  dropped : List CachedPlayerOutput → Bool → DropOutcome

abbrev pub after_drop :
    GameInfo → List CachedPlayerOutput → DelayedGameSync → Outcome (DropOutcome × GameInfo)
after_drop g outputs d =
    let g' = record g { sync_manager = some d } in
    if all_players_dropped d
    then ok (dropped outputs true, end_game g')
    else ok (dropped outputs false, g')

abbrev pub drop_slot :
    GameInfo → Option ℕ → Option DelayedGameSync → Outcome (DropOutcome × GameInfo)
drop_slot g none d = ok (ignored, g)
drop_slot g (some slot) none = ok (sync_manager_not_found, g)
drop_slot g (some slot) (some d) =
    Delayed.mark_player_dropped d slot >>= λ (outputs, d'). after_drop g outputs d'

-- What `execute_drop_game` does under the room's lock; the flag tells whether the game ended.
unfoldable pub execute_drop_game : GameInfo → ℕ → Outcome (DropOutcome × GameInfo)
unfolding end_game
execute_drop_game g addr =
    if g.game_status == game_status_playing
    then drop_slot g (position addr g.players) g.sync_manager
    else ok (ignored, g)

-- `let _ = execute_drop_game(..)`: a refusal is ignored, and left the room as it was.
abbrev pub room_after : GameInfo → Outcome (DropOutcome × GameInfo) → Outcome GameInfo
room_after g (ok r) = ok r.1
room_after g (err e) = ok g
room_after g loops = loops

-- A quit, with the drop that follows it in a live game.
abbrev pub then_drop : QuitOutcome → GameInfo → ℕ → Outcome GameInfo
then_drop playing g addr = room_after g (execute_drop_game g addr)
then_drop waiting_open g addr = ok g
then_drop waiting_closed g addr = ok g

unfoldable pub quit_game : GameInfo → ℕ → Outcome GameInfo
unfolding quit_room execute_drop_game
quit_game g addr = let (r, g') = quit_room g addr in then_drop r.0 g' addr
