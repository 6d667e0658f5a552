-- ===== src/Room/Numbers.antt =====
-- What the operations of src/handlers/game.rs on a room leave as it was: its number, and in a game that
-- goes on its list of players.
use direlera_rs.Prelude.{
  ℕ, ◌≡◌, refl, false, Option, none, some, List, Bool-cases, Option-cases, inl, inr, ◌==◌,
}
use direlera_rs.Sync.Outcome.{Outcome, ok, err, loops, ◌>>=◌}
use direlera_rs.Sync.Delayed.{DelayedGameSync, all_players_dropped}
use direlera_rs.Sync.Delayed
use direlera_rs.Sync.Cached.{CachedPlayerOutput}
use direlera_rs.Room.{
  GameInfo, position, first_in_room, owner_present, migrate_owner_if_needed, game_status_waiting,
  game_status_playing,
}
use direlera_rs.Room.Live.{
  DropOutcome, ignored, sync_manager_not_found, dropped, end_game, execute_drop_game, after_drop,
  drop_slot, compacted,
}

pub game_id-migrate : (g : GameInfo) → (migrate_owner_if_needed g).1.game_id ≡ g.game_id
unfolding migrate_owner_if_needed
game_id-migrate g = elim (Bool-cases (owner_present g.owner_user_id g.players)) [
  | inl present ↦ rw present refl
  | inr gone ↦ elim (Option-cases (first_in_room g.players)) [
    | inl no_one ↦ rw (gone, no_one) refl
    | inr (p, first) ↦ rw (gone, first) refl
  ]
]

-- A drop that is ignored changes nothing; the end of a game keeps the number, and a game that goes on
-- keeps the players too.
abbrev pub Dropped : GameInfo → DropOutcome → GameInfo → Type 0
Dropped g ignored g' = g' ≡ g
Dropped g sync_manager_not_found g' = g' ≡ g
Dropped g (dropped outputs all) g' =
    (g'.game_id ≡ g.game_id) × (all ≡ false → g'.players ≡ g.players)

abbrev Kept : GameInfo → Outcome (DropOutcome × GameInfo) → Type 0
Kept g (ok r) = Dropped g r.0 r.1
Kept g (err e) = Unit
Kept g loops = Unit

after_drop-Kept :
    (g : GameInfo) (outputs : List CachedPlayerOutput) (d : DelayedGameSync)
    → Kept g (after_drop g outputs d)
unfolding end_game
after_drop-Kept g outputs d = elim (Bool-cases (all_players_dropped d)) [
  | inl all ↦ rw all (
    game_id-migrate (record (compacted (record g { sync_manager = some d })) {
      game_status = game_status_waiting;
      sync_manager = none;
    }),
    (λ z. cc),
  )
  | inr going ↦ rw going (refl, (λ z. refl))
]

drop_slot-Kept :
    (g : GameInfo) (o : Option ℕ) (s : Option DelayedGameSync) → Kept g (drop_slot g o s)
drop_slot-Kept g none s = refl
drop_slot-Kept g (some slot) none = refl
drop_slot-Kept g (some slot) (some d) = at (Delayed.mark_player_dropped d slot)
  where
    at :
        (o : Outcome (List CachedPlayerOutput × DelayedGameSync))
        → Kept g (o >>= λ (outputs, d'). after_drop g outputs d')
    at (ok r) = after_drop-Kept g r.0 r.1
    at (err e) = tt
    at loops = tt

execute_drop_game-Kept : (g : GameInfo) (addr : ℕ) → Kept g (execute_drop_game g addr)
unfolding execute_drop_game
execute_drop_game-Kept g addr = elim (Bool-cases (g.game_status == game_status_playing)) [
  | inl on ↦ rw on (drop_slot-Kept g (position addr g.players) g.sync_manager)
  | inr off ↦ rw off refl
]

pub execute_drop_game-Dropped :
    (g : GameInfo) (addr : ℕ) (r : DropOutcome × GameInfo)
    → execute_drop_game g addr ≡ ok r
    → Dropped g r.0 r.1
execute_drop_game-Dropped g addr r e = rw e at (execute_drop_game-Kept g addr)
