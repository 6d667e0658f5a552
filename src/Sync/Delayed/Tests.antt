-- ===== src/Sync/Delayed/Tests.antt =====
-- `DelayedGameSync` of src/simplest_game_sync.rs on concrete inputs.
use direlera_rs.Prelude.{ℕ, zero, suc, ◌≡◌, refl, List, [], ◌∷◌, Bytes, arith}
use direlera_rs.Sync.Outcome.{ok}
use direlera_rs.Sync.Core.{PlayerOutput}
use direlera_rs.Sync.Core
use direlera_rs.Sync.Core.Invariant.{AllPositive}
use direlera_rs.Sync.Cached.{CachedGameSync, CachedPlayerOutput, ClientInput}
use direlera_rs.Sync.Cached
use direlera_rs.Sync.Cached.Calls
use direlera_rs.Sync.Delayed.{DelayedGameSync, process_client_input}
use direlera_rs.Sync.Delayed.Calls.{IsValid}
use direlera_rs.Sync.Delayed.Startup.{due}
use direlera_rs.Sync.Delayed.Total.{Ends, process_client_input-Ends}
use direlera_rs.Sync.Delayed.History.{
  Event, input, drop_player, run, start, new-IsValid, Lockstep, run-Lockstep,
}

abbrev one_delay : List ℕ
one_delay = 1 ∷ []

one_delay-AllPositive : AllPositive one_delay
one_delay-AllPositive zero h = omega arith
one_delay-AllPositive (suc j) h = absurd (omega arith)

abbrev startup : List ℕ
startup = 2 ∷ []

abbrev game : List Event
game =
    input 0 (ClientInput.game_data (1 ∷ []))
    ∷ input 0 (ClientInput.game_data (2 ∷ []))
    ∷ input 0 (ClientInput.game_cache 0)
    ∷ drop_player 0
    ∷ []

run-Lockstep_example :
    (r : List CachedPlayerOutput × DelayedGameSync) × (zs es os : List PlayerOutput)
    × (stream : Bytes) × (run (start one_delay startup) game ≡ ok r)
    × Lockstep 1 startup r.0 r.1 zs es os stream
run-Lockstep_example = run-Lockstep one_delay startup game one_delay-AllPositive refl

new_game-IsValid : IsValid (start one_delay startup)
unfolding Cached.new Core.new
new_game-IsValid =
    new-IsValid (Cached.new one_delay) startup (Calls.new-IsValid one_delay one_delay-AllPositive)
      refl

process_client_input-Ends_example :
    Ends
      (start one_delay startup)
      0
      (ClientInput.game_cache 7)
      (process_client_input (start one_delay startup) 0 (ClientInput.game_cache 7))
process_client_input-Ends_example =
    process_client_input-Ends (start one_delay startup) 0 (ClientInput.game_cache 7)
      new_game-IsValid

-- The player with two startup frames gave two inputs, and both are saved.
abbrev after_startup : DelayedGameSync
after_startup = record (start one_delay startup) {
  queues = ((1 ∷ []) ∷ (2 ∷ []) ∷ []) ∷ [];
  warmup_sent = 2 ∷ [];
}

-- The third input gives way to the first.
first_is_due : due 2 ((1 ∷ []) ∷ (2 ∷ []) ∷ []) (3 ∷ []) ≡ 1 ∷ []
first_is_due = refl
