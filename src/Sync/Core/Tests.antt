-- ===== src/Sync/Core/Tests.antt =====
-- `SimplestGameSync` of src/simplest_game_sync.rs on concrete inputs.
use direlera_rs.Prelude.{
  ◌/◌, ℕ, zero, suc, ◌*◌, ◌<◌, ◌≡◌, refl, List, [], ◌∷◌, ◌++◌, Bytes, arith, length, get_or, concat,
  true, false,
}
use direlera_rs.Sync.Outcome.{ok, loops}
use direlera_rs.Sync.Core.{
  SimplestGameSync, PlayerOutput, queue, new, queue_input, ready, drain, drain_ready_inputs, chunks,
  round, flush_all, flush,
}
use direlera_rs.Sync.Core.Accept.{Queued, queue_input_lossless, queue_input_short}
use direlera_rs.Sync.Core.Invariant.{IsValid, AllPositive, new-IsValid, queue_input-IsValid}
use direlera_rs.Sync.Core.Flush.{output_of}
use direlera_rs.Sync.Core.Stream.{Drained}
use direlera_rs.Sync.Core.Total.{drain_ready_inputs-rounds, drain_loops}
use direlera_rs.Sync.Core.History.{Event, input, drop_player, run, run-streams}

abbrev two_delays : List ℕ
two_delays = 1 ∷ 2 ∷ []

two_delays-AllPositive : AllPositive two_delays
two_delays-AllPositive zero h = omega arith
two_delays-AllPositive (suc zero) h = omega arith
two_delays-AllPositive (suc (suc j)) h = absurd (omega arith)

abbrev started : SimplestGameSync
started = queue_input (queue_input (new two_delays) 0 (1 ∷ 2 ∷ [])) 1 (3 ∷ 4 ∷ 5 ∷ 6 ∷ [])

started-IsValid : IsValid started
started-IsValid =
    queue_input-IsValid (queue_input (new two_delays) 0 (1 ∷ 2 ∷ [])) 1 (3 ∷ 4 ∷ 5 ∷ 6 ∷ []) (
      queue_input-IsValid (new two_delays) 0 (1 ∷ 2 ∷ [])
        (new-IsValid two_delays two_delays-AllPositive))

drain-started :
    drain_ready_inputs started
    ≡ ok (
      record { player_id = 0; output = 1 ∷ 2 ∷ 3 ∷ 4 ∷ [] } ∷ [],
      record {
        player_input = [] ∷ ((5 ∷ 6 ∷ []) ∷ []) ∷ [];
        sender_buffer = [] ∷ ((1 ∷ 2 ∷ []) ∷ (3 ∷ 4 ∷ []) ∷ []) ∷ [];
        player_delays = two_delays;
        dropped_players = false ∷ false ∷ [];
        game_data_size = 2;
      },
    )
unfolding drain_ready_inputs queue_input new drain ready chunks round flush_all flush
drain-started = refl

drain_ready_inputs-rounds_example :
    (r : List PlayerOutput × SimplestGameSync) × (k : ℕ) × (drain_ready_inputs started ≡ ok r)
    × Drained started k r
    × IsValid r.1
drain_ready_inputs-rounds_example = drain_ready_inputs-rounds started started-IsValid

-- One player, with delay 0 and a frame.
abbrev no_delay : SimplestGameSync
no_delay = record (new (0 ∷ [])) { player_input = ((1 ∷ []) ∷ []) ∷ [] }

no_delay-ready : ready no_delay ≡ true
unfolding ready new
no_delay-ready = refl

no_delay_in_range : 0 < length no_delay.sender_buffer
unfolding new
no_delay_in_range = omega arith

no_delay_zero : get_or no_delay.player_delays 0 0 ≡ 0
unfolding new
no_delay_zero = refl

drain_loops_example : drain 7 no_delay ≡ loops
drain_loops_example = drain_loops 7 no_delay 0 no_delay_in_range no_delay_zero no_delay-ready

started_has_two : 1 < length started.player_input
unfolding queue_input new
started_has_two = omega arith

started_delay : get_or started.player_delays 1 0 ≡ 2
unfolding queue_input new
started_delay = refl

queue_input_lossless_example :
    Queued started 1
      (2 / get_or started.player_delays 1 0)
      (7 ∷ 8 ∷ [])
      (queue_input started 1 (7 ∷ 8 ∷ []))
queue_input_lossless_example =
    queue_input_lossless started 1 (7 ∷ 8 ∷ []) started_has_two (omega (arith, started_delay))
      (omega (arith, started_delay))

queue_input_short_example : queue_input started 1 (7 ∷ []) ≡ started
queue_input_short_example = queue_input_short started 1 (7 ∷ []) (omega (arith, started_delay))

abbrev game : List Event
game = input 0 (1 ∷ 2 ∷ []) ∷ input 1 (3 ∷ 4 ∷ 5 ∷ 6 ∷ []) ∷ drop_player 0 ∷ input 5 [] ∷ []

run-streams_example :
    (r : List PlayerOutput × SimplestGameSync) × (stream : Bytes) × (run (new two_delays) game
      ≡ ok r)
    × ((p : ℕ)
        → p < 2
        → (output_of p r.0 ++ concat (queue r.1.sender_buffer p) ≡ stream)
          × (length (queue r.1.sender_buffer p) < get_or two_delays p 0 * 2))
run-streams_example = run-streams two_delays game two_delays-AllPositive
