-- ===== src/Sync/Cached/Tests.antt =====
-- `CachedGameSync` of src/simplest_game_sync.rs on concrete inputs.
use direlera_rs.Prelude.{
  ℕ, zero, suc, ◌<◌, ◌≡◌, refl, none, List, [], ◌∷◌, Bytes, arith, length, false, bytes_Eq, nat_eq,
}
use direlera_rs.Sync.Outcome.{ok}
use direlera_rs.Sync.Core.{PlayerOutput}
use direlera_rs.Sync.Core.Invariant.{AllPositive}
use direlera_rs.Sync.Cache.{empty, find, push}
use direlera_rs.Sync.Core
use direlera_rs.Sync.Cached.{
  CachedGameSync, ClientInput, ServerResponse, Reply, new, convert, process_client_input,
}
use direlera_rs.Sync.Cached.Coherence.{Converted, convert-Converted}
use direlera_rs.Sync.Cached.Calls.{IsValid, new-IsValid, Called, process_client_input-decoded}

abbrev one_delay : List ℕ
one_delay = 1 ∷ []

one_delay-AllPositive : AllPositive one_delay
one_delay-AllPositive zero h = omega arith
one_delay-AllPositive (suc j) h = absurd (omega arith)

new_game-IsValid : IsValid (new one_delay)
new_game-IsValid = new-IsValid one_delay one_delay-AllPositive

abbrev frames : List PlayerOutput
frames =
    record { player_id = 0; output = 1 ∷ [] }
    ∷ record { player_id = 0; output = 2 ∷ [] }
    ∷ record { player_id = 0; output = 1 ∷ [] }
    ∷ []

-- The third output repeats the first, at position 0.
convert-frames :
    (convert (new one_delay) false none frames).0.0
    ≡ record { player_id = 0; response = ServerResponse.game_data (1 ∷ []) }
      ∷ record { player_id = 0; response = ServerResponse.game_data (2 ∷ []) }
      ∷ record { player_id = 0; response = ServerResponse.game_cache 0 }
      ∷ []
unfolding convert new find empty push
convert-frames = refl

convert-Converted_example :
    Converted
      (new one_delay)
      frames
      (convert (new one_delay) false none frames).0.0
      (convert (new one_delay) false none frames).1
convert-Converted_example =
    convert-Converted (new one_delay) false none frames new_game-IsValid.output_valid
      new_game-IsValid.mode

in_range : 0 < length (new one_delay).sync.player_delays
unfolding new Core.new
in_range = omega arith

process_client_input-decoded_example :
    (r : Reply × CachedGameSync) × (raw : List PlayerOutput) × (added : Bytes)
    × (process_client_input (new one_delay) 0 (ClientInput.game_data (9 ∷ [])) ≡ ok r)
    × Called (new one_delay) raw added r.0.0 r.1
process_client_input-decoded_example =
    process_client_input-decoded (new one_delay) 0 (9 ∷ []) new_game-IsValid in_range
