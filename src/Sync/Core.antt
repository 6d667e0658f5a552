-- ===== src/Sync/Core.antt =====
-- `SimplestGameSync` of src/simplest_game_sync.rs. Lists stand for `Vec` and `VecDeque`, the front
-- first. Player indices that pass the check against `player_input` are in range of the other
-- vectors too (`IsValid`), so the defaults of `get_or` are never read.
mod Chunks
pub mod Accept
pub mod Invariant
pub mod Flush
pub mod FlushAll
pub mod Rounds
pub mod Stream
pub mod Total
pub mod Ids
pub mod History
mod Tests
use direlera_rs.Prelude.{
  ℕ, zero, suc, ◌+◌, ◌*◌, ◌/◌, Bool, true, false, not, ◌&&◌, ◌||◌, List, [], ◌∷◌, ◌++◌, Bytes,
  length, get_or, set, take, drop, replicate, concat, map, leb, ltb, ◌==◌, if◌then◌else◌,
}
use direlera_rs.Sync.Outcome.{GameSyncError, invalid_player_id, Outcome, ok, err, loops, ◌>>=◌}

abbrev pub OneInput : Type 0
OneInput = Bytes

pub record SimplestGameSync : Type 0 where
  pub player_input : List (List OneInput)
  pub sender_buffer : List (List OneInput)
  pub player_delays : List ℕ
  pub dropped_players : List Bool
  pub game_data_size : ℕ

pub record PlayerOutput : Type 0 where
  pub player_id : ℕ
  pub output : Bytes

unfoldable pub new : List ℕ → SimplestGameSync
new player_delays = record {
  player_input = replicate (length player_delays) [];
  sender_buffer = replicate (length player_delays) [];
  player_delays = player_delays;
  dropped_players = replicate (length player_delays) false;
  game_data_size = 0;
}

abbrev pub is_nil {ℓ} : {A : Type ℓ} → List A → Bool
is_nil [] = true
is_nil (x ∷ xs) = false

-- `<[u8]>::chunks`, on as much fuel as there are bytes: a chunk is not empty.
chunks_from : ℕ → ℕ → Bytes → List Bytes
chunks_from zero size xs = []
chunks_from (suc f) size [] = []
chunks_from (suc f) size (x ∷ xs) = take size (x ∷ xs) ∷ chunks_from f size (drop size (x ∷ xs))

unfoldable pub chunks : ℕ → Bytes → List Bytes
unfolding chunks_from
chunks size xs = chunks_from (length xs) size xs

-- The queue of player `i`, and its update.
abbrev pub queue : List (List OneInput) → ℕ → List OneInput
queue qs i = get_or qs i []

push_chunks : SimplestGameSync → ℕ → ℕ → Bytes → SimplestGameSync
push_chunks s player_id chunk_size input = record s {
  player_input =
      set s.player_input player_id (queue s.player_input player_id ++ chunks chunk_size input);
  game_data_size = if s.game_data_size == 0 then chunk_size else s.game_data_size;
}

-- The part of `process_client_input` that splits an input and queues its chunks.
unfoldable pub queue_input : SimplestGameSync → ℕ → Bytes → SimplestGameSync
unfolding push_chunks
queue_input s player_id input =
    let delay = get_or s.player_delays player_id 0 in
    if ltb 0 delay && not (is_nil input)
    then (if ltb 0 (length input / delay)
        then push_chunks s player_id (length input / delay) input
        else s)
    else s

-- The condition of the outer loop: every live player has an input, and there is some input.
abbrev pub all_ready : ℕ → List Bool → List (List OneInput) → Bool
all_ready i dropped [] = true
all_ready i dropped (q ∷ qs) =
    (not (is_nil q) || get_or dropped i false) && all_ready (suc i) dropped qs

abbrev pub any_input : List (List OneInput) → Bool
any_input [] = false
any_input (q ∷ qs) = not (is_nil q) || any_input qs

unfoldable pub ready : SimplestGameSync → Bool
ready s = all_ready 0 s.dropped_players s.player_input && any_input s.player_input

-- What one queue gives to a round: its front, or zeros for a dropped player.
abbrev pub pop_or_zeros : Bool → ℕ → List OneInput → List OneInput
pop_or_zeros dropped size (x ∷ q) = x ∷ []
pop_or_zeros true size [] = replicate size 0 ∷ []
pop_or_zeros false size [] = []

abbrev pub extract_inputs : ℕ → List Bool → ℕ → List (List OneInput) → List OneInput
extract_inputs i dropped size [] = []
extract_inputs i dropped size (q ∷ qs) =
    pop_or_zeros (get_or dropped i false) size q ++ extract_inputs (suc i) dropped size qs

-- `while buffer.len() >= require_len`: it loops for ever where `require_len` is 0.
unfoldable pub flush : ℕ → ℕ → ℕ → List OneInput → Outcome (List PlayerOutput × List OneInput)
flush zero require_len pid buffer = loops
flush (suc f) require_len pid buffer =
    let rest = flush f require_len pid (drop require_len buffer) in
    if leb require_len (length buffer)
    then (rest >>= λ r.
        ok (record { player_id = pid; output = concat (take require_len buffer) } ∷ r.0, r.1))
    else ok ([], buffer)

-- The loop over `sender_buffer`, from player `pid` on.
unfoldable pub flush_all :
    ℕ → List ℕ → ℕ → List (List OneInput) → Outcome (List PlayerOutput × List (List OneInput))
flush_all pid delays players [] = ok ([], [])
flush_all pid delays players (b ∷ bs) =
    flush (suc (length b)) (get_or delays pid 0 * players) pid b >>= λ r.
    flush_all (suc pid) delays players bs >>= λ rs. ok (r.0 ++ rs.0, r.1 ∷ rs.1)

abbrev pub extend_all : List OneInput → List (List OneInput) → List (List OneInput)
extend_all frames = map (λ b. b ++ frames)

-- The body of the outer loop.
unfoldable pub round : SimplestGameSync → Outcome (List PlayerOutput × SimplestGameSync)
round s =
    flush_all 0 s.player_delays (length s.player_delays) (
      extend_all (extract_inputs 0 s.dropped_players s.game_data_size s.player_input)
        s.sender_buffer)
    >>= λ r. ok (r.0, record s { player_input = map (drop 1) s.player_input; sender_buffer = r.1 })

unfoldable pub drain : ℕ → SimplestGameSync → Outcome (List PlayerOutput × SimplestGameSync)
drain zero s = loops
drain (suc f) s = elim (ready s) [
  | false ↦ ok ([], s)
  | true ↦ round s >>= λ r. drain f r.1 >>= λ rs. ok (r.0 ++ rs.0, rs.1)
]

abbrev pub total_inputs : List (List OneInput) → ℕ
total_inputs [] = 0
total_inputs (q ∷ qs) = length q + total_inputs qs

-- Each round takes an input away, so the number of inputs bounds the rounds.
unfoldable pub drain_ready_inputs :
    SimplestGameSync → Outcome (List PlayerOutput × SimplestGameSync)
drain_ready_inputs s = drain (suc (total_inputs s.player_input)) s

unfoldable pub process_client_input :
    SimplestGameSync → ℕ → Bytes → Outcome (List PlayerOutput × SimplestGameSync)
process_client_input s player_id input =
    if leb (length s.player_input) player_id
    then err (invalid_player_id player_id (length s.player_input))
    else (if get_or s.dropped_players player_id false
        then ok ([], s)
        else drain_ready_inputs (queue_input s player_id input))

unfoldable pub mark_player_dropped :
    SimplestGameSync → ℕ → Outcome (List PlayerOutput × SimplestGameSync)
mark_player_dropped s player_id =
    if leb (length s.dropped_players) player_id
    then err (invalid_player_id player_id (length s.dropped_players))
    else drain_ready_inputs (record s { dropped_players = set s.dropped_players player_id true })

unfoldable pub is_player_dropped : SimplestGameSync → ℕ → Bool
is_player_dropped s player_id =
    ltb player_id (length s.dropped_players) && get_or s.dropped_players player_id false

abbrev pub all_true : List Bool → Bool
all_true [] = true
all_true (b ∷ bs) = b && all_true bs

unfoldable pub all_players_dropped : SimplestGameSync → Bool
all_players_dropped s = all_true s.dropped_players
