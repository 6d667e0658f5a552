-- ===== src/Sync/Core/Invariant.antt =====
-- The invariant of `SimplestGameSync`: the vectors have one entry for each player, and no buffer
-- holds a whole output.
use direlera_rs.Prelude.{
  ℕ, ◌*◌, ◌/◌, ◌<◌, ◌≡◌, List, [], Bytes, arith, length, get_or, set, ◌∙◌, length-replicate,
  get_or-replicate, length-set, true, false,
}
use direlera_rs.Sync.Core.{SimplestGameSync, OneInput, new, queue, queue_input, push_chunks}

pub record IsValid (s : SimplestGameSync) : Type 0 where
  pub inputs : length s.player_input ≡ length s.player_delays
  pub buffers : length s.sender_buffer ≡ length s.player_delays
  pub drops : length s.dropped_players ≡ length s.player_delays
  pub positive : (j : ℕ) → j < length s.player_delays → 0 < get_or s.player_delays j 0
  pub short :
      (j : ℕ)
      → j < length s.player_delays
      → length (queue s.sender_buffer j) < get_or s.player_delays j 0 * length s.player_delays

abbrev pub AllPositive : List ℕ → Type 0
AllPositive delays = (j : ℕ) → j < length delays → 0 < get_or delays j 0

pub new-IsValid : (delays : List ℕ) → AllPositive delays → IsValid (new delays)
unfolding new
new-IsValid delays h = record {
  inputs = length-replicate (length delays) [];
  buffers = length-replicate (length delays) [];
  drops = length-replicate (length delays) false;
  positive = h;
  short = λ j k.
      rw (get_or-replicate {A = List OneInput} (length delays) j []) (let p = h j k in grind arith);
}

-- Marking a player as dropped keeps the invariant.
pub drop-IsValid :
    (s : SimplestGameSync) (i : ℕ)
    → IsValid s
    → IsValid (record s { dropped_players = set s.dropped_players i true })
drop-IsValid s i v = record {
  inputs = v.inputs;
  buffers = v.buffers;
  drops = length-set s.dropped_players i true ∙ v.drops;
  positive = v.positive;
  short = v.short;
}

push_chunks-IsValid :
    (s : SimplestGameSync) (i size : ℕ) (input : Bytes)
    → IsValid s
    → IsValid (push_chunks s i size input)
unfolding push_chunks
push_chunks-IsValid s i size input v = record {
  inputs = length-set s.player_input i _ ∙ v.inputs;
  buffers = v.buffers;
  drops = v.drops;
  positive = v.positive;
  short = v.short;
}

-- Queueing an input keeps the invariant, and touches neither buffers, delays nor drops.
pub queue_input-IsValid :
    (s : SimplestGameSync) (i : ℕ) (input : Bytes) → IsValid s → IsValid (queue_input s i input)
unfolding queue_input
queue_input-IsValid s i input v =
    ground (arith, push_chunks-IsValid s i (length input / get_or s.player_delays i 0) input v)

pub queue_input_keeps :
    (s : SimplestGameSync) (i : ℕ) (input : Bytes)
    → let t = queue_input s i input in
      (t.sender_buffer ≡ s.sender_buffer)
      × (t.player_delays ≡ s.player_delays)
      × (t.dropped_players ≡ s.dropped_players)
unfolding queue_input push_chunks
queue_input_keeps s i input = ground arith
