-- ===== src/Sync/Core/Accept.antt =====
-- What `process_client_input` of `SimplestGameSync` does with an input before the drain.
use direlera_rs.Prelude.{
  ℕ, ◌/◌, ◌≤◌, ◌<◌, ◌≡◌, ◌≢◌, true, List, [], ◌∷◌, ◌++◌, Bytes, arith, length, get_or, concat, ltb,
  get_or-set_self, get_or-set_ne,
}
use direlera_rs.Sync.Core.{SimplestGameSync, queue, queue_input, push_chunks, chunks}
use direlera_rs.Sync.Core.Chunks.{IsSplit, chunks-IsSplit, concat-chunks}

div_pos : (n d : ℕ) → 0 < d → d ≤ n → 0 < n / d
div_pos n d h k = grind arith

-- An input in the queue of player `i`, in chunks of the given size, and all other queues as before.
abbrev pub Queued : SimplestGameSync → ℕ → ℕ → Bytes → SimplestGameSync → Type 0
Queued s i size input t =
    ((cs : List Bytes) × (queue t.player_input i ≡ queue s.player_input i ++ cs)
      × (concat cs ≡ input)
      × IsSplit size cs)
    × ((j : ℕ) → i ≢ j → queue t.player_input j ≡ queue s.player_input j)

push_chunks-Queued :
    (s : SimplestGameSync) (i size : ℕ) (input : Bytes)
    → i < length s.player_input
    → 0 < size
    → Queued s i size input (push_chunks s i size input)
unfolding push_chunks
push_chunks-Queued s i size input h k = (
  (
    chunks size input,
    get_or-set_self s.player_input i (queue s.player_input i ++ chunks size input) [] h,
    concat-chunks size input k,
    chunks-IsSplit size input k,
  ),
  λ j ne. get_or-set_ne s.player_input i j (queue s.player_input i ++ chunks size input) [] ne,
)

-- An input of at least as many bytes as the player's delay, where the player is in range and the delay is
-- positive, is appended to that player's queue without losing or reordering a byte, in chunks of
-- (bytes / delay) bytes, of which only the last may be shorter; no other queue changes.
pub queue_input_lossless :
    (s : SimplestGameSync) (i : ℕ) (input : Bytes)
    → i < length s.player_input
    → 0 < get_or s.player_delays i 0
    → get_or s.player_delays i 0 ≤ length input
    → Queued s i (length input / get_or s.player_delays i 0) input (queue_input s i input)
unfolding queue_input
queue_input_lossless s i [] h d k = absurd (omega arith)
queue_input_lossless s i (b ∷ bs) h d k =
    let delay = get_or s.player_delays i 0 in
    let size = div_pos (length (b ∷ bs)) delay d k in
    let t₁ : ltb 0 delay ≡ true = ground arith in
    let t₂ : ltb 0 (length (b ∷ bs) / delay) ≡ true = ground arith in
    rw (t₁, t₂) (push_chunks-Queued s i (length (b ∷ bs) / delay) (b ∷ bs) h size)

div_small : (n d : ℕ) → n < d → n / d ≡ 0
div_small n d h = grind arith

-- A shorter input is ignored: the state does not change.
pub queue_input_short :
    (s : SimplestGameSync) (i : ℕ) (input : Bytes)
    → length input < get_or s.player_delays i 0
    → queue_input s i input ≡ s
unfolding queue_input
queue_input_short s i input h =
    rw (div_small (length input) (get_or s.player_delays i 0) h) (ground arith)
