-- ===== src/Sync/Core/Total.antt =====
-- Whether `drain_ready_inputs` of `SimplestGameSync` returns.
use direlera_rs.Prelude.{
  ℕ, zero, suc, ◌<◌, ◌≡◌, refl, true, false, List, [], ◌++◌, arith, length, get_or, Bool-cases, inl,
  inr, length-map, leb, set,
}
use direlera_rs.Sync.Outcome.{ok, loops}
use direlera_rs.Sync.Core.Stream.{Drained, drain_ready_inputs-Drained}
use direlera_rs.Sync.Core.{
  SimplestGameSync, PlayerOutput, ready, round, drain, drain_ready_inputs, total_inputs, any_input,
  process_client_input, mark_player_dropped, queue_input, extend_all, extract_inputs,
}
use direlera_rs.Sync.Core.Invariant.{IsValid, queue_input-IsValid, drop-IsValid}
use direlera_rs.Sync.Core.FlushAll.{flush_all-loops}
use direlera_rs.Sync.Core.Rounds.{round-Advanced, round-total, Advanced-IsValid, total_inputs-drop}

ready→any_input : (s : SimplestGameSync) → ready s ≡ true → any_input s.player_input ≡ true
unfolding ready
ready→any_input s h = ground arith

drain-total :
    (f : ℕ) (s : SimplestGameSync)
    → IsValid s
    → total_inputs s.player_input < f
    → (r : List PlayerOutput × SimplestGameSync) × (drain f s ≡ ok r) × IsValid r.1
unfolding drain
drain-total zero s v h = absurd (omega arith)
drain-total (suc f) s v h = elim (Bool-cases (ready s)) [
  | inr stop ↦ (([], s), rw (stop, drain), v)
  | inl go ↦
      let (a, p) = round-total s v in
      let w = round-Advanced s a go p in
      let less = total_inputs-drop s.player_input (ready→any_input s go) in
      let (b, q, u) =
        drain-total f a.1 (Advanced-IsValid s a v w) (rw w.inputs (omega (arith, less))) in
      ((a.0 ++ b.0, b.1), rw (go, drain) (rw (p, q) refl), u)
]

-- In a valid state the drain returns outputs and a valid state: the fuel, one more than the
-- number of queued inputs, is enough.
pub drain_ready_inputs-total :
    (s : SimplestGameSync)
    → IsValid s
    → (r : List PlayerOutput × SimplestGameSync) × (drain_ready_inputs s ≡ ok r) × IsValid r.1
unfolding drain_ready_inputs
drain_ready_inputs-total s v = drain-total (suc (total_inputs s.player_input)) s v (omega arith)

-- An input of a player in range returns, and leaves a valid state.
pub process_client_input-total :
    (s : SimplestGameSync) (i : ℕ) (input : List ℕ)
    → IsValid s
    → i < length s.player_delays
    → (r : List PlayerOutput × SimplestGameSync) × (process_client_input s i input ≡ ok r)
      × IsValid r.1
unfolding process_client_input
process_client_input-total s i input v h =
    let in_range : leb (length s.player_input) i ≡ false = ground (arith, v.inputs) in
    rw in_range (elim (Bool-cases (get_or s.dropped_players i false)) [
      | inl gone ↦ (([], s), rw gone, v)
      | inr live ↦
          let (r, e, w) =
            drain_ready_inputs-total (queue_input s i input) (queue_input-IsValid s i input v) in
          (r, rw live e, w)
    ])

-- So does the drop of a player in range.
pub mark_player_dropped-total :
    (s : SimplestGameSync) (i : ℕ)
    → IsValid s
    → i < length s.player_delays
    → (r : List PlayerOutput × SimplestGameSync) × (mark_player_dropped s i ≡ ok r) × IsValid r.1
unfolding mark_player_dropped
mark_player_dropped-total s i v h =
    let in_range : leb (length s.dropped_players) i ≡ false = ground (arith, v.drops) in
    rw in_range (
      drain_ready_inputs-total (record s { dropped_players = set s.dropped_players i true })
        (drop-IsValid s i v))

-- A player with delay 0 makes the drain hang as soon as a frame is complete, whatever the fuel.
pub drain_loops :
    (f : ℕ) (s : SimplestGameSync) (p : ℕ)
    → p < length s.sender_buffer
    → get_or s.player_delays p 0 ≡ 0
    → ready s ≡ true
    → drain f s ≡ loops
unfolding drain round
drain_loops zero s p h z go = refl
drain_loops (suc f) s p h z go =
    let frames = extract_inputs 0 s.dropped_players s.game_data_size s.player_input in
    let stuck =
      flush_all-loops 0 p p s.player_delays (length s.player_delays)
        (extend_all frames s.sender_buffer) (omega arith)
        (rw (length-map (λ b. b ++ frames) s.sender_buffer) h) (rw z (omega arith)) in
    rw (go, drain) (rw stuck refl)

-- In a valid state the drain returns: it has run a number of rounds, each of which took the front of
-- every queue that had one, and stopped where a live player has no input or no one has; each player's
-- outputs, with what stays in the player's buffer, are what the buffer held with those rounds' frames.
pub drain_ready_inputs-rounds :
    (s : SimplestGameSync)
    → IsValid s
    → (r : List PlayerOutput × SimplestGameSync) × (k : ℕ) × (drain_ready_inputs s ≡ ok r)
      × Drained s k r
      × IsValid r.1
drain_ready_inputs-rounds s v =
    let (r, e, w) = drain_ready_inputs-total s v in
    let (k, d) = drain_ready_inputs-Drained s r e in (r, k, e, d, w)
