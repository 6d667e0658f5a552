-- ===== src/Sync/Core/Rounds.antt =====
-- One round of the outer loop of `drain_ready_inputs`.
use direlera_rs.Prelude.{
  ℕ, zero, suc, ◌+◌, ◌*◌, ◌≤◌, ◌<◌, ◌≡◌, refl, Bool, true, List, [], ◌∷◌, ◌++◌, arith, length,
  get_or, drop, replicate, concat, map, ap, ◌∙◌, length-map, concat-append, subst,
}
use direlera_rs.Sync.Outcome.{ok, >>=-eq-ok}
use direlera_rs.Sync.Core.{
  SimplestGameSync, PlayerOutput, OneInput, queue, all_ready, any_input, ready, extract_inputs,
  extend_all, flush_all, round, total_inputs,
}
use direlera_rs.Sync.Core.Invariant.{IsValid}
use direlera_rs.Sync.Core.Flush.{output_of}
use direlera_rs.Sync.Core.FlushAll.{flush_all-FlushedAll, flush_all-total}

-- A player's next input, or zeros of the game's input size where the player has none.
abbrev pub front : ℕ → List OneInput → OneInput
front size [] = replicate size 0
front size (x ∷ q) = x

extract-front :
    (i : ℕ) (dropped : List Bool) (size : ℕ) (qs : List (List OneInput))
    → all_ready i dropped qs ≡ true
    → extract_inputs i dropped size qs ≡ map (front size) qs
extract-front i dropped size [] h = refl
extract-front i dropped size ([] ∷ qs) h = ground (arith, extract-front (suc i) dropped size qs)
extract-front i dropped size ((x ∷ q) ∷ qs) h =
    ap (◌∷◌ x) (extract-front (suc i) dropped size qs (ground arith))

queue-extend_all :
    (frames : List OneInput) (bs : List (List OneInput)) (j : ℕ)
    → j < length bs
    → queue (extend_all frames bs) j ≡ queue bs j ++ frames
queue-extend_all frames [] j h = absurd (omega arith)
queue-extend_all frames (b ∷ bs) zero h = refl
queue-extend_all frames (b ∷ bs) (suc j) h = queue-extend_all frames bs j (omega arith)

-- What a round from `s` has done.
pub record Advanced (s : SimplestGameSync) (r : List PlayerOutput × SimplestGameSync) : Type 0 where
  pub inputs : r.1.player_input ≡ map (drop 1) s.player_input
  pub delays : r.1.player_delays ≡ s.player_delays
  pub drops : r.1.dropped_players ≡ s.dropped_players
  pub frame : r.1.game_data_size ≡ s.game_data_size
  pub streams :
      (p : ℕ)
      → p < length s.sender_buffer
      → output_of p r.0 ++ concat (queue r.1.sender_buffer p)
        ≡ concat (queue s.sender_buffer p) ++ concat (map (front s.game_data_size) s.player_input)
  pub size : length r.1.sender_buffer ≡ length s.sender_buffer
  pub short :
      (p : ℕ)
      → p < length s.sender_buffer
      → length (queue r.1.sender_buffer p) < get_or s.player_delays p 0 * length s.player_delays

abbrev frames_of : SimplestGameSync → List OneInput
frames_of s = extract_inputs 0 s.dropped_players s.game_data_size s.player_input

ready→all_ready :
    (s : SimplestGameSync) → ready s ≡ true → all_ready 0 s.dropped_players s.player_input ≡ true
unfolding ready
ready→all_ready s h = ground arith

pub round-Advanced :
    (s : SimplestGameSync) (r : List PlayerOutput × SimplestGameSync)
    → ready s ≡ true
    → round s ≡ ok r
    → Advanced s r
unfolding round
round-Advanced s r h e =
    let (a, p, q) =
      >>=-eq-ok
        (flush_all 0 s.player_delays (length s.player_delays)
          (extend_all (frames_of s) s.sender_buffer))
        _ e in
    let v =
      flush_all-FlushedAll 0 s.player_delays (length s.player_delays)
        (extend_all (frames_of s) s.sender_buffer) a p in
    let z : (a.0, record s { player_input = map (drop 1) s.player_input; sender_buffer = a.1 })
        ≡ r =
      cc in
    subst (Advanced s) z (record {
      inputs = refl;
      delays = refl;
      drops = refl;
      frame = refl;
      streams = λ i k.
          v.streams i i (omega arith) (rw (length-map _ s.sender_buffer) k)
          ∙ ap concat (queue-extend_all (frames_of s) s.sender_buffer i k)
          ∙ concat-append (queue s.sender_buffer i) (frames_of s)
          ∙ ap (λ f. concat (queue s.sender_buffer i) ++ concat f)
              (extract-front 0 s.dropped_players s.game_data_size s.player_input
                (ready→all_ready s h));
      size = v.size ∙ length-map _ s.sender_buffer;
      short = λ i k. v.short i i (omega arith) (rw (length-map _ s.sender_buffer) k);
    })

pub Advanced-IsValid :
    (s : SimplestGameSync) (r : List PlayerOutput × SimplestGameSync)
    → IsValid s
    → Advanced s r
    → IsValid r.1
Advanced-IsValid s r v a = record {
  inputs = rw (a.inputs, a.delays, length-map (drop 1) s.player_input) v.inputs;
  buffers = rw a.delays (a.size ∙ v.buffers);
  drops = rw (a.drops, a.delays) v.drops;
  positive = rw a.delays v.positive;
  short = rw a.delays (λ j k. a.short j (omega (arith, v.buffers)));
}

-- In a valid state a round returns.
pub round-total :
    (s : SimplestGameSync)
    → IsValid s
    → (r : List PlayerOutput × SimplestGameSync) × (round s ≡ ok r)
unfolding round
round-total s v =
    let (a, e) =
      flush_all-total 0 s.player_delays (length s.player_delays)
        (extend_all (frames_of s) s.sender_buffer) (enough) in
    ((a.0, record s { player_input = map (drop 1) s.player_input; sender_buffer = a.1 }), rw e)
  where
    enough :
        (p j : ℕ)
        → p ≡ 0 + j
        → j < length (extend_all (frames_of s) s.sender_buffer)
        → 0 < get_or s.player_delays p 0 * length s.player_delays
    enough p j e k =
        let l = length-map (λ b. b ++ frames_of s) s.sender_buffer in
        let w = v.positive p (omega (arith, v.buffers)) in grind (arith, v.buffers)

total_inputs-drop-le :
    (qs : List (List OneInput)) → total_inputs (map (drop 1) qs) ≤ total_inputs qs
total_inputs-drop-le [] = omega arith
total_inputs-drop-le ([] ∷ qs) = omega (arith, total_inputs-drop-le qs)
total_inputs-drop-le ((x ∷ q) ∷ qs) = omega (arith, total_inputs-drop-le qs)

-- A round that takes an input leaves fewer.
pub total_inputs-drop :
    (qs : List (List OneInput))
    → any_input qs ≡ true
    → total_inputs (map (drop 1) qs) < total_inputs qs
total_inputs-drop [] h = cc
total_inputs-drop ([] ∷ qs) h = omega (arith, total_inputs-drop qs h)
total_inputs-drop ((x ∷ q) ∷ qs) h = omega (arith, total_inputs-drop-le qs)
