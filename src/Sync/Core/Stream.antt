-- ===== src/Sync/Core/Stream.antt =====
-- The outer loop of `drain_ready_inputs`: what it adds to each player's stream, which
-- GAME_SYNC_PROTOCOL.md describes.
use direlera_rs.Prelude.{
  ℕ, zero, suc, ◌<◌, ◌≡◌, refl, false, List, [], ◌∷◌, ◌++◌, Bytes, length, drop, concat, map, ap,
  sym, ◌∙◌, Bool-cases, inl, inr, concat-append, append_assoc, subst, append-nil,
}
use direlera_rs.Sync.Outcome.{ok, >>=-eq-ok}
use direlera_rs.Sync.Core.{
  SimplestGameSync, PlayerOutput, OneInput, queue, ready, round, drain, drain_ready_inputs,
  total_inputs,
}
use direlera_rs.Sync.Core.Flush.{output_of, output_of-append}
use direlera_rs.Sync.Core.Rounds.{front, Advanced, round-Advanced}

-- For each frame, for each player: the player's input for that frame.
abbrev pub interleaved : ℕ → ℕ → List (List OneInput) → List OneInput
interleaved zero size qs = []
interleaved (suc k) size qs = map (front size) qs ++ interleaved k size (map (drop 1) qs)

abbrev pub drop_rounds : ℕ → List (List OneInput) → List (List OneInput)
drop_rounds k = map (drop k)

drop_rounds-suc :
    (k : ℕ) (qs : List (List OneInput)) → drop_rounds k (map (drop 1) qs) ≡ drop_rounds (suc k) qs
drop_rounds-suc k [] = refl
drop_rounds-suc zero ([] ∷ qs) = ap (◌∷◌ []) (drop_rounds-suc zero qs)
drop_rounds-suc (suc k) ([] ∷ qs) = ap (◌∷◌ []) (drop_rounds-suc (suc k) qs)
drop_rounds-suc k ((x ∷ q) ∷ qs) = ap (◌∷◌ (drop k q)) (drop_rounds-suc k qs)

drop_rounds-zero : (qs : List (List OneInput)) → drop_rounds 0 qs ≡ qs
drop_rounds-zero [] = refl
drop_rounds-zero (q ∷ qs) = ap (◌∷◌ q) (drop_rounds-zero qs)

-- What `k` rounds from `s` have done: they have taken `k` inputs from every queue, and each
-- player's outputs with what stays in its buffer are what the buffer held with the `k` frames.
pub record Drained (s : SimplestGameSync) (k : ℕ) (r : List PlayerOutput × SimplestGameSync)
    : Type 0 where
  pub inputs : r.1.player_input ≡ drop_rounds k s.player_input
  pub delays : r.1.player_delays ≡ s.player_delays
  pub drops : r.1.dropped_players ≡ s.dropped_players
  pub frame : r.1.game_data_size ≡ s.game_data_size
  pub size : length r.1.sender_buffer ≡ length s.sender_buffer
  pub streams :
      (p : ℕ)
      → p < length s.sender_buffer
      → output_of p r.0 ++ concat (queue r.1.sender_buffer p)
        ≡ concat (queue s.sender_buffer p) ++ concat (interleaved k s.game_data_size s.player_input)
  pub blocked : ready r.1 ≡ false

stop-Drained : (s : SimplestGameSync) → ready s ≡ false → Drained s 0 ([], s)
stop-Drained s h = record {
  inputs = sym (drop_rounds-zero s.player_input);
  delays = refl;
  drops = refl;
  frame = refl;
  size = refl;
  streams = λ p k. sym (append-nil (concat (queue s.sender_buffer p)));
  blocked = h;
}

-- Two stretches of one player's stream, the second from where the first ended.
pub splice :
    (a b c d e f g : Bytes) → a ++ b ≡ c ++ d → e ++ f ≡ b ++ g → (a ++ e) ++ f ≡ c ++ (d ++ g)
splice a b c d e f g p q =
    append_assoc a e f
    ∙ ap (◌++◌ a) q
    ∙ sym (append_assoc a b g)
    ∙ ap (λ x. x ++ g) p
    ∙ append_assoc c d g

step-Drained :
    (s : SimplestGameSync) (k : ℕ) (a r : List PlayerOutput × SimplestGameSync)
    → Advanced s a
    → Drained a.1 k r
    → Drained s (suc k) (a.0 ++ r.0, r.1)
step-Drained s k a r v w = record {
  inputs = w.inputs ∙ ap (drop_rounds k) v.inputs ∙ drop_rounds-suc k s.player_input;
  delays = w.delays ∙ v.delays;
  drops = w.drops ∙ v.drops;
  frame = w.frame ∙ v.frame;
  size = w.size ∙ v.size;
  streams = streams;
  blocked = w.blocked;
}
  where
    streams :
        (p : ℕ)
        → p < length s.sender_buffer
        → output_of p (a.0 ++ r.0) ++ concat (queue r.1.sender_buffer p)
          ≡ concat (queue s.sender_buffer p)
            ++ concat (interleaved (suc k) s.game_data_size s.player_input)
    streams p h =
        let x : output_of p r.0 ++ concat (queue r.1.sender_buffer p)
            ≡ concat (queue a.1.sender_buffer p)
              ++ concat (interleaved k s.game_data_size (map (drop 1) s.player_input)) =
          rw (← v.frame, ← v.inputs) (w.streams p (rw v.size h)) in
        rw
          (
            output_of-append p a.0 r.0,
            concat-append (map (front s.game_data_size) s.player_input)
                (interleaved k s.game_data_size (map (drop 1) s.player_input)),
          )
          (splice (output_of p a.0) (concat (queue a.1.sender_buffer p))
            (concat (queue s.sender_buffer p))
            (concat (map (front s.game_data_size) s.player_input)) (output_of p r.0)
            (concat (queue r.1.sender_buffer p))
            (concat (interleaved k s.game_data_size (map (drop 1) s.player_input))) (v.streams p h)
            x)

pub drain-Drained :
    (f : ℕ) (s : SimplestGameSync) (r : List PlayerOutput × SimplestGameSync)
    → drain f s ≡ ok r
    → (k : ℕ) × Drained s k r
unfolding drain
drain-Drained zero s r e = cc
drain-Drained (suc f) s r e = elim (Bool-cases (ready s)) [
  | inr stop ↦
      let q : ok ([], s) ≡ ok r = rw (stop, drain) at e in
      let z : ([], s) ≡ r = cc in (0, subst (Drained s 0) z (stop-Drained s stop))
  | inl go ↦
      let (a, p, e₁) = >>=-eq-ok (round s) _ (rw (go, drain) at e) in
      let (b, q, e₂) = >>=-eq-ok (drain f a.1) _ e₁ in
      let z : (a.0 ++ b.0, b.1) ≡ r = cc in
      let (k, w) = drain-Drained f a.1 b q in
      (suc k, subst (Drained s (suc k)) z (step-Drained s k a b (round-Advanced s a go p) w))
]

-- Whatever a drain returns is the result of some number of rounds, after which it is blocked.
pub drain_ready_inputs-Drained :
    (s : SimplestGameSync) (r : List PlayerOutput × SimplestGameSync)
    → drain_ready_inputs s ≡ ok r
    → (k : ℕ) × Drained s k r
unfolding drain_ready_inputs
drain_ready_inputs-Drained s r e = drain-Drained (suc (total_inputs s.player_input)) s r e
