-- ===== src/Sync/Core/History.antt =====
-- Histories of calls on `SimplestGameSync`.
use direlera_rs.Prelude.{
  ℕ, ◌*◌, ◌<◌, ◌≡◌, refl, true, false, List, [], ◌∷◌, ◌++◌, Bytes, arith, length, get_or, set,
  concat, Bool-cases, inl, inr, leb, ◌∙◌, sym, ap, append_assoc, subst, get_or-replicate,
  append-nil,
}
use direlera_rs.Sync.Outcome.{GameSyncError, invalid_player_id, Outcome, ok, err, loops, ◌>>=◌}
use direlera_rs.Sync.Core.{
  SimplestGameSync, PlayerOutput, OneInput, queue, new, process_client_input, mark_player_dropped,
  queue_input, drain_ready_inputs,
}
use direlera_rs.Sync.Core.Invariant.{
  IsValid, AllPositive, new-IsValid, queue_input_keeps, queue_input-IsValid, drop-IsValid,
}
use direlera_rs.Sync.Core.Flush.{output_of, output_of-append}
use direlera_rs.Sync.Core.Stream.{interleaved, drain_ready_inputs-Drained}
use direlera_rs.Sync.Core.Total.{drain_ready_inputs-total}

pub data Event : Type 0 where
  input : ℕ → Bytes → Event
  drop_player : ℕ → Event

apply : SimplestGameSync → Event → Outcome (List PlayerOutput × SimplestGameSync)
unfolding process_client_input mark_player_dropped
apply s (input i bytes) = process_client_input s i bytes
apply s (drop_player i) = mark_player_dropped s i

-- A call that is refused changes nothing.
abbrev pub keep :
    SimplestGameSync
    → Outcome (List PlayerOutput × SimplestGameSync)
    → Outcome (List PlayerOutput × SimplestGameSync)
keep s (ok r) = ok r
keep s (err e) = ok ([], s)
keep s loops = loops

pub run : SimplestGameSync → List Event → Outcome (List PlayerOutput × SimplestGameSync)
unfolding apply
run s [] = ok ([], s)
run s (e ∷ es) = keep s (apply s e) >>= λ r. run r.1 es >>= λ rs. ok (r.0 ++ rs.0, rs.1)

-- The same bytes have been added to the stream of every player.
pub record InStep (s : SimplestGameSync) (added : Bytes) (r : List PlayerOutput × SimplestGameSync)
    : Type 0 where
  pub delays : r.1.player_delays ≡ s.player_delays
  pub streams :
      (p : ℕ)
      → p < length s.player_delays
      → output_of p r.0 ++ concat (queue r.1.sender_buffer p)
        ≡ concat (queue s.sender_buffer p) ++ added

none-InStep : (s : SimplestGameSync) → InStep s [] ([], s)
none-InStep s = record {
  delays = refl;
  streams = λ p h. sym (append-nil (concat (queue s.sender_buffer p)));
}

then-InStep :
    (s : SimplestGameSync) (x y : Bytes) (a r : List PlayerOutput × SimplestGameSync)
    → InStep s x a
    → InStep a.1 y r
    → InStep s (x ++ y) (a.0 ++ r.0, r.1)
then-InStep s x y a r v w = record { delays = w.delays ∙ v.delays; streams = streams }
  where
    streams :
        (p : ℕ)
        → p < length s.player_delays
        → output_of p (a.0 ++ r.0) ++ concat (queue r.1.sender_buffer p)
          ≡ concat (queue s.sender_buffer p) ++ (x ++ y)
    streams p h = rw (output_of-append p a.0 r.0) (
        append_assoc (output_of p a.0) (output_of p r.0) (concat (queue r.1.sender_buffer p))
        ∙ ap (◌++◌ (output_of p a.0)) (w.streams p (rw v.delays h))
        ∙ sym (append_assoc (output_of p a.0) (concat (queue a.1.sender_buffer p)) y)
        ∙ ap (λ b. b ++ y) (v.streams p h)
        ∙ append_assoc (concat (queue s.sender_buffer p)) x y)

-- A drain that starts from the same buffers and delays as `s`.
drain-InStep :
    (s t : SimplestGameSync) (r : List PlayerOutput × SimplestGameSync)
    → IsValid s
    → t.sender_buffer ≡ s.sender_buffer
    → t.player_delays ≡ s.player_delays
    → drain_ready_inputs t ≡ ok r
    → (added : Bytes) × InStep s added r
drain-InStep s t r v b d e =
    let (k, w) = drain_ready_inputs-Drained t r e in
    (
      concat (interleaved k t.game_data_size t.player_input),
      record {
        delays = w.delays ∙ d;
        streams = λ p h.
            w.streams p (rw b (omega (arith, v.buffers)))
            ∙ ap
                (λ (x : List (List OneInput)).
                  concat (queue x p) ++ concat (interleaved k t.game_data_size t.player_input))
                b;
      },
    )

-- What a call does, where it returns or is refused.
pub Kept : SimplestGameSync → Outcome (List PlayerOutput × SimplestGameSync) → Type 0
Kept s o =
    (r : List PlayerOutput × SimplestGameSync) × (added : Bytes) × (keep s o ≡ ok r)
    × InStep s added r
    × IsValid r.1

-- What is known of a call that returned.
pub Kept-ok :
    (s : SimplestGameSync) (r : List PlayerOutput × SimplestGameSync)
    → Kept s (ok r)
    → (added : Bytes) × InStep s added r × IsValid r.1
unfolding Kept
Kept-ok s r (q, added, e, k, v) =
    let z : q ≡ r = cc in (added, subst (InStep s added) z k, subst (λ x. IsValid x.1) z v)

unchanged-Kept : (s : SimplestGameSync) → IsValid s → Kept s (ok ([], s))
unfolding Kept
unchanged-Kept s v = (([], s), [], refl, none-InStep s, v)

refused-Kept : (s : SimplestGameSync) (e : GameSyncError) → IsValid s → Kept s (err e)
unfolding Kept
refused-Kept s e v = (([], s), [], refl, none-InStep s, v)

drain-Kept :
    (s t : SimplestGameSync)
    → IsValid s
    → IsValid t
    → t.sender_buffer ≡ s.sender_buffer
    → t.player_delays ≡ s.player_delays
    → Kept s (drain_ready_inputs t)
unfolding Kept
drain-Kept s t v w b d =
    let (r, e, u) = drain_ready_inputs-total t w in
    let (added, k) = drain-InStep s t r v b d e in (r, added, rw e, k, u)

pub process_client_input-Kept :
    (s : SimplestGameSync) (i : ℕ) (bytes : Bytes)
    → IsValid s
    → Kept s (process_client_input s i bytes)
unfolding process_client_input
process_client_input-Kept s i bytes v = elim (Bool-cases (leb (length s.player_input) i)) [
  | inl out ↦ rw out (refused-Kept s (invalid_player_id i (length s.player_input)) v)
  | inr inside ↦ rw inside (elim (Bool-cases (get_or s.dropped_players i false)) [
    | inl gone ↦ rw gone (unchanged-Kept s v)
    | inr live ↦
        let k = queue_input_keeps s i bytes in
        rw live (drain-Kept s (queue_input s i bytes) v (queue_input-IsValid s i bytes v) k.0 k.1)
  ])
]

pub mark_player_dropped-Kept :
    (s : SimplestGameSync) (i : ℕ) → IsValid s → Kept s (mark_player_dropped s i)
unfolding mark_player_dropped
mark_player_dropped-Kept s i v = elim (Bool-cases (leb (length s.dropped_players) i)) [
  | inl out ↦ rw out (refused-Kept s (invalid_player_id i (length s.dropped_players)) v)
  | inr inside ↦ rw inside (
      drain-Kept s (record s { dropped_players = set s.dropped_players i true }) v
        (drop-IsValid s i v) refl refl)
]

apply-Kept : (s : SimplestGameSync) (e : Event) → IsValid s → Kept s (apply s e)
unfolding apply
apply-Kept s (input i bytes) v = process_client_input-Kept s i bytes v
apply-Kept s (drop_player i) v = mark_player_dropped-Kept s i v

-- Every history of calls returns, keeps the invariant and adds the same bytes to all streams.
run-InStep :
    (s : SimplestGameSync) (es : List Event)
    → IsValid s
    → (r : List PlayerOutput × SimplestGameSync) × (added : Bytes) × (run s es ≡ ok r)
      × InStep s added r
      × IsValid r.1
unfolding run Kept
run-InStep s [] v = (([], s), [], refl, none-InStep s, v)
run-InStep s (e ∷ es) v =
    let (a, x, p, k, w) = apply-Kept s e v in
    let (b, y, q, l, u) = run-InStep a.1 es w in
    ((a.0 ++ b.0, b.1), x ++ y, rw (p, q) refl, then-InStep s x y a b k l, u)

-- Lockstep: from a new game in which every delay is positive, any history of inputs and drops
-- returns, and there is one byte stream such that each player's outputs so far, with what waits in
-- that player's buffer, are that stream; what waits is less than one output.
pub run-streams :
    (delays : List ℕ) (es : List Event)
    → AllPositive delays
    → (r : List PlayerOutput × SimplestGameSync) × (stream : Bytes) × (run (new delays) es ≡ ok r)
      × ((p : ℕ)
          → p < length delays
          → (output_of p r.0 ++ concat (queue r.1.sender_buffer p) ≡ stream)
            × (length (queue r.1.sender_buffer p) < get_or delays p 0 * length delays))
unfolding new
run-streams delays es h =
    let (r, added, e, k, v) = run-InStep (new delays) es (new-IsValid delays h) in
    (
      r,
      added,
      e,
      λ p i. (
        k.streams p i
            ∙ ap (λ (q : List OneInput). concat q ++ added)
                (get_or-replicate {A = List OneInput} (length delays) p []),
        rw k.delays at (v.short p (rw k.delays i)),
      ),
    )
