-- ===== src/Sync/Delayed/History.antt =====
-- A whole game: any history of inputs, cache references and drops on a new `DelayedGameSync`.
use direlera_rs.Prelude.{
  ℕ, ◌≤◌, ◌<◌, ◌≡◌, refl, true, some, List, [], ◌∷◌, ◌++◌, Bytes, arith, length, get_or, concat,
  Bool-cases, inl, inr, ap, ◌∙◌, sym, length-replicate, replicate, All, append-nil,
  get_or-replicate, length-append, leb, leb→le, leb→lt,
}
use direlera_rs.Sync.Outcome.{invalid_player_id, Outcome, ok, err, loops, ◌>>=◌}
use direlera_rs.Sync.Cache.{InputCache, empty}
use direlera_rs.Sync.Core.{PlayerOutput, OneInput, queue}
use direlera_rs.Sync.Core
use direlera_rs.Sync.Core.Invariant.{AllPositive}
use direlera_rs.Sync.Core.Flush.{output_of, output_of-append}
use direlera_rs.Sync.Core.Stream.{splice}
use direlera_rs.Sync.Cached.{CachedGameSync, CachedPlayerOutput, ClientInput, Reply, cache}
use direlera_rs.Sync.Cached
use direlera_rs.Sync.Cached.Decode.{received, received-append, sent_to, sent_to-append}
use direlera_rs.Sync.Cached.Invariant.{replicate-AllInv}
use direlera_rs.Sync.Cached.Calls
use direlera_rs.Sync.Delayed.{DelayedGameSync, fresh, process_client_input, mark_player_dropped}
use direlera_rs.Sync.Delayed.Merge.{Merge, nil, Merge-append, IsZeroFrame, All-append}
use direlera_rs.Sync.Delayed.Calls.{delays, IsValid, Served}
use direlera_rs.Sync.Delayed.Steps.{Serves, process_client_input-Serves, mark_player_dropped-Serves}
use direlera_rs.Sync.Delayed.Total.{process_client_input-Ends, mark_player_dropped-total}

pub data Event : Type 0 where
  input : ℕ → ClientInput → Event
  drop_player : ℕ → Event

abbrev Step : Type 0
Step = List CachedPlayerOutput × DelayedGameSync

-- The state after a call that is refused is the state before.
abbrev keep : DelayedGameSync → Outcome Step → Outcome Step
keep d (ok r) = ok r
keep d (err e) = ok ([], d)
keep d loops = loops

abbrev responses : Outcome (Reply × DelayedGameSync) → Outcome Step
responses (ok r) = ok (r.0.0, r.1)
responses (err e) = err e
responses loops = loops

apply : DelayedGameSync → Event → Outcome Step
apply d (input i bytes) = responses (process_client_input d i bytes)
apply d (drop_player i) = mark_player_dropped d i

pub run : DelayedGameSync → List Event → Outcome Step
unfolding apply process_client_input mark_player_dropped
run d [] = ok ([], d)
run d (e ∷ es) = keep d (apply d e) >>= λ r. run r.1 es >>= λ rs. ok (r.0 ++ rs.0, rs.1)

none-Serves : (d : DelayedGameSync) → IsValid d → Serves d [] d
unfolding received
none-Serves d v = (
  [],
  [],
  [],
  [],
  record {
    valid = v;
    same_delays = refl;
    same_totals = refl;
    merge = nil;
    zeros = tt;
    counted = λ p h. omega arith;
    decodes = λ p h. refl;
    streams = λ p h. sym (append-nil (concat (queue d.inner.sync.sender_buffer p)));
  },
)

then-Serves :
    (d₁ d₂ d₃ : DelayedGameSync) (xs ys : List CachedPlayerOutput)
    → Serves d₁ xs d₂
    → Serves d₂ ys d₃
    → Serves d₁ (xs ++ ys) d₃
then-Serves d₁ d₂ d₃ xs ys (zs, es, os, added, v) (zs', es', os', added', w) = (
  zs ++ zs',
  es ++ es',
  os ++ os',
  added ++ added',
  record {
    valid = w.valid;
    same_delays = w.same_delays ∙ v.same_delays;
    same_totals = w.same_totals ∙ v.same_totals;
    merge = Merge-append v.merge w.merge;
    zeros = All-append IsZeroFrame zs zs' v.zeros w.zeros;
    counted = λ p h. rw (sent_to-append p zs zs') (
        omega (
          arith,
          v.counted p h,
          w.counted p (rw v.same_delays h),
          length-append (sent_to p zs) (sent_to p zs'),
        ));
    decodes = λ p h. rw (sent_to-append p os os') (
        received-append p _ _ _ xs ys (sent_to p os) (sent_to p os') (v.decodes p h)
          (w.decodes p (rw v.same_delays h)));
    streams = λ p h. rw (output_of-append p es es') (
        splice (output_of p es) (concat (queue d₂.inner.sync.sender_buffer p)) _ _ _ _ _
          (v.streams p h) (w.streams p (rw v.same_delays h)));
  },
)

pub new-IsValid :
    (c : CachedGameSync) (totals : List ℕ)
    → Calls.IsValid c
    → length totals ≡ length c.sync.player_delays
    → IsValid (fresh c totals)
unfolding Cached.player_count
new-IsValid c totals v h = record {
  inner = v;
  count = refl;
  inputs = length-replicate (length c.sync.player_delays) empty;
  input_valid = replicate-AllInv (length c.sync.player_delays);
  queued = length-replicate {A = List Bytes} (length c.sync.player_delays) [];
  sent = length-replicate {A = ℕ} (length c.sync.player_delays) 0;
  totals = h;
  warm = λ p. rw (get_or-replicate {A = ℕ} (length c.sync.player_delays) p 0) (omega arith);
}

out_of_range-err :
    (d : DelayedGameSync) (i : ℕ)
    → IsValid d
    → length (delays d) ≤ i
    → mark_player_dropped d i ≡ err (invalid_player_id i (length (delays d)))
unfolding mark_player_dropped Cached.mark_player_dropped Core.mark_player_dropped
out_of_range-err d i v h =
    let n : length d.inner.sync.dropped_players ≡ length (delays d) = v.inner.engine.drops in
    let t : leb (length d.inner.sync.dropped_players) i ≡ true = ground arith in rw t (rw n refl)

-- Every call returns or is refused, and is one step of the game.
apply-Serves :
    (d : DelayedGameSync) (e : Event)
    → IsValid d
    → (r : Step) × (keep d (apply d e) ≡ ok r) × Serves d r.0 r.1
unfolding apply
apply-Serves d (input i bytes) v = elim (process_client_input-Ends d i bytes v) [
  | inl (h, e) ↦ (([], d), rw e, none-Serves d v)
  | inr (inl (pos, p, m, e)) ↦ (([], d), rw e, none-Serves d v)
  | inr (inr (r, e)) ↦ ((r.0.0, r.1), rw e, process_client_input-Serves d i bytes r v e)
]
apply-Serves d (drop_player i) v = elim (Bool-cases (leb (length (delays d)) i)) [
  | inl out ↦ (([], d), rw (out_of_range-err d i v (leb→le _ i out)), none-Serves d v)
  | inr inside ↦
      let (r, e) = mark_player_dropped-total d i v (leb→lt _ i inside) in
      (r, rw e, mark_player_dropped-Serves d i r v e)
]

run-Serves :
    (d : DelayedGameSync) (es : List Event)
    → IsValid d
    → (r : Step) × (run d es ≡ ok r) × Serves d r.0 r.1
unfolding run
run-Serves d [] v = (([], d), refl, none-Serves d v)
run-Serves d (e ∷ es) v =
    let (a, p, s) = apply-Serves d e v in
    let (b, q, t) = run-Serves a.1 es s.4.valid in
    ((a.0 ++ b.0, b.1), rw (p, q) refl, then-Serves d a.1 b.1 a.0 b.0 s t)

-- What has been put out in a game: startup frames `zs` and the engine's outputs `es`, merged as `os`.
pub record Lockstep (players : ℕ) (startup : List ℕ) (rs : List CachedPlayerOutput)
    (d : DelayedGameSync) (zs es os : List PlayerOutput) (stream : Bytes) : Type 0 where
  pub merge : Merge zs es os
  pub zeros : All IsZeroFrame zs
  pub few : (p : ℕ) → p < players → length (sent_to p zs) ≤ get_or startup p 0
  pub decodes :
      (p : ℕ) → p < players → (slots : List Bytes) × (received p [] rs ≡ some (sent_to p os, slots))
  pub streams :
      (p : ℕ) → p < players → output_of p es ++ concat (queue d.inner.sync.sender_buffer p) ≡ stream

abbrev pub start : List ℕ → List ℕ → DelayedGameSync
start delays startup = fresh (Cached.new delays) startup

empty_has_none : empty.slots ≡ []
unfolding empty
empty_has_none = refl

same_length : (ds : List ℕ) → length (Cached.new ds).sync.player_delays ≡ length ds
unfolding Cached.new Core.new
same_length ds = refl

Served-Lockstep :
    (ds startup : List ℕ) (rs : List CachedPlayerOutput) (d : DelayedGameSync)
    (zs es os : List PlayerOutput) (added : Bytes)
    → Served (start ds startup) zs es os added rs d
    → Lockstep (length ds) startup rs d zs es os added
unfolding Cached.new Core.new Cached.player_count
Served-Lockstep ds startup rs d zs es os added s = record {
  merge = s.merge;
  zeros = s.zeros;
  few = λ p k.
      let w = rw s.same_totals at (s.valid.warm p) in
      let z = get_or-replicate {A = ℕ} (length ds) p 0 in omega (arith, s.counted p k);
  decodes = λ p k. ((cache d.inner.output_caches p).slots, rw (← empty_slots p) (s.decodes p k));
  streams = λ p k.
      s.streams p k
      ∙ ap (λ (q : List OneInput). concat q ++ added)
          (get_or-replicate {A = List OneInput} (length ds) p []);
}
  where
    empty_slots : (p : ℕ) → (cache (replicate (length ds) empty) p).slots ≡ []
    empty_slots p =
        ap (λ (c : InputCache). c.slots) (get_or-replicate (length ds) p empty) ∙ empty_has_none

-- Lockstep: any history of inputs, cache references and drops on a new game with positive delays
-- returns; each client that replays its responses through a FIFO of 256 decodes exactly the
-- outputs that were made for it, in order; these are at most as many zero frames as its startup
-- count, merged with the engine's outputs; and the engine's outputs to each player, with what
-- waits in that player's buffer, are one byte stream, the same for all players.
pub run-Lockstep :
    (ds startup : List ℕ) (events : List Event)
    → AllPositive ds
    → length startup ≡ length ds
    → (r : Step) × (zs es os : List PlayerOutput) × (stream : Bytes) × (run
          (start ds startup)
          events
        ≡ ok r)
      × Lockstep (length ds) startup r.0 r.1 zs es os stream
run-Lockstep ds startup events h n =
    let (r, e, (zs, es, os, added, s)) =
      run-Serves (start ds startup) events
        (new-IsValid (Cached.new ds) startup (Calls.new-IsValid ds h) (n ∙ sym (same_length ds))) in
    (r, zs, es, os, added, e, Served-Lockstep ds startup r.0 r.1 zs es os added s)
