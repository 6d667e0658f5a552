-- ===== src/Sync/Delayed/Warmup.antt =====
-- A call on `DelayedGameSync` during startup.
use direlera_rs.Prelude.{
  ℕ, zero, suc, ◌+◌, ◌*◌, ◌≤◌, ◌<◌, ◌≡◌, refl, true, List, [], ◌∷◌, Bytes, arith, length, get_or,
  set, concat, ap, ◌∙◌, sym, length-set, replicate, All, append-nil, get_or-set_self, get_or-set_ne,
}
use direlera_rs.Sync.Core.{SimplestGameSync, PlayerOutput, queue}
use direlera_rs.Sync.Cached.Coherence.{Converted, one-Converted}
use direlera_rs.Sync.Cached.{make_cached_output}
use direlera_rs.Sync.Cached.Decode.{received, sent_to}
use direlera_rs.Sync.Cached.Invariant.{Stored, make_cached_output-Stored}
use direlera_rs.Sync.Delayed.{DelayedGameSync, zero_frame, warm_up, warming}
use direlera_rs.Sync.Delayed.Merge.{nil, startup}
use direlera_rs.Sync.Delayed.Calls.{delays, IsValid, Served}

replicate-zeros : (n : ℕ) → All (λ (b : ℕ). b ≡ 0) (replicate n 0)
replicate-zeros zero = tt
replicate-zeros (suc n) = (refl, replicate-zeros n)

-- One more startup frame for player `i`, and no other.
sent-count :
    (xs : List ℕ) (i p : ℕ) (o : PlayerOutput)
    → i < length xs
    → o.player_id ≡ i
    → get_or (set xs i (get_or xs i 0 + 1)) p 0 ≡ get_or xs p 0 + length (sent_to p (o ∷ []))
sent-count xs i p o h e = ground (
  arith,
  get_or-set_self xs i (get_or xs i 0 + 1) 0 h,
  get_or-set_ne xs i p (get_or xs i 0 + 1) 0,
)

pub warm_up-Served :
    (d : DelayedGameSync) (i : ℕ) (bytes : Bytes)
    → IsValid d
    → i < length (delays d)
    → warming d i ≡ true
    → let o : PlayerOutput = record { player_id = i; output = zero_frame d } in
      Served d (o ∷ []) [] (o ∷ []) [] (warm_up d i bytes).0.0 (warm_up d i bytes).1
unfolding warm_up received
warm_up-Served d i bytes v h w = record {
  valid = record {
    inner = record {
      engine = rw s.engine v.inner.engine;
      outputs = s.size ∙ v.inner.outputs ∙ ap length (sym same);
      inputs = ap length s.inputs ∙ v.inner.inputs ∙ ap length (sym same);
      output_valid = s.valid;
      input_valid = rw s.inputs v.inner.input_valid;
      mode = s.mode ∙ v.inner.mode;
    };
    count = v.count ∙ ap length (sym same);
    inputs = v.inputs;
    input_valid = v.input_valid;
    queued = length-set d.queues i _ ∙ v.queued;
    sent = length-set d.warmup_sent i _ ∙ v.sent;
    totals = v.totals;
    warm = within;
  };
  same_delays = same;
  same_totals = refl;
  merge = startup o nil;
  zeros = (replicate-zeros (d.player_count * d.frame_size), tt);
  counted = λ p k. sent-count d.warmup_sent i p o (omega (arith, v.sent, v.count)) refl;
  decodes = λ p k. x.decodes p (omega (arith, v.inner.outputs));
  streams = λ p k.
      ap (λ (z : SimplestGameSync). concat (queue z.sender_buffer p)) s.engine
      ∙ sym (append-nil (concat (queue d.inner.sync.sender_buffer p)));
}
  where
    o : PlayerOutput
    o = record { player_id = i; output = zero_frame d }

    s : Stored d.inner i (zero_frame d) (make_cached_output d.inner i (zero_frame d))
    s = make_cached_output-Stored d.inner i (zero_frame d) v.inner.output_valid v.inner.mode

    x :
        Converted d.inner
          (o ∷ [])
          (warm_up d i bytes).0.0
          (make_cached_output d.inner i (zero_frame d)).1
    x = one-Converted d.inner o (make_cached_output d.inner i (zero_frame d)) s

    same : delays (warm_up d i bytes).1 ≡ delays d
    same = ap (λ (z : SimplestGameSync). z.player_delays) s.engine

    within :
        (p : ℕ)
        → get_or (set d.warmup_sent i (get_or d.warmup_sent i 0 + 1)) p 0
          ≤ get_or d.total_delays p 0
    within p = ground (
      arith,
      v.warm p,
      v.sent,
      v.count,
      get_or-set_self d.warmup_sent i (get_or d.warmup_sent i 0 + 1) 0,
      get_or-set_ne d.warmup_sent i p (get_or d.warmup_sent i 0 + 1) 0,
    )
