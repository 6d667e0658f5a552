-- ===== src/Sync/Delayed/Calls.antt =====
-- One call on `DelayedGameSync`.
use direlera_rs.Prelude.{
  ℕ, ◌+◌, ◌≤◌, ◌<◌, ◌≡◌, refl, some, List, [], ◌∷◌, ◌++◌, Bytes, arith, length, get_or, set, concat,
  ap, ◌∙◌, sym, subst, length-set, All,
}
use direlera_rs.Sync.Outcome.{ok, >>=-eq-ok}
use direlera_rs.Sync.Core.{PlayerOutput, queue}
use direlera_rs.Sync.Core.Flush.{output_of}
use direlera_rs.Sync.Cached.{
  CachedGameSync, CachedPlayerOutput, ClientInput, Reply, cache, make_cached_output, resolve,
}
use direlera_rs.Sync.Cached
use direlera_rs.Sync.Cached.Decode.{received, sent_to}
use direlera_rs.Sync.Cached.Invariant.{AllInv}
use direlera_rs.Sync.Cached.Calls
use direlera_rs.Sync.Cached.Calls.{Called, process_client_input-Called, mark_player_dropped-Called}
use direlera_rs.Sync.Delayed.{DelayedGameSync, forward, catch_up}
use direlera_rs.Sync.Delayed.Merge.{Merge, all_engine, IsZeroFrame}

abbrev pub delays : DelayedGameSync → List ℕ
delays d = d.inner.sync.player_delays

-- The wrapped engine is valid, every vector has an entry for each player, and no player has been
-- sent more startup frames than it is due.
pub record IsValid (d : DelayedGameSync) : Type 0 where
  pub inner : Calls.IsValid d.inner
  pub count : d.player_count ≡ length (delays d)
  pub inputs : length d.input_caches ≡ d.player_count
  pub input_valid : AllInv d.input_caches
  pub queued : length d.queues ≡ d.player_count
  pub sent : length d.warmup_sent ≡ d.player_count
  pub totals : length d.total_delays ≡ d.player_count
  pub warm : (p : ℕ) → get_or d.warmup_sent p 0 ≤ get_or d.total_delays p 0

-- What a call from `d` has done: the startup frames `zs` and the engine's outputs `es` were put out
-- in the order `os`, which each client decodes.
pub record Served (d : DelayedGameSync) (zs es os : List PlayerOutput) (added : Bytes)
    (rs : List CachedPlayerOutput) (d' : DelayedGameSync) : Type 0 where
  pub valid : IsValid d'
  pub same_delays : delays d' ≡ delays d
  pub same_totals : d'.total_delays ≡ d.total_delays
  pub merge : Merge zs es os
  pub zeros : All IsZeroFrame zs
  pub counted :
      (p : ℕ)
      → p < length (delays d)
      → get_or d'.warmup_sent p 0 ≡ get_or d.warmup_sent p 0 + length (sent_to p zs)
  pub decodes :
      (p : ℕ)
      → p < length (delays d)
      → received p (cache d.inner.output_caches p).slots rs
        ≡ some (sent_to p os, (cache d'.inner.output_caches p).slots)
  pub streams :
      (p : ℕ)
      → p < length (delays d)
      → output_of p es ++ concat (queue d'.inner.sync.sender_buffer p)
        ≡ concat (queue d.inner.sync.sender_buffer p) ++ added

-- A call that the engine serves.
pub engine-Served :
    (d d' : DelayedGameSync) (es : List PlayerOutput) (added : Bytes) (rs : List CachedPlayerOutput)
    → IsValid d'
    → d'.total_delays ≡ d.total_delays
    → d'.warmup_sent ≡ d.warmup_sent
    → Called d.inner es added rs d'.inner
    → Served d [] es es added rs d'
engine-Served d d' es added rs v t w c = record {
  valid = v;
  same_delays = c.delays;
  same_totals = t;
  merge = all_engine es;
  zeros = tt;
  counted = λ p h. rw w (omega arith);
  decodes = c.decodes;
  streams = c.streams;
}

forward-Served :
    (d d₁ : DelayedGameSync) (i : ℕ) (bytes : Bytes) (r : Reply × DelayedGameSync)
    → IsValid d₁
    → d₁.inner ≡ d.inner
    → d₁.total_delays ≡ d.total_delays
    → d₁.warmup_sent ≡ d.warmup_sent
    → forward d₁ i bytes ≡ ok r
    → (es : List PlayerOutput) × (added : Bytes) × Served d [] es es added r.0.0 r.1
unfolding forward
forward-Served d d₁ i bytes r v n t w e =
    let (a, p, e₁) =
      >>=-eq-ok (Cached.process_client_input d₁.inner i (ClientInput.game_data bytes)) _ e in
    let (es, added, c) =
      process_client_input-Called d₁.inner i (ClientInput.game_data bytes) a v.inner p in
    let z : (a.0, record d₁ { inner = a.1 }) ≡ r = cc in
    let v' : IsValid (record d₁ { inner = a.1 }) = record {
      inner = c.valid;
      count = v.count ∙ ap length (sym c.delays);
      inputs = v.inputs;
      input_valid = v.input_valid;
      queued = v.queued;
      sent = v.sent;
      totals = v.totals;
      warm = v.warm;
    } in
    (
      es,
      added,
      subst (λ y. Served d [] es es added y.0.0 y.1) z
          (engine-Served d (record d₁ { inner = a.1 }) es added a.0.0 v' t w
            (subst (λ x. Called x es added a.0.0 a.1) n c)),
    )

pub catch_up-Served :
    (d : DelayedGameSync) (i : ℕ) (bytes : Bytes) (saved : List Bytes) (r : Reply × DelayedGameSync)
    → IsValid d
    → catch_up d i bytes saved ≡ ok r
    → (es : List PlayerOutput) × (added : Bytes) × Served d [] es es added r.0.0 r.1
unfolding catch_up
catch_up-Served d i bytes [] r v e = forward-Served d d i bytes r v refl refl refl e
catch_up-Served d i bytes (due ∷ rest) r v e =
    forward-Served d (record d { queues = set d.queues i rest }) i due r
      (record {
        inner = v.inner;
        count = v.count;
        inputs = v.inputs;
        input_valid = v.input_valid;
        queued = length-set d.queues i rest ∙ v.queued;
        sent = v.sent;
        totals = v.totals;
        warm = v.warm;
      })
      refl refl refl e
