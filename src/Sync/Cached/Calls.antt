-- ===== src/Sync/Cached/Calls.antt =====
-- One call on `CachedGameSync`: what each client decodes from the responses, and what it adds to
-- the common stream.
use direlera_rs.Prelude.{
  ℕ, ◌<◌, ◌≡◌, refl, false, none, some, List, ◌++◌, Bytes, arith, length, set, concat, Bool-cases,
  inl, inr, ap, ◌∙◌, sym, subst, length-set, length-replicate, Option-cases, leb,
}
use direlera_rs.Sync.Outcome.{invalid_player_id, cache_position_not_found, ok, err, >>=-eq-ok}
use direlera_rs.Sync.Cache.{InputCache, empty, push, get}
use direlera_rs.Sync.Cache.Invariant.{push-Inv}
use direlera_rs.Sync.Core.{SimplestGameSync, PlayerOutput, queue}
use direlera_rs.Sync.Core
use direlera_rs.Sync.Core.Invariant
use direlera_rs.Sync.Core.Invariant.{AllPositive}
use direlera_rs.Sync.Core.Flush.{output_of}
use direlera_rs.Sync.Core.History.{
  InStep, Kept, Kept-ok, process_client_input-Kept, mark_player_dropped-Kept,
}
use direlera_rs.Sync.Core.Total
use direlera_rs.Sync.Cached.{
  CachedGameSync, CachedPlayerOutput, ClientInput, Reply, cache, new, convert, resolve,
  player_count, process_client_input, mark_player_dropped,
}
use direlera_rs.Sync.Cached.Decode.{received, sent_to}
use direlera_rs.Sync.Cached.Invariant.{AllInv, set-AllInv, replicate-AllInv}
use direlera_rs.Sync.Cached.Coherence.{Converted, convert-Converted}

-- The engine and all caches are valid, and the output caches are in use.
pub record IsValid (c : CachedGameSync) : Type 0 where
  pub engine : Invariant.IsValid c.sync
  pub outputs : length c.output_caches ≡ length c.sync.player_delays
  pub inputs : length c.input_caches ≡ length c.sync.player_delays
  pub output_valid : AllInv c.output_caches
  pub input_valid : AllInv c.input_caches
  pub mode : c.disable_output_cache ≡ false

pub new-IsValid : (delays : List ℕ) → AllPositive delays → IsValid (new delays)
unfolding new Core.new
new-IsValid delays h = record {
  engine = Invariant.new-IsValid delays h;
  outputs = length-replicate (length delays) empty;
  inputs = length-replicate (length delays) empty;
  output_valid = replicate-AllInv (length delays);
  input_valid = replicate-AllInv (length delays);
  mode = refl;
}

-- What a call from `c` has done: it put out `raw`, which each client decodes, and it added the same
-- bytes to every player's stream.
pub record Called (c : CachedGameSync) (raw : List PlayerOutput) (added : Bytes)
    (rs : List CachedPlayerOutput) (c' : CachedGameSync) : Type 0 where
  pub valid : IsValid c'
  pub delays : c'.sync.player_delays ≡ c.sync.player_delays
  pub decodes :
      (p : ℕ)
      → p < length c.sync.player_delays
      → received p (cache c.output_caches p).slots rs
        ≡ some (sent_to p raw, (cache c'.output_caches p).slots)
  pub streams :
      (p : ℕ)
      → p < length c.sync.player_delays
      → output_of p raw ++ concat (queue c'.sync.sender_buffer p)
        ≡ concat (queue c.sync.sender_buffer p) ++ added

-- A conversion of what the engine put out, from a state that differs in the engine and in the
-- input caches.
Converted-Called :
    (c d c' : CachedGameSync) (raw : List PlayerOutput) (added : Bytes)
    (rs : List CachedPlayerOutput)
    → IsValid c
    → Invariant.IsValid d.sync
    → AllInv d.input_caches
    → length d.input_caches ≡ length c.input_caches
    → d.output_caches ≡ c.output_caches
    → d.disable_output_cache ≡ false
    → InStep c.sync added (raw, d.sync)
    → Converted d raw rs c'
    → Called c raw added rs c'
Converted-Called c d c' raw added rs v w i l o m k x = record {
  valid = record {
    engine = subst Invariant.IsValid (sym x.engine) w;
    outputs = x.size ∙ ap length o ∙ v.outputs ∙ ap length (sym delays);
    inputs = ap length x.inputs ∙ l ∙ v.inputs ∙ ap length (sym delays);
    output_valid = x.valid;
    input_valid = subst AllInv (sym x.inputs) i;
    mode = x.mode ∙ m;
  };
  delays = delays;
  decodes = λ p h.
      subst
        (λ (z : List InputCache).
          received p (cache z p).slots rs ≡ some (sent_to p raw, (cache c'.output_caches p).slots))
        o (x.decodes p (rw o (omega (arith, v.outputs))));
  streams = λ p h.
      ap (λ (z : SimplestGameSync). output_of p raw ++ concat (queue z.sender_buffer p)) x.engine
      ∙ k.streams p h;
}
  where
    delays : c'.sync.player_delays ≡ c.sync.player_delays
    delays = ap (λ (z : SimplestGameSync). z.player_delays) x.engine ∙ k.delays

-- What the resolution of an input leaves of the input caches.
pub resolve_lem :
    (caches : List InputCache) (i : ℕ) (input : ClientInput) (r : Bytes × List InputCache)
    → AllInv caches
    → resolve caches i input ≡ ok r
    → AllInv r.1 × (length r.1 ≡ length caches)
unfolding resolve
resolve_lem caches i (ClientInput.game_data bytes) r v e =
    let z : set caches i (push (cache caches i) bytes).0 ≡ r.1 = cc in
    rw (← z) (
      set-AllInv caches i (push (cache caches i) bytes).0 v (push-Inv (cache caches i) bytes (v i)),
      length-set caches i (push (cache caches i) bytes).0,
    )
resolve_lem caches i (ClientInput.game_cache pos) r v e =
    elim (Option-cases (get (cache caches i) pos)) [
      | inl none_there ↦
          let z : err (cache_position_not_found i pos) ≡ ok r = rw (none_there, resolve) at e in cc
      | inr (bytes, there) ↦
          let z : ok (bytes, caches) ≡ ok r = rw (there, resolve) at e in
          let y : caches ≡ r.1 = cc in rw (← y) (v, refl)
    ]

-- Every call that returns is decoded by all clients, and adds the same bytes to all streams.
pub process_client_input-Called :
    (c : CachedGameSync) (i : ℕ) (input : ClientInput) (r : Reply × CachedGameSync)
    → IsValid c
    → process_client_input c i input ≡ ok r
    → (raw : List PlayerOutput) × (added : Bytes) × Called c raw added r.0.0 r.1
unfolding process_client_input
process_client_input-Called c i input r v e = elim (Bool-cases (leb (player_count c) i)) [
  | inl out ↦
      let z : err (invalid_player_id i (player_count c)) ≡ ok r =
        rw (out, process_client_input) at e in
      cc
  | inr inside ↦
      let (a, p, e₁) =
        >>=-eq-ok (resolve c.input_caches i input) _ (rw (inside, process_client_input) at e) in
      let (b, q, e₂) = >>=-eq-ok (Core.process_client_input c.sync i a.0) _ e₁ in
      let (added, k, w) =
        Kept-ok c.sync b
          (subst (Kept c.sync) q (process_client_input-Kept c.sync i a.0 v.engine)) in
      let (m, n) = resolve_lem c.input_caches i input a v.input_valid p in
      let d : CachedGameSync = record c { sync = b.1; input_caches = a.1 } in
      let x = convert-Converted d false none b.0 v.output_valid v.mode in
      let z : convert d false none b.0 ≡ r = cc in
      (
        b.0,
        added,
        subst (λ y. Called c b.0 added y.0.0 y.1) z
            (Converted-Called c d _ b.0 added _ v w m n refl v.mode k x),
      )
]

pub mark_player_dropped-Called :
    (c : CachedGameSync) (i : ℕ) (r : List CachedPlayerOutput × CachedGameSync)
    → IsValid c
    → mark_player_dropped c i ≡ ok r
    → (raw : List PlayerOutput) × (added : Bytes) × Called c raw added r.0 r.1
unfolding mark_player_dropped
mark_player_dropped-Called c i r v e =
    let (b, q, e₁) = >>=-eq-ok (Core.mark_player_dropped c.sync i) _ e in
    let (added, k, w) =
      Kept-ok c.sync b (subst (Kept c.sync) q (mark_player_dropped-Kept c.sync i v.engine)) in
    let d : CachedGameSync = record c { sync = b.1 } in
    let x = convert-Converted d false none b.0 v.output_valid v.mode in
    let z : ((convert d false none b.0).0.0, (convert d false none b.0).1) ≡ r = cc in
    (
      b.0,
      added,
      subst (λ y. Called c b.0 added y.0 y.1) z
          (Converted-Called c d _ b.0 added _ v w v.input_valid refl refl v.mode k x),
    )

-- Game data of a player in range is always served.
pub process_client_input-serves :
    (c : CachedGameSync) (i : ℕ) (bytes : Bytes)
    → IsValid c
    → i < length c.sync.player_delays
    → (r : Reply × CachedGameSync) × (process_client_input c i (ClientInput.game_data bytes) ≡ ok r)
unfolding process_client_input
process_client_input-serves c i bytes v h =
    let in_range : leb (length c.sync.player_delays) i ≡ false = ground arith in
    let (b, e, w) = Total.process_client_input-total c.sync i bytes v.engine h in
    (
      convert
          (record c {
            sync = b.1;
            input_caches = set c.input_caches i (push (cache c.input_caches i) bytes).0;
          })
          false none b.0,
      rw in_range (rw e refl),
    )

-- So is the drop of a player in range.
pub mark_player_dropped-serves :
    (c : CachedGameSync) (i : ℕ)
    → IsValid c
    → i < length c.sync.player_delays
    → (r : List CachedPlayerOutput × CachedGameSync) × (mark_player_dropped c i ≡ ok r)
unfolding mark_player_dropped
mark_player_dropped-serves c i v h =
    let (b, e, w) = Total.mark_player_dropped-total c.sync i v.engine h in
    let y = convert (record c { sync = b.1 }) false none b.0 in ((y.0.0, y.1), rw e refl)

-- In a valid state with the output cache in use, game data of a player in range is served; all clients decode the responses to the engine's
-- outputs, and the outputs add the same bytes to every player's stream.
pub process_client_input-decoded :
    (c : CachedGameSync) (i : ℕ) (bytes : Bytes)
    → IsValid c
    → i < length c.sync.player_delays
    → (r : Reply × CachedGameSync) × (raw : List PlayerOutput) × (added : Bytes)
      × (process_client_input c i (ClientInput.game_data bytes) ≡ ok r)
      × Called c raw added r.0.0 r.1
process_client_input-decoded c i bytes v h =
    let (r, e) = process_client_input-serves c i bytes v h in
    let (raw, added, w) = process_client_input-Called c i (ClientInput.game_data bytes) r v e in
    (r, raw, added, e, w)
