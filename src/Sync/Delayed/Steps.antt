-- ===== src/Sync/Delayed/Steps.antt =====
-- The calls on `DelayedGameSync`, as one relation.
use direlera_rs.Prelude.{
  ℕ, ◌<◌, ◌≡◌, List, [], ◌∷◌, Bytes, arith, length, get_or, Bool-cases, inl, inr, ap, ◌∙◌, sym,
  subst, length-set, leb, ltb,
}
use direlera_rs.Sync.Outcome.{invalid_player_id, ok, err, >>=-eq-ok}
use direlera_rs.Sync.Cache.{InputCache}
use direlera_rs.Sync.Core.{PlayerOutput}
use direlera_rs.Sync.Cached.{
  CachedGameSync, CachedPlayerOutput, ClientInput, Reply, cache, make_cached_output, resolve,
}
use direlera_rs.Sync.Cached
use direlera_rs.Sync.Cached.Invariant.{AllInv}
use direlera_rs.Sync.Cached.Calls
use direlera_rs.Sync.Cached.Calls.{
  Called, process_client_input-Called, mark_player_dropped-Called, resolve_lem,
}
use direlera_rs.Sync.Delayed.{
  DelayedGameSync, noted, zero_frame, warm_up, warming, deliver, process_client_input, cleared,
  mark_player_dropped,
}
use direlera_rs.Sync.Delayed.Calls.{delays, IsValid, Served, engine-Served, catch_up-Served}
use direlera_rs.Sync.Delayed.Warmup.{warm_up-Served}

-- A call on `DelayedGameSync`, as one relation.
abbrev pub Serves : DelayedGameSync → List CachedPlayerOutput → DelayedGameSync → Type 0
Serves d rs d' = (zs es os : List PlayerOutput) × (added : Bytes) × Served d zs es os added rs d'

deliver-Serves :
    (d : DelayedGameSync) (i : ℕ) (bytes : Bytes) (r : Reply × DelayedGameSync)
    → IsValid d
    → i < length (delays d)
    → deliver d i bytes ≡ ok r
    → Serves d r.0.0 r.1
unfolding deliver
deliver-Serves d i bytes r v h e = elim (Bool-cases (warming d i)) [
  | inl w ↦
      let z : ok (warm_up d i bytes) ≡ ok r = rw (w, deliver) at e in
      let y : warm_up d i bytes ≡ r = cc in
      let o : PlayerOutput = record { player_id = i; output = zero_frame d } in
      (
        o ∷ [],
        [],
        o ∷ [],
        [],
        subst (λ q. Served d (o ∷ []) [] (o ∷ []) [] q.0.0 q.1) y (warm_up-Served d i bytes v h w),
      )
  | inr done ↦
      let (es, added, s) =
        catch_up-Served d i bytes (get_or d.queues i []) r v (rw (done, deliver) at e) in
      ([], es, es, added, s)
]

noted-IsValid :
    (d : DelayedGameSync) (caches : List InputCache) (bytes : Bytes)
    → IsValid d
    → AllInv caches
    → length caches ≡ length d.input_caches
    → IsValid (noted d caches bytes)
noted-IsValid d caches bytes v a l = record {
  inner = v.inner;
  count = v.count;
  inputs = l ∙ v.inputs;
  input_valid = a;
  queued = v.queued;
  sent = v.sent;
  totals = v.totals;
  warm = v.warm;
}

-- What holds of a call from the noted state holds of it from the state before.
noted-Serves :
    (d : DelayedGameSync) (caches : List InputCache) (bytes : Bytes) (rs : List CachedPlayerOutput)
    (d' : DelayedGameSync)
    → Serves (noted d caches bytes) rs d'
    → Serves d rs d'
noted-Serves d caches bytes rs d' (zs, es, os, added, s) = (
  zs,
  es,
  os,
  added,
  record {
    valid = s.valid;
    same_delays = s.same_delays;
    same_totals = s.same_totals;
    merge = s.merge;
    zeros = s.zeros;
    counted = s.counted;
    decodes = s.decodes;
    streams = s.streams;
  },
)

cleared_keeps :
    (d : DelayedGameSync) (i : ℕ)
    → ((cleared d i).total_delays ≡ d.total_delays) × ((cleared d i).warmup_sent ≡ d.warmup_sent)
cleared_keeps d i = ground arith

cleared-IsValid :
    (d : DelayedGameSync) (i : ℕ) (c : CachedGameSync)
    → IsValid d
    → Calls.IsValid c
    → c.sync.player_delays ≡ delays d
    → IsValid (record (cleared d i) { inner = c })
cleared-IsValid d i c v w e = elim (Bool-cases (ltb i d.player_count)) [
  | inl inside ↦ rw inside (record {
    inner = w;
    count = v.count ∙ ap length (sym e);
    inputs = v.inputs;
    input_valid = v.input_valid;
    queued = length-set d.queues i [] ∙ v.queued;
    sent = v.sent;
    totals = v.totals;
    warm = v.warm;
  })
  | inr outside ↦ rw outside (record {
    inner = w;
    count = v.count ∙ ap length (sym e);
    inputs = v.inputs;
    input_valid = v.input_valid;
    queued = v.queued;
    sent = v.sent;
    totals = v.totals;
    warm = v.warm;
  })
]

pub process_client_input-Serves :
    (d : DelayedGameSync) (i : ℕ) (input : ClientInput) (r : Reply × DelayedGameSync)
    → IsValid d
    → process_client_input d i input ≡ ok r
    → Serves d r.0.0 r.1
unfolding process_client_input
process_client_input-Serves d i input r v e = elim (Bool-cases (leb d.player_count i)) [
  | inl out ↦
      let z : err (invalid_player_id i d.player_count) ≡ ok r =
        rw (out, process_client_input) at e in
      cc
  | inr inside ↦
      let (a, p, e₁) =
        >>=-eq-ok (resolve d.input_caches i input) _ (rw (inside, process_client_input) at e) in
      let (m, n) = resolve_lem d.input_caches i input a v.input_valid p in
      noted-Serves d a.1 a.0 r.0.0 r.1 (
        deliver-Serves (noted d a.1 a.0) i a.0 r (noted-IsValid d a.1 a.0 v m n)
          (let c = v.count in ground arith) e₁)
]

pub mark_player_dropped-Serves :
    (d : DelayedGameSync) (i : ℕ) (r : List CachedPlayerOutput × DelayedGameSync)
    → IsValid d
    → mark_player_dropped d i ≡ ok r
    → Serves d r.0 r.1
unfolding mark_player_dropped
mark_player_dropped-Serves d i r v e =
    let (a, p, e₁) = >>=-eq-ok (Cached.mark_player_dropped d.inner i) _ e in
    let (es, added, c) = mark_player_dropped-Called d.inner i a v.inner p in
    let z : (a.0, record (cleared d i) { inner = a.1 }) ≡ r = cc in
    (
      [],
      es,
      es,
      added,
      subst (λ y. Served d [] es es added y.0 y.1) z
          (engine-Served d (record (cleared d i) { inner = a.1 }) es added a.0
            (cleared-IsValid d i a.1 v c.valid c.delays) (cleared_keeps d i).0 (cleared_keeps d i).1
            c),
    )
