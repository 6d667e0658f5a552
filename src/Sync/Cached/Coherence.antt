-- ===== src/Sync/Cached/Coherence.antt =====
-- The output caches of the server and of the clients, over the outputs of a call.
use direlera_rs.Prelude.{
  ℕ, ◌<◌, ◌≡◌, refl, Bool, false, Option, some, List, [], ◌∷◌, arith, length, ◌==◌, Bool-cases, inl,
  inr, ◌∙◌, ◌||◌, subst,
}
use direlera_rs.Sync.Core.{PlayerOutput}
use direlera_rs.Sync.Cached.{
  CachedGameSync, CachedPlayerOutput, ServerResponse, cache, make_cached_output, convert,
  or_earlier,
}
use direlera_rs.Sync.Cached.Decode.{decode_client_output, received, sent_to}
use direlera_rs.Sync.Cached.Invariant.{AllInv, Stored, make_cached_output-Stored}

-- What a conversion of raw outputs has done, for a client `p` whose cache equals the server's.
pub record Converted (c : CachedGameSync) (os : List PlayerOutput) (rs : List CachedPlayerOutput)
    (c' : CachedGameSync) : Type 0 where
  pub decodes :
      (p : ℕ)
      → p < length c.output_caches
      → received p (cache c.output_caches p).slots rs
        ≡ some (sent_to p os, (cache c'.output_caches p).slots)
  pub size : length c'.output_caches ≡ length c.output_caches
  pub mode : c'.disable_output_cache ≡ c.disable_output_cache
  pub valid : AllInv c'.output_caches
  pub engine : c'.sync ≡ c.sync
  pub inputs : c'.input_caches ≡ c.input_caches

nil-Converted : (c : CachedGameSync) → AllInv c.output_caches → Converted c [] [] c
unfolding received
nil-Converted c v = record {
  decodes = λ p h. refl;
  size = refl;
  mode = refl;
  valid = v;
  engine = refl;
  inputs = refl;
}

cons-Converted :
    (c : CachedGameSync) (o : PlayerOutput) (os : List PlayerOutput)
    (r : (ServerResponse × Bool × Option ℕ) × CachedGameSync) (rs : List CachedPlayerOutput)
    (c' : CachedGameSync)
    → Stored c o.player_id o.output r
    → Converted r.1 os rs c'
    → Converted c (o ∷ os) (record { player_id = o.player_id; response = r.0.0 } ∷ rs) c'
unfolding received
cons-Converted c o os r rs c' v w = record {
  decodes = decodes;
  size = w.size ∙ v.size;
  mode = w.mode ∙ v.mode;
  valid = w.valid;
  engine = w.engine ∙ v.engine;
  inputs = w.inputs ∙ v.inputs;
}
  where
    decodes :
        (p : ℕ)
        → p < length c.output_caches
        → received p
            (cache c.output_caches p).slots
            (record { player_id = o.player_id; response = r.0.0 } ∷ rs)
          ≡ some (sent_to p (o ∷ os), (cache c'.output_caches p).slots)
    decodes p h = elim (Bool-cases (o.player_id == p)) [
      | inr other ↦ rw (other, ← v.others p (ground arith)) (w.decodes p (rw v.size h))
      | inl own ↦
          let k : o.player_id ≡ p = ground arith in
          let d : decode_client_output (cache c.output_caches p).slots r.0.0
              ≡ some (o.output, (cache r.1.output_caches p).slots) =
            subst
              (λ i.
                decode_client_output (cache c.output_caches i).slots r.0.0
                ≡ some (o.output, (cache r.1.output_caches i).slots))
              k (v.decodes (rw k h)) in
          rw (own, d) (rw (w.decodes p (rw v.size h)) refl)
    ]

-- With the output cache in use and all caches valid, the conversion of raw outputs gives responses
-- that each client, whose list of entries is the server's cache of that player, decodes to exactly
-- the outputs made for it, in order; its entries and the server's are then equal again.
pub convert-Converted :
    (c : CachedGameSync) (overflowed : Bool) (crossed : Option ℕ) (os : List PlayerOutput)
    → AllInv c.output_caches
    → c.disable_output_cache ≡ false
    → Converted c os (convert c overflowed crossed os).0.0 (convert c overflowed crossed os).1
unfolding convert
convert-Converted c overflowed crossed [] v mode = nil-Converted c v
convert-Converted c overflowed crossed (o ∷ os) v mode =
    let r = make_cached_output c o.player_id o.output in
    let s = make_cached_output-Stored c o.player_id o.output v mode in
    cons-Converted c o os r _ _ s (
      convert-Converted r.1 (r.0.1 || overflowed) (or_earlier r.0.2 crossed) os s.valid
        (s.mode ∙ mode))

-- A single output.
pub one-Converted :
    (c : CachedGameSync) (o : PlayerOutput)
    (r : (ServerResponse × Bool × Option ℕ) × CachedGameSync)
    → Stored c o.player_id o.output r
    → Converted c (o ∷ []) (record { player_id = o.player_id; response = r.0.0 } ∷ []) r.1
one-Converted c o r v = cons-Converted c o [] r [] r.1 v (nil-Converted r.1 v.valid)
