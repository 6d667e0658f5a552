-- ===== src/Sync/Cached/Invariant.antt =====
-- The caches of `CachedGameSync`, and one output for the client that it is meant for.
use direlera_rs.Prelude.{
  ℕ, zero, suc, ◌≤◌, ◌<◌, ◌≡◌, ◌≢◌, refl, Bool, false, Option, none, some, List, [], ◌∷◌, Bytes,
  arith, length, set, ◌==◌, Bool-cases, Option-cases, inl, inr, get_or-set_self, get_or-set_ne,
  length-set, ap, ◌∙◌, sym, replicate, get_or-replicate, ltb,
}
use direlera_rs.Sync.Cache.{InputCache, empty, find, push, get}
use direlera_rs.Sync.Cache.Invariant.{Inv, empty-Inv, push-Inv}
use direlera_rs.Sync.Cache.Find.{get-find, push-fifo}
use direlera_rs.Sync.Cached.{
  CachedGameSync, ServerResponse, cache, make_cached_output, store_output,
}
use direlera_rs.Sync.Cached.Decode.{decode_client_output}

abbrev pub AllInv : List InputCache → Type 0
AllInv cs = (j : ℕ) → Inv (cache cs j)

pub replicate-AllInv : (n : ℕ) → AllInv (replicate n empty)
replicate-AllInv n j = rw (get_or-replicate n j empty) empty-Inv

set_out_of_range : (cs : List InputCache) (i : ℕ) (c : InputCache) → length cs ≤ i → set cs i c ≡ cs
set_out_of_range [] i c h = refl
set_out_of_range (x ∷ xs) zero c h = absurd (omega arith)
set_out_of_range (x ∷ xs) (suc i) c h = ap (◌∷◌ x) (set_out_of_range xs i c (omega arith))

pub set-AllInv :
    (cs : List InputCache) (i : ℕ) (c : InputCache) → AllInv cs → Inv c → AllInv (set cs i c)
set-AllInv cs i c v w j = elim (Bool-cases (i == j)) [
  | inr ne ↦ rw (get_or-set_ne cs i j c empty (ground arith)) (v j)
  | inl e ↦ elim (Bool-cases (ltb i (length cs))) [
    | inl inside ↦
        let k : j ≡ i = ground arith in rw (k, get_or-set_self cs i c empty (ground arith)) w
    | inr outside ↦ rw (set_out_of_range cs i c (ground arith)) (v j)
  ]
]

-- What one output for player `i` does, where the output cache is in use.
pub record Stored (c : CachedGameSync) (i : ℕ) (output : Bytes)
    (r : (ServerResponse × Bool × Option ℕ) × CachedGameSync) : Type 0 where
  pub decodes :
      i < length c.output_caches
      → decode_client_output (cache c.output_caches i).slots r.0.0
        ≡ some (output, (cache r.1.output_caches i).slots)
  pub others : (j : ℕ) → i ≢ j → cache r.1.output_caches j ≡ cache c.output_caches j
  pub size : length r.1.output_caches ≡ length c.output_caches
  pub mode : r.1.disable_output_cache ≡ c.disable_output_cache
  pub valid : AllInv r.1.output_caches
  pub engine : r.1.sync ≡ c.sync
  pub inputs : r.1.input_caches ≡ c.input_caches

module _ (c : CachedGameSync) (i : ℕ) (output : Bytes) (v : AllInv c.output_caches) where
  hit-Stored :
      (p : ℕ)
      → find (cache c.output_caches i) output ≡ some p
      → Stored c i output ((ServerResponse.game_cache p, false, none), c)
  unfolding get
  hit-Stored p e = record {
    decodes = λ h.
        let g = get-find (cache c.output_caches i) output p (v i) e in
        rw (g.1, decode_client_output) refl;
    others = λ j ne. refl;
    size = refl;
    mode = refl;
    valid = v;
    engine = refl;
    inputs = refl;
  }

  miss-Stored : Stored c i output (store_output c i output)
  unfolding store_output
  miss-Stored = record {
    decodes = λ h.
        ap (λ s. some (output, s))
          (sym (
            ap (λ (x : InputCache). x.slots)
              (get_or-set_self c.output_caches i (push (cache c.output_caches i) output).0 empty h)
            ∙ (push-fifo (cache c.output_caches i) output).0));
    others = λ j ne.
        get_or-set_ne c.output_caches i j (push (cache c.output_caches i) output).0 empty ne;
    size = length-set c.output_caches i (push (cache c.output_caches i) output).0;
    mode = refl;
    valid =
        set-AllInv c.output_caches i (push (cache c.output_caches i) output).0 v
          (push-Inv (cache c.output_caches i) output (v i));
    engine = refl;
    inputs = refl;
  }

  pub make_cached_output-Stored :
      c.disable_output_cache ≡ false → Stored c i output (make_cached_output c i output)
  unfolding make_cached_output
  make_cached_output-Stored mode =
      simp mode (elim (Option-cases (find (cache c.output_caches i) output)) [
        | inl e ↦ rw (e, make_cached_output) miss-Stored
        | inr (p, e) ↦ rw (e, make_cached_output) (hit-Stored p e)
      ])
