-- ===== src/Sync/Core/FlushAll.antt =====
-- The loop of `drain_ready_inputs` over the send buffers.
use direlera_rs.Prelude.{
  ℕ, zero, suc, ◌+◌, ◌*◌, ◌<◌, ◌≡◌, refl, List, [], ◌∷◌, ◌++◌, arith, length, concat, get_or, ap,
  inl, inr, append-nil, subst,
}
use direlera_rs.Sync.Outcome.{ok, loops, >>=-eq-ok}
use direlera_rs.Sync.Core.{OneInput, PlayerOutput, flush, flush_all}
use direlera_rs.Sync.Core.Flush.{
  output_of, output_of-append, Flushed, flush-Flushed, flush-total, flush-zero-loops,
  flush-ok-or-loops,
}

-- What the loop over the buffers has done, from player `i` on.
pub record FlushedAll (i : ℕ) (delays : List ℕ) (players : ℕ) (bs : List (List OneInput))
    (r : List PlayerOutput × List (List OneInput)) : Type 0 where
  pub size : length r.1 ≡ length bs
  pub before : (p : ℕ) → p < i → output_of p r.0 ≡ []
  pub streams :
      (p j : ℕ)
      → p ≡ i + j
      → j < length bs
      → output_of p r.0 ++ concat (get_or r.1 j []) ≡ concat (get_or bs j [])
  pub short :
      (p j : ℕ) → p ≡ i + j → j < length bs → length (get_or r.1 j []) < get_or delays p 0 * players

module _ (i : ℕ) (delays : List ℕ) (players : ℕ) where
  nil-FlushedAll : FlushedAll i delays players [] ([], [])
  nil-FlushedAll = record {
    size = refl;
    before = λ p h. refl;
    streams = λ p j e h. absurd (omega arith);
    short = λ p j e h. absurd (omega arith);
  }

  cons-FlushedAll :
      (b : List OneInput) (bs : List (List OneInput)) (r : List PlayerOutput × List OneInput)
      (rs : List PlayerOutput × List (List OneInput))
      → Flushed (get_or delays i 0 * players) i b r
      → FlushedAll (suc i) delays players bs rs
      → FlushedAll i delays players (b ∷ bs) (r.0 ++ rs.0, r.1 ∷ rs.1)
  cons-FlushedAll b bs r rs v vs = record {
    size = ap suc vs.size;
    before = λ p h.
        rw (output_of-append p r.0 rs.0, v.others p (omega arith), vs.before p (omega arith)) refl;
    streams = streams;
    short = short;
  }
    where
      streams :
          (p j : ℕ)
          → p ≡ i + j
          → j < length (b ∷ bs)
          → output_of p (r.0 ++ rs.0) ++ concat (get_or (r.1 ∷ rs.1) j [])
            ≡ concat (get_or (b ∷ bs) j [])
      streams p zero e h =
          let e' : p ≡ i = omega arith in
          rw (e', output_of-append i r.0 rs.0, vs.before i (omega arith), append-nil) v.own
      streams p (suc j) e h =
          rw (output_of-append p r.0 rs.0, v.others p (omega arith))
            (vs.streams p j (omega arith) (omega arith))

      short :
          (p j : ℕ)
          → p ≡ i + j
          → j < length (b ∷ bs)
          → length (get_or (r.1 ∷ rs.1) j []) < get_or delays p 0 * players
      short p zero e h = let e' : p ≡ i = omega arith in rw e' v.short
      short p (suc j) e h = vs.short p j (omega arith) (omega arith)

pub flush_all-FlushedAll :
    (i : ℕ) (delays : List ℕ) (players : ℕ) (bs : List (List OneInput))
    (r : List PlayerOutput × List (List OneInput))
    → flush_all i delays players bs ≡ ok r
    → FlushedAll i delays players bs r
unfolding flush_all
flush_all-FlushedAll i delays players [] r e =
    let q : ([], []) ≡ r = cc in
    subst (FlushedAll i delays players []) q (nil-FlushedAll i delays players)
flush_all-FlushedAll i delays players (b ∷ bs) r e =
    let (a, p, e₁) = >>=-eq-ok (flush (suc (length b)) (get_or delays i 0 * players) i b) _ e in
    let (as', ps, e₂) = >>=-eq-ok (flush_all (suc i) delays players bs) _ e₁ in
    let q : (a.0 ++ as'.0, a.1 ∷ as'.1) ≡ r = cc in
    subst (FlushedAll i delays players (b ∷ bs)) q (
      cons-FlushedAll i delays players b bs a as'
        (flush-Flushed (suc (length b)) (get_or delays i 0 * players) i b a p)
        (flush_all-FlushedAll (suc i) delays players bs as' ps))

-- Every buffer's loop ends where every player's output takes at least one input.
pub flush_all-total :
    (i : ℕ) (delays : List ℕ) (players : ℕ) (bs : List (List OneInput))
    → ((p j : ℕ) → p ≡ i + j → j < length bs → 0 < get_or delays p 0 * players)
    → (r : List PlayerOutput × List (List OneInput)) × (flush_all i delays players bs ≡ ok r)
unfolding flush_all
flush_all-total i delays players [] h = (([], []), refl)
flush_all-total i delays players (b ∷ bs) h =
    let (a, e) =
      flush-total (suc (length b)) (get_or delays i 0 * players) i b
        (h i 0 (omega arith) (omega arith)) (omega arith) in
    let (as', es) =
      flush_all-total (suc i) delays players bs
        (λ p j q k. h p (suc j) (omega arith) (omega arith)) in
    ((a.0 ++ as'.0, a.1 ∷ as'.1), rw (e, es))

-- One player whose output takes no input keeps the loop over the buffers from returning.
pub flush_all-loops :
    (i p j : ℕ) (delays : List ℕ) (players : ℕ) (bs : List (List OneInput))
    → p ≡ i + j
    → j < length bs
    → get_or delays p 0 * players ≡ 0
    → flush_all i delays players bs ≡ loops
unfolding flush_all
flush_all-loops i p j delays players [] e h z = absurd (omega arith)
flush_all-loops i p zero delays players (b ∷ bs) e h z =
    let e' : p ≡ i = omega arith in rw (← e', z, flush-zero-loops (suc (length b)) p b) refl
flush_all-loops i p (suc j) delays players (b ∷ bs) e h z =
    elim (flush-ok-or-loops (suc (length b)) (get_or delays i 0 * players) i b) [
      | inl (a, k) ↦
          rw (k, flush_all-loops (suc i) p j delays players bs (omega arith) (omega arith) z)
      | inr l ↦ rw l
    ]
