-- ===== src/Sync/Core/Chunks.antt =====
-- The chunks of an input of `SimplestGameSync`, put together again.
use direlera_rs.Prelude.{
  ℕ, zero, suc, ◌≤◌, ◌<◌, ◌≡◌, refl, List, [], ◌∷◌, ◌++◌, Bytes, arith, length, take, drop, concat,
  take-append-drop, length-drop, length-take, ap, ◌∙◌,
}
use direlera_rs.Sync.Core.{chunks, chunks_from}

concat-chunks_from :
    (f size : ℕ) (xs : Bytes) → 0 < size → length xs ≤ f → concat (chunks_from f size xs) ≡ xs
unfolding chunks_from
concat-chunks_from zero size [] h k = refl
concat-chunks_from zero size (x ∷ xs) h k = absurd (omega arith)
concat-chunks_from (suc f) size [] h k = refl
concat-chunks_from (suc f) size (x ∷ xs) h k =
    ap (◌++◌ (take size (x ∷ xs)))
      (concat-chunks_from f size (drop size (x ∷ xs)) h (omega (arith, length-drop size (x ∷ xs))))
    ∙ take-append-drop size (x ∷ xs)

pub concat-chunks : (size : ℕ) (xs : Bytes) → 0 < size → concat (chunks size xs) ≡ xs
unfolding chunks
concat-chunks size xs h = concat-chunks_from (length xs) size xs h (omega arith)

-- All chunks have the given size, except that the last one may be shorter, but not empty.
abbrev pub IsSplit : ℕ → List Bytes → Type 0
IsSplit size [] = Unit
IsSplit size (c ∷ []) = (0 < length c) × (length c ≤ size)
IsSplit size (c ∷ d ∷ cs) = (length c ≡ size) × IsSplit size (d ∷ cs)

IsSplit-next :
    (f size : ℕ) (c xs : Bytes)
    → 0 < length c
    → length c ≤ size
    → (0 < length xs → length c ≡ size)
    → IsSplit size (chunks_from f size xs)
    → IsSplit size (c ∷ chunks_from f size xs)
unfolding chunks_from
IsSplit-next zero size c xs h k full v = (h, k)
IsSplit-next (suc f) size c [] h k full v = (h, k)
IsSplit-next (suc f) size c (x ∷ xs) h k full v = (full (omega arith), v)

chunks_from-IsSplit : (f size : ℕ) (xs : Bytes) → 0 < size → IsSplit size (chunks_from f size xs)
unfolding chunks_from
chunks_from-IsSplit zero size xs h = tt
chunks_from-IsSplit (suc f) size [] h = tt
chunks_from-IsSplit (suc f) size (x ∷ xs) h =
    let n = length-take size (x ∷ xs) in
    let m = length-drop size (x ∷ xs) in
    IsSplit-next f size (take size (x ∷ xs)) (drop size (x ∷ xs)) (grind arith) (grind arith)
      (λ k. grind arith) (chunks_from-IsSplit f size (drop size (x ∷ xs)) h)

pub chunks-IsSplit : (size : ℕ) (xs : Bytes) → 0 < size → IsSplit size (chunks size xs)
unfolding chunks
chunks-IsSplit size xs h = chunks_from-IsSplit (length xs) size xs h
