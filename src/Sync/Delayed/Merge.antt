-- ===== src/Sync/Delayed/Merge.antt =====
-- Outputs of `DelayedGameSync` that are merged from startup frames and outputs of the engine.
use direlera_rs.Prelude.{ℕ, ◌≡◌, List, [], ◌∷◌, ◌++◌, All}
use direlera_rs.Sync.Core.{PlayerOutput}

pub data Merge : List PlayerOutput → List PlayerOutput → List PlayerOutput → Type 0 where
  nil : Merge [] [] []
  startup :
      {zs es os : List PlayerOutput} (o : PlayerOutput)
      → Merge zs es os
      → Merge (o ∷ zs) es (o ∷ os)
  engine :
      {zs es os : List PlayerOutput} (o : PlayerOutput)
      → Merge zs es os
      → Merge zs (o ∷ es) (o ∷ os)

pub all_engine : (es : List PlayerOutput) → Merge [] es es
all_engine [] = nil
all_engine (o ∷ es) = engine o (all_engine es)

pub Merge-append :
    {zs es os ys ds ps : List PlayerOutput}
    → Merge zs es os
    → Merge ys ds ps
    → Merge (zs ++ ys) (es ++ ds) (os ++ ps)
Merge-append nil n = n
Merge-append (startup o m) n = startup o (Merge-append m n)
Merge-append (engine o m) n = engine o (Merge-append m n)

-- An output of zeros only.
abbrev pub IsZeroFrame : PlayerOutput → Type 0
IsZeroFrame o = All (λ (b : ℕ). b ≡ 0) o.output

pub All-append {ℓ κ} :
    {A : Type ℓ} (P : A → Type κ) (xs ys : List A) → All P xs → All P ys → All P (xs ++ ys)
All-append P [] ys h k = k
All-append P (x ∷ xs) ys h k = (h.0, All-append P xs ys h.1 k)
