-- ===== src/Sync/Cache/Offsets.antt =====
-- The absolute indices that a slot list gives a byte string, and the linear scans that the index
-- map stands for.
use direlera_rs.Prelude.{
  ℕ, suc, ◌+◌, ◌≤◌, ◌<◌, ◌%◌, ◌^◌, ◌≡◌, refl, Option, none, some, List, [], ◌∷◌, ◌++◌, Bytes, arith,
  length, last?, last?-cons, bytes_eq, if◌then◌else◌,
}

-- The absolute indices of the slots that hold `d`, oldest first, where the first slot has index `a`.
abbrev pub offsets : Bytes → List Bytes → ℕ → List ℕ
offsets d [] a = []
offsets d (x ∷ xs) a =
    if bytes_eq x d then a ∷ offsets d xs ((a + 1) % 2 ^ 64) else offsets d xs ((a + 1) % 2 ^ 64)

-- The newest slot that holds `d`, by a scan over the slots.
abbrev pub rposition : Bytes → List Bytes → Option ℕ
rposition d [] = none
rposition d (x ∷ xs) = elim (rposition d xs) [
  | some i ↦ some (suc i)
  | none ↦ if bytes_eq x d then some 0 else none
]

pub offsets-append :
    (d x : Bytes) (xs : List Bytes) (a : ℕ)
    → a < 2 ^ 64
    → offsets d (xs ++ x ∷ []) a
      ≡ offsets d xs a ++ (if bytes_eq x d then ((a + length xs) % 2 ^ 64) ∷ [] else [])
offsets-append d x [] a h = ground arith
offsets-append d x (y ∷ ys) a h = ground (arith, offsets-append d x ys ((a + 1) % 2 ^ 64))

-- The newest index, taken relative to the first, is the position that the scan finds.
pub last?-offsets :
    (d : Bytes) (xs : List Bytes) (a : ℕ)
    → a < 2 ^ 64
    → length xs ≤ 256
    → last? (offsets d xs a)
      ≡ elim (rposition d xs) [ none ↦ none | some i ↦ some ((a + i) % 2 ^ 64) ]
last?-offsets d [] a h k = refl
last?-offsets d (x ∷ xs) a h k =
    ground
      (arith, last?-cons a (offsets d xs ((a + 1) % 2 ^ 64)), last?-offsets d xs ((a + 1) % 2 ^ 64))
