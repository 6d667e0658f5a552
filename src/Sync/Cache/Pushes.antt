-- ===== src/Sync/Cache/Pushes.antt =====
-- What `push` of `InputCache` keeps of a history of inputs.
use direlera_rs.Prelude.{
  ℕ, zero, suc, ◌-◌, ◌≤◌, ◌<◌, ◌≡◌, refl, ap, subst, ◌∙◌, Bool, false, List, [], ◌∷◌, ◌++◌, Bytes,
  arith, length, drop, leb, length-append, length-drop, append_assoc, append-nil, Bool-cases, inl,
  inr,
}
use direlera_rs.Sync.Cache.{InputCache, empty, push, is_full}
use direlera_rs.Sync.Cache.Find.{fifo_push, push-fifo}

-- Pushes one after the other, and whether the last one evicted an input.
pub push_all : InputCache × Bool → List Bytes → InputCache × Bool
push_all r [] = r
push_all r (x ∷ xs) = push_all (push r.0 x) xs

drop-append_left :
    (k : ℕ) (xs ys : List Bytes) → k ≤ length xs → drop k (xs ++ ys) ≡ drop k xs ++ ys
drop-append_left zero xs ys h = refl
drop-append_left (suc k) [] ys h = absurd (omega arith)
drop-append_left (suc k) (x ∷ xs) ys h = drop-append_left k xs ys (omega arith)

drop-drop_one : (k : ℕ) (xs : List Bytes) → drop 1 (drop k xs) ≡ drop (suc k) xs
drop-drop_one zero xs = refl
drop-drop_one (suc k) [] = refl
drop-drop_one (suc k) (x ∷ xs) = drop-drop_one k xs

-- One more input on the newest 256 of a history gives the newest 256.
fifo_push-newest :
    (xs : List Bytes) (x : Bytes)
    → fifo_push (drop (length xs - 256) xs) x ≡ drop (length (xs ++ x ∷ []) - 256) (xs ++ x ∷ [])
fifo_push-newest xs x =
    let n = length-append xs (x ∷ []) in
    let m = length-drop (length xs - 256) xs in
    elim (Bool-cases (leb 256 (length (drop (length xs - 256) xs)))) [
      | inl full ↦
          let h : 256 ≤ length xs = ground arith in
          let z : length (xs ++ x ∷ []) - 256 ≡ suc (length xs - 256) = omega arith in
          rw
            (
              full,
              z,
              drop-drop_one (length xs - 256) xs,
              drop-append_left (suc (length xs - 256)) xs (x ∷ []) (omega arith),
            )
            refl
      | inr room ↦
          let h : length xs < 256 = ground arith in
          let z : length (xs ++ x ∷ []) - 256 ≡ 0 = omega arith in
          let y : length xs - 256 ≡ 0 = omega arith in
          let r : leb 256 (length xs) ≡ false = ground arith in rw (z, y, r) refl
    ]

-- The newest 256 of the inputs given, in order, and whether the last one evicted one.
abbrev pub HoldsNewest : InputCache × Bool → List Bytes → Type 0
HoldsNewest r past = (r.0.slots ≡ drop (length past - 256) past) × (r.1 ≡ leb 257 (length past))

full-past :
    (c : InputCache) (past : List Bytes) (x : Bytes)
    → c.slots ≡ drop (length past - 256) past
    → is_full c ≡ leb 257 (length (past ++ x ∷ []))
full-past c past x e =
    let n = length-append past (x ∷ []) in
    let m = length-drop (length past - 256) past in
    elim (Bool-cases (leb 257 (length (past ++ x ∷ [])))) [
      | inl h ↦ rw (e, h) (ground arith)
      | inr h ↦ rw (e, h) (ground arith)
    ]

push-newest :
    (r : InputCache × Bool) (past : List Bytes) (x : Bytes)
    → HoldsNewest r past
    → HoldsNewest (push r.0 x) (past ++ x ∷ [])
push-newest r past x v =
    let p = push-fifo r.0 x in
    (p.0 ∙ (ap (λ s. fifo_push s x) v.0 ∙ fifo_push-newest past x), p.1 ∙ full-past r.0 past x v.0)

push_all-after :
    (r : InputCache × Bool) (past xs : List Bytes)
    → HoldsNewest r past
    → HoldsNewest (push_all r xs) (past ++ xs)
unfolding push_all
push_all-after r past [] v = rw (append-nil past) v
push_all-after r past (x ∷ xs) v =
    subst (HoldsNewest (push_all (push r.0 x) xs)) (append_assoc past (x ∷ []) xs)
      (push_all-after (push r.0 x) (past ++ x ∷ []) xs (push-newest r past x v))

-- Whatever inputs are pushed into an empty cache, one after the other, its slots are the newest 256 of
-- them, the oldest first, and the last push says that it evicted one where there were more than 256.
pub push_all-newest :
    (xs : List Bytes)
    → ((push_all (empty, false) xs).0.slots ≡ drop (length xs - 256) xs)
      × ((push_all (empty, false) xs).1 ≡ leb 257 (length xs))
unfolding empty
push_all-newest xs = push_all-after (empty, false) [] xs (refl, refl)
