-- ===== src/Sync/Cache/Invariant.antt =====
-- The invariant of `InputCache`.
use direlera_rs.Prelude.{
  ℕ, ◌+◌, ◌≤◌, ◌<◌, ◌%◌, ◌^◌, ◌≡◌, refl, ap, true, Option, none, some, List, [], ◌∷◌, ◌++◌, Bytes,
  arith, length, bytes_eq, bytes_eq_iff, bytes_eq_refl, bytes_Eq, if◌then◌else◌, ◌⊎◌, inl, inr,
  Bool-cases, length-append, append-nil, leb→le, leb→lt, sym,
}
use direlera_rs.Dict.{Dict, lookup, insert, lookup-insert, lookup-remove}
use direlera_rs.Sync.Cache.{
  InputCache, empty, head, push, evict, evict_front, append, is_full, forget_front, forget,
  or_default, sub_usize,
}
use direlera_rs.Sync.Cache.Offsets.{offsets, offsets-append}

-- What the index map holds for a list of indices: entries are never empty.
abbrev pub nonempty : List ℕ → Option (List ℕ)
nonempty [] = none
nonempty (i ∷ rest) = some (i ∷ rest)

-- At most 256 slots, and the map lists exactly the absolute indices of the live slots, in order.
pub record Inv (c : InputCache) : Type 0 where
  pub bounded : length c.slots ≤ 256
  pub tail_fits : c.abs_tail < 2 ^ 64
  pub indexed : (d : Bytes) → lookup d c.index_map ≡ nonempty (offsets d c.slots (head c))

pub empty-Inv : Inv empty
unfolding empty lookup
empty-Inv = record { bounded = omega arith; tail_fits = omega arith; indexed = λ d. refl }

lookup-forget_front :
    (old d : Bytes) (i : ℕ) (rest : List ℕ) (m : Dict Bytes (List ℕ))
    → lookup d (forget_front old (i ∷ rest) m)
      ≡ (if bytes_eq old d then nonempty rest else lookup d m)
lookup-forget_front old d i [] m = lookup-remove old d m
lookup-forget_front old d i (j ∷ rest) m = lookup-insert old d (j ∷ rest) m

-- Dropping the oldest slot, whose index is the first of its entry.
lookup-forget :
    (old d : Bytes) (rest : List Bytes) (h : ℕ) (m : Dict Bytes (List ℕ))
    → lookup old m ≡ nonempty (offsets old (old ∷ rest) h)
    → lookup d m ≡ nonempty (offsets d (old ∷ rest) h)
    → lookup d (forget old (lookup old m) m) ≡ nonempty (offsets d rest ((h + 1) % 2 ^ 64))
lookup-forget old d rest h m p q =
    rw (p, bytes_eq_refl old) (rw lookup-forget_front (ground (arith, bytes_eq_iff old d)))

nonempty-snoc :
    (xs : List ℕ) (i : ℕ) → nonempty (xs ++ i ∷ []) ≡ some (or_default (nonempty xs) ++ i ∷ [])
nonempty-snoc [] i = refl
nonempty-snoc (x ∷ xs) i = refl

-- A new slot, whose index is the last of its entry.
lookup-extend :
    (x d : Bytes) (slots : List Bytes) (h tail : ℕ) (m : Dict Bytes (List ℕ))
    → h < 2 ^ 64
    → (h + length slots) % 2 ^ 64 ≡ tail
    → lookup x m ≡ nonempty (offsets x slots h)
    → lookup d m ≡ nonempty (offsets d slots h)
    → lookup d (insert x (or_default (lookup x m) ++ tail ∷ []) m)
      ≡ nonempty (offsets d (slots ++ x ∷ []) h)
lookup-extend x d slots h tail m small e p q =
    rw (lookup-insert, offsets-append d x slots h small, e)
      (elim (Bool-cases (bytes_eq x d)) [
        | inl hit ↦
            rw (hit, p, ← (bytes_eq_iff x d).0 hit) (sym (nonempty-snoc (offsets x slots h) tail))
        | inr miss ↦ rw (miss, append-nil) q
      ])

module _ (c : InputCache) (v : Inv c) where
  -- Evicting the oldest slot keeps the invariant and leaves the tail alone.
  evict_front-Inv :
      (old : Bytes) (rest : List Bytes) → c.slots ≡ old ∷ rest → Inv (evict_front (old ∷ rest) c)
  evict_front-Inv old rest e = record {
    bounded = let n = ap length e in omega (arith, v.bounded);
    tail_fits = v.tail_fits;
    indexed = λ d. rw (next_head) at (
        lookup-forget old d rest (sub_usize c.abs_tail (length (old ∷ rest))) c.index_map
          (rw e at (v.indexed old)) (rw e at (v.indexed d)));
  }
    where
      next_head :
          (sub_usize c.abs_tail (length (old ∷ rest)) + 1) % 2 ^ 64
          ≡ sub_usize c.abs_tail (length rest)
      next_head = let n = ap length e in omega (arith, v.bounded, v.tail_fits)

  append-Inv : (x : Bytes) → length c.slots < 256 → Inv (append c x)
  unfolding append
  append-Inv x small = record {
    bounded = omega (arith, length-append c.slots (x ∷ []));
    tail_fits = omega arith;
    indexed = λ d. rw same_head (
        lookup-extend x d c.slots (head c) c.abs_tail c.index_map (omega arith)
          (omega (arith, v.tail_fits)) (v.indexed x) (v.indexed d));
  }
    where
      same_head : head (append c x) ≡ head c
      same_head = omega (arith, v.tail_fits, length-append c.slots (x ∷ []))

slots-cases :
    (xs : List Bytes) → (xs ≡ []) ⊎ ((old : Bytes) × (rest : List Bytes) × (xs ≡ old ∷ rest))
slots-cases [] = inl refl
slots-cases (old ∷ rest) = inr (old, rest, refl)

-- A full cache is not empty, so the eviction makes room.
evict-Inv :
    (c : InputCache) → Inv c → is_full c ≡ true → Inv (evict c) × (length (evict c).slots < 256)
unfolding evict
evict-Inv c v full = elim (slots-cases c.slots) [
  | inl e ↦ let n = ap length e in absurd (omega (arith, leb→le 256 (length c.slots) full))
  | inr (old, rest, e) ↦
      let n = ap length e in
      rw (e, evict_front) (evict_front-Inv c v old rest e, omega (arith, v.bounded))
]

-- `push` keeps the invariant, on a full cache (where it evicts the oldest slot) and on any other.
pub push-Inv : (c : InputCache) (x : Bytes) → Inv c → Inv (push c x).0
unfolding push
push-Inv c x v = elim (Bool-cases (is_full c)) [
  | inl full ↦ let r = evict-Inv c v full in rw full (append-Inv (evict c) r.0 x r.1)
  | inr room ↦ rw room (append-Inv c v x (leb→lt 256 (length c.slots) room))
]
