-- ===== src/Sync/Cache/Find.antt =====
-- `find`, `push` and `get` of `InputCache`, against the logical positions of its comments.
use direlera_rs.Prelude.{
  ℕ, zero, suc, ◌<◌, ◌≡◌, ◌≢◌, refl, ap, none, some, List, [], ◌∷◌, ◌++◌, Bytes, arith, length,
  get_elem?, bytes_eq_iff, bytes_Eq, if◌then◌else◌, inl, inr, Bool-cases, Option-cases, leb, sym,
  ◌∙◌, drop, subst,
}
use direlera_rs.Sync.Cache.{
  InputCache, head, find, find_in, push, get, append, evict, evict_front, is_full,
}
use direlera_rs.Sync.Cache.Offsets.{offsets, rposition, last?-offsets}
use direlera_rs.Sync.Cache.Invariant.{Inv, nonempty}

last?-nonempty : (c : InputCache) (xs : List ℕ) → find_in c (nonempty xs) ≡ find_in c (some xs)
last?-nonempty c [] = refl
last?-nonempty c (x ∷ xs) = refl

rposition-lt : (d : Bytes) (xs : List Bytes) (i : ℕ) → rposition d xs ≡ some i → i < length xs
rposition-lt d [] i e = cc
rposition-lt d (x ∷ xs) i e = elim (Option-cases (rposition d xs)) [
  | inl none_there ↦ ground arith
  | inr (j, there) ↦ ground (arith, rposition-lt d xs j there)
]

-- In a valid cache the hash map lookup is the scan over the slots for the newest copy, at every position below 256.
pub find-rposition : (c : InputCache) (d : Bytes) → Inv c → find c d ≡ rposition d c.slots
unfolding find
find-rposition c d v = rw (v.indexed d) (last?-nonempty c (offsets d c.slots (head c)) ∙ scan)
  where
    scan : find_in c (some (offsets d c.slots (head c))) ≡ rposition d c.slots
    scan = elim (Option-cases (rposition d c.slots)) [
      | inl e ↦ ground (arith, last?-offsets d c.slots (head c))
      | inr (i, e) ↦ ground (arith, last?-offsets d c.slots (head c), rposition-lt d c.slots i)
    ]

-- A position is that of the newest copy: the bytes stand there and at no later position.
abbrev pub IsNewest : Bytes → List Bytes → ℕ → Type 0
IsNewest d xs i = (get_elem? xs i ≡ some d) × ((j : ℕ) → i < j → get_elem? xs j ≢ some d)

rposition-none :
    (d : Bytes) (xs : List Bytes) → rposition d xs ≡ none → (j : ℕ) → get_elem? xs j ≢ some d
rposition-none d [] e j h = cc
rposition-none d (x ∷ xs) e zero h = ground (arith, bytes_eq_iff x d)
rposition-none d (x ∷ xs) e (suc j) h =
    ground (arith, rposition-none d xs, rposition-none d xs (ground arith) j h)

later : (d x : Bytes) (xs : List Bytes) (i : ℕ) → IsNewest d xs i → IsNewest d (x ∷ xs) (suc i)
later d x xs i (here, above) = (here, beyond)
  where
    beyond : (j : ℕ) → suc i < j → get_elem? (x ∷ xs) j ≢ some d
    beyond zero h = absurd (omega arith)
    beyond (suc j) h = above j (omega arith)

first : (d x : Bytes) (xs : List Bytes) → x ≡ d → rposition d xs ≡ none → IsNewest d (x ∷ xs) 0
first d x xs e absent = (ap some e, beyond)
  where
    beyond : (j : ℕ) → 0 < j → get_elem? (x ∷ xs) j ≢ some d
    beyond zero h = absurd (omega arith)
    beyond (suc j) h = rposition-none d xs absent j

rposition-IsNewest :
    (d : Bytes) (xs : List Bytes) (i : ℕ) → rposition d xs ≡ some i → IsNewest d xs i
rposition-IsNewest d [] i e = cc
rposition-IsNewest d (x ∷ xs) i e = elim (Option-cases (rposition d xs)) [
  | inr (j, there) ↦
      let s : suc j ≡ i = ground arith in
      subst (IsNewest d (x ∷ xs)) s (later d x xs j (rposition-IsNewest d xs j there))
  | inl absent ↦
      let z : 0 ≡ i = ground arith in
      let hit : x ≡ d = ground (arith, bytes_eq_iff x d) in
      subst (IsNewest d (x ∷ xs)) z (first d x xs hit absent)
]

-- In a valid cache what `find` returns is a live position below 256 that `get` reads the same bytes at, and no later
-- position does.
pub get-find :
    (c : InputCache) (d : Bytes) (p : ℕ)
    → Inv c
    → find c d ≡ some p
    → (p < 256) × (get c p ≡ some d) × ((j : ℕ) → p < j → get c j ≢ some d)
unfolding get
get-find c d p v e =
    let r = sym (find-rposition c d v) ∙ e in
    let n = rposition-IsNewest d c.slots p r in
    (omega (arith, rposition-lt d c.slots p r, v.bounded), n.0, n.1)

-- When `find` fails in a valid cache the bytes stand at no position.
pub find-none : (c : InputCache) (d : Bytes) → Inv c → find c d ≡ none → (j : ℕ) → get c j ≢ some d
unfolding get
find-none c d v e = rposition-none d c.slots (sym (find-rposition c d v) ∙ e)

-- A FIFO of 256 entries: the oldest goes when it is full.
abbrev pub fifo_push : List Bytes → Bytes → List Bytes
fifo_push xs x = (if leb 256 (length xs) then drop 1 xs else xs) ++ x ∷ []

evict_front-slots :
    (xs : List Bytes) (c : InputCache) → c.slots ≡ xs → (evict_front xs c).slots ≡ drop 1 xs
evict_front-slots [] c e = e
evict_front-slots (old ∷ rest) c e = refl

-- The slots after `push` are those of the FIFO, and the result tells whether one was evicted.
pub push-fifo :
    (c : InputCache) (x : Bytes)
    → ((push c x).0.slots ≡ fifo_push c.slots x) × ((push c x).1 ≡ is_full c)
unfolding push append evict
push-fifo c x = elim (Bool-cases (is_full c)) [
  | inl full ↦ rw (full, evict_front-slots c.slots c refl) (refl, refl)
  | inr room ↦ rw room (refl, refl)
]
