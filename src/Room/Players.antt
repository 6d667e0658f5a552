-- ===== src/Room/Players.antt =====
-- The players of a room in src/handlers/game.rs: positions, and the lists that the handlers make.
use direlera_rs.Prelude.{
  ℕ, zero, suc, ◌≤◌, ◌<◌, ◌≡◌, refl, Bool, true, false, Option, none, some, List, [], ◌∷◌, ◌++◌,
  arith, length, ap, All, ◌==◌, Bool-cases, Option-cases, inl, inr, ◌⊎◌,
}
use direlera_rs.Room.{GamePlayerInfo, position, in_room, mark_left, remove_at}

abbrev pub IsPresent : GamePlayerInfo → Type 0
IsPresent p = p.left_room ≡ false

-- Whether the player in a slot has left.
abbrev pub has_left : List GamePlayerInfo → ℕ → Bool
has_left [] i = false
has_left (p ∷ ps) zero = p.left_room
has_left (p ∷ ps) (suc i) = has_left ps i

pub length-in_room : (ps : List GamePlayerInfo) → length (in_room ps) ≤ length ps
length-in_room [] = omega arith
length-in_room (p ∷ ps) = ground (arith, length-in_room ps)

pub in_room-IsPresent : (ps : List GamePlayerInfo) → All IsPresent (in_room ps)
in_room-IsPresent [] = tt
in_room-IsPresent (p ∷ ps) = elim (Bool-cases p.left_room) [
  | inl gone ↦ simp gone (in_room-IsPresent ps)
  | inr here ↦ simp here (refl, in_room-IsPresent ps)
]

pub in_room_keeps : (ps : List GamePlayerInfo) → All IsPresent ps → in_room ps ≡ ps
in_room_keeps [] h = refl
in_room_keeps (p ∷ ps) h = rw (h.0, in_room_keeps ps h.1) refl

pub length-mark_left :
    (ps : List GamePlayerInfo) (o : Option ℕ) → length (mark_left ps o) ≡ length ps
length-mark_left [] o = refl
length-mark_left (p ∷ ps) none = refl
length-mark_left (p ∷ ps) (some zero) = refl
length-mark_left (p ∷ ps) (some (suc i)) = ap suc (length-mark_left ps (some i))

-- No player moves to another slot when one is marked.
pub position-mark_left :
    (addr : ℕ) (ps : List GamePlayerInfo) (o : Option ℕ)
    → position addr (mark_left ps o) ≡ position addr ps
position-mark_left addr [] o = refl
position-mark_left addr (p ∷ ps) none = refl
position-mark_left addr (p ∷ ps) (some zero) = refl
position-mark_left addr (p ∷ ps) (some (suc i)) = rw (position-mark_left addr ps (some i)) refl

pub position-lt :
    (addr : ℕ) (ps : List GamePlayerInfo) (i : ℕ) → position addr ps ≡ some i → i < length ps
position-lt addr [] i e = cc
position-lt addr (p ∷ ps) zero e = omega arith
position-lt addr (p ∷ ps) (suc i) e = elim (Bool-cases (p.addr == addr)) [
  | inl here ↦ let z = simp here at e in cc
  | inr other ↦ elim (Option-cases (position addr ps)) [
    | inl no_one ↦ let z = simp (other, no_one) at e in cc
    | inr (j, there) ↦
        let z = simp (other, there) at e in
        let k : j ≡ i = cc in omega (arith, k, position-lt addr ps j there)
  ]
]

pub has_left-mark_left :
    (ps : List GamePlayerInfo) (o : Option ℕ) (j : ℕ)
    → has_left (mark_left ps o) j ≡ true
    → (has_left ps j ≡ true) ⊎ (o ≡ some j)
has_left-mark_left [] o j e = cc
has_left-mark_left (p ∷ ps) none j e = inl e
has_left-mark_left (p ∷ ps) (some zero) zero e = inr refl
has_left-mark_left (p ∷ ps) (some zero) (suc j) e = inl e
has_left-mark_left (p ∷ ps) (some (suc i)) zero e = inl e
has_left-mark_left (p ∷ ps) (some (suc i)) (suc j) e = elim (has_left-mark_left ps (some i) j e) [
  | inl before ↦ inl before
  | inr now ↦ inr (let z : i ≡ j = cc in rw z refl)
]

module _ (P : GamePlayerInfo → Type 0) where
  pub All-remove_at : (ps : List GamePlayerInfo) (o : Option ℕ) → All P ps → All P (remove_at ps o)
  All-remove_at [] o h = tt
  All-remove_at (p ∷ ps) none h = h
  All-remove_at (p ∷ ps) (some zero) h = h.1
  All-remove_at (p ∷ ps) (some (suc i)) h = (h.0, All-remove_at ps (some i) h.1)

  pub All-mark_left :
      (ps : List GamePlayerInfo) (o : Option ℕ)
      → ((p : GamePlayerInfo) → P p → P (record p { left_room = true }))
      → All P ps
      → All P (mark_left ps o)
  All-mark_left [] o f h = tt
  All-mark_left (p ∷ ps) none f h = h
  All-mark_left (p ∷ ps) (some zero) f h = (f p h.0, h.1)
  All-mark_left (p ∷ ps) (some (suc i)) f h = (h.0, All-mark_left ps (some i) f h.1)

  pub All-in_room : (ps : List GamePlayerInfo) → All P ps → All P (in_room ps)
  All-in_room [] h = tt
  All-in_room (p ∷ ps) h = elim (Bool-cases p.left_room) [
    | inl gone ↦ simp gone (All-in_room ps h.1)
    | inr here ↦ simp here (h.0, All-in_room ps h.1)
  ]

  pub All-snoc :
      (ps : List GamePlayerInfo) (p : GamePlayerInfo) → All P ps → P p → All P (ps ++ p ∷ [])
  All-snoc [] p h k = (k, tt)
  All-snoc (q ∷ ps) p h k = (h.0, All-snoc ps p h.1 k)

pub length-remove_at :
    (ps : List GamePlayerInfo) (o : Option ℕ) → length (remove_at ps o) ≤ length ps
length-remove_at [] o = omega arith
length-remove_at (p ∷ ps) none = omega arith
length-remove_at (p ∷ ps) (some zero) = omega arith
length-remove_at (p ∷ ps) (some (suc i)) = omega (arith, length-remove_at ps (some i))
