-- ===== src/Config/Template.antt =====
-- Every text of the configuration is a template, and `expand_config_vars_with` puts values into it.
use direlera_rs.Prelude.{
  ℕ, zero, suc, ◌≤◌, ◌≡◌, refl, ◌∙◌, ap, Bool, true, false, ◌&&◌, Option, none, some, Option-cases,
  List, [], ◌∷◌, ◌++◌, Bytes, All, length, length-append, ◌==◌, ==_iff, inl, inr, arith,
}
use direlera_rs.Config.{find_open, find_close, expand_config_vars_with, expand}
use direlera_rs.Config.Expand.{Piece, print, values, IsPiece, IsTail, expand-print}

-- Where "${" was found.
abbrev Opens : Bytes → Type 0
Opens s = (text : Bytes) × (rest : Bytes) × (s ≡ text ++ 36 ∷ 123 ∷ rest) × (find_open text ≡ none)

abbrev Closes : Bytes → Type 0
Closes s = (name : Bytes) × (rest : Bytes) × (s ≡ name ++ 125 ∷ rest) × (find_close name ≡ none)

head_eq : (a b : ℕ) (xs ys : Bytes) → a ∷ xs ≡ b ∷ ys → a ≡ b
head_eq a b xs ys e = cc

no_open-cons :
    (a b : ℕ) (r text rest : Bytes)
    → ((a == 36) && (b == 123)) ≡ false
    → b ∷ r ≡ text ++ 36 ∷ 123 ∷ rest
    → find_open text ≡ none
    → find_open (a ∷ text) ≡ none
no_open-cons a b r [] rest h e k = refl
no_open-cons a b r (c ∷ text) rest h e k =
    let z : b ≡ c = head_eq b c r (text ++ 36 ∷ 123 ∷ rest) e in
    let h' : ((a == 36) && (c == 123)) ≡ false = rw z at h in rw (h', k) refl

both : (a b : Bool) → (a && b) ≡ true → (a ≡ true) × (b ≡ true)
both true b h = (refl, h)
both false b h = cc

opens : (s : Bytes) (i : ℕ) → find_open s ≡ some i → Opens s
opens [] i h = cc
opens (a ∷ []) i h = cc
opens (a ∷ b ∷ r) i h = at (opens (b ∷ r)) ((a == 36) && (b == 123)) refl (find_open (b ∷ r)) refl
  where
    at :
        ((j : ℕ) → find_open (b ∷ r) ≡ some j → Opens (b ∷ r))
        → (t : Bool) → ((a == 36) && (b == 123)) ≡ t
        → (o : Option ℕ) → find_open (b ∷ r) ≡ o
        → Opens (a ∷ b ∷ r)
    at rec true e o k =
        let (x, y) = both (a == 36) (b == 123) e in
        let p : a ≡ 36 = (==_iff a 36).0 x in
        let q : b ≡ 123 = (==_iff b 123).0 y in ([], r, rw (p, q) refl, refl)
    at rec false e none k = let z : none ≡ some i = rw (e, k) at h in cc
    at rec false e (some j) k =
        let (text, rest, w, v) = rec j k in
        (a ∷ text, rest, ap (λ (x : Bytes). a ∷ x) w, no_open-cons a b r text rest e w v)

closes : (s : Bytes) (i : ℕ) → find_close s ≡ some i → Closes s
closes [] i h = cc
closes (a ∷ r) i h = at (closes r) (a == 125) refl (find_close r) refl
  where
    at :
        ((j : ℕ) → find_close r ≡ some j → Closes r)
        → (t : Bool) → (a == 125) ≡ t
        → (o : Option ℕ) → find_close r ≡ o
        → Closes (a ∷ r)
    at rec true e o k = let p : a ≡ 125 = (==_iff a 125).0 e in ([], r, rw p refl, refl)
    at rec false e none k = let z : none ≡ some i = rw (e, k) at h in cc
    at rec false e (some j) k =
        let (name, rest, w, v) = rec j k in
        (a ∷ name, rest, ap (λ (x : Bytes). a ∷ x) w, rw (e, v) refl)

abbrev pub Template : Bytes → Type 0
Template s = (ps : List Piece) × (tail : Bytes) × (s ≡ print ps tail) × All IsPiece ps × IsTail tail

template : (f : ℕ) (s : Bytes) → length s ≤ f → Template s
template f [] h = ([], [], refl, tt, inl refl)
template zero (a ∷ s) h = absurd (omega arith)
template (suc f) (a ∷ s) h = elim (Option-cases (find_open (a ∷ s))) [
  | inl e ↦ ([], a ∷ s, refl, tt, inl e)
  | inr (i, e) ↦
      let (text, rest, w, v) = opens (a ∷ s) i e in
      elim (Option-cases (find_close rest)) [
        | inl k ↦ ([], a ∷ s, refl, tt, inr (text, rest, w, v, k))
        | inr (j, k) ↦
            let (name, rest', w', v') = closes rest j k in
            let l = length-append text (36 ∷ 123 ∷ rest) in
            let l' = length-append name (125 ∷ rest') in
            let size : suc (length s) ≡ length (text ++ 36 ∷ 123 ∷ rest) =
              ap (λ (x : Bytes). length x) w in
            let size' : length rest ≡ length (name ++ 125 ∷ rest') =
              ap (λ (x : Bytes). length x) w' in
            let (ps, tail, z, vs, t) = template f rest' (omega arith) in
            (
              record { text = text; name = name } ∷ ps,
              tail,
              w
                  ∙ ap (λ (x : Bytes). text ++ 36 ∷ 123 ∷ x)
                      (w' ∙ ap (λ (x : Bytes). name ++ 125 ∷ x) z),
              ((v, v'), vs),
              t,
            )
      ]
]

expanded :
    (lookup : Bytes → Bytes) (contents : Bytes) (ps : List Piece) (tail : Bytes)
    → contents ≡ print ps tail
    → All IsPiece ps
    → IsTail tail
    → expand_config_vars_with lookup contents ≡ values lookup ps tail
unfolding expand_config_vars_with
expanded lookup contents ps tail e v t =
    let size : length contents ≡ length (print ps tail) = ap (λ (x : Bytes). length x) e in
    ap (expand (length contents) lookup) e
    ∙ expand-print (length contents) lookup ps tail (omega arith) v t

-- Every configuration text is, in one way or another, texts without "${" with variables "${name}" between
-- them, whose names have no "}", and an end in which no "${" has a "}" after it. It is expanded to the
-- same texts with the value in the place of each variable, in one pass: nothing in a value is expanded,
-- and the end stays as it is.
pub expand_config_vars_lem :
    (lookup : Bytes → Bytes) (contents : Bytes)
    → (ps : List Piece) × (tail : Bytes) × (contents ≡ print ps tail)
      × All IsPiece ps
      × IsTail tail
      × (expand_config_vars_with lookup contents ≡ values lookup ps tail)
expand_config_vars_lem lookup contents =
    let (ps, tail, e, v, t) = template (length contents) contents (omega arith) in
    (ps, tail, e, v, t, expanded lookup contents ps tail e v t)
