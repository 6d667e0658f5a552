-- ===== src/Config/Expand.antt =====
-- What `expand_config_vars_with` makes of a template: texts with the variables between them.
use direlera_rs.Prelude.{
  ℕ, zero, suc, ◌+◌, ◌≤◌, ◌≡◌, refl, ◌∙◌, ap, Bool, true, false, ◌&&◌, Bool-cases, Option, none,
  some, List, [], ◌∷◌, ◌++◌, Bytes, All, length, length-append, drop, take_append, take-append-drop,
  ◌==◌, if◌then◌else◌, ◌⊎◌, inl, inr, arith,
}
use direlera_rs.Config.{next, find_open, find_close, at_close, at_open, expand}

-- A text, then a variable.
pub record Piece : Type 0 where
  pub text : Bytes
  pub name : Bytes

-- "${name}" and what follows.
abbrev pub variable : Bytes → Bytes → Bytes
variable name rest = 36 ∷ 123 ∷ (name ++ 125 ∷ rest)

abbrev pub print : List Piece → Bytes → Bytes
print [] tail = tail
print (p ∷ ps) tail = p.text ++ variable p.name (print ps tail)

-- The same with the variables' values.
abbrev pub values : (Bytes → Bytes) → List Piece → Bytes → Bytes
values lookup [] tail = tail
values lookup (p ∷ ps) tail = p.text ++ (lookup p.name ++ values lookup ps tail)

-- No text has "${" in it, and no name "}".
abbrev pub IsPiece : Piece → Type 0
IsPiece p = (find_open p.text ≡ none) × (find_close p.name ≡ none)

-- The end has no "${" with a "}" after it.
abbrev pub IsTail : Bytes → Type 0
IsTail tail =
    (find_open tail ≡ none)
    ⊎ ((text : Bytes) × (rest : Bytes) × (tail ≡ text ++ 36 ∷ 123 ∷ rest)
        × (find_open text ≡ none)
        × (find_close rest ≡ none))

-- A search that finds nothing finds nothing here, nor later.
nowhere :
    (b : Bool) (o : Option ℕ)
    → (if b then some 0 else next (λ i. suc i) o) ≡ none
    → (b ≡ false) × (o ≡ none)
nowhere true o h = cc
nowhere false none h = (refl, refl)
nowhere false (some i) h = cc

later :
    (b : Bool) (o : Option ℕ) (i : ℕ)
    → b ≡ false
    → o ≡ some i
    → (if b then some 0 else next (λ i. suc i) o) ≡ some (suc i)
later b o i e k = rw (e, k) refl

find_open-text :
    (text rest : Bytes)
    → find_open text ≡ none
    → find_open (text ++ 36 ∷ 123 ∷ rest) ≡ some (length text)
find_open-text [] rest h = refl
find_open-text (a ∷ []) rest h = elim (Bool-cases (a == 36)) [
  | inl e ↦ rw e refl
  | inr e ↦ rw e refl
]
find_open-text (a ∷ b ∷ text) rest h =
    let (e, k) = nowhere ((a == 36) && (b == 123)) (find_open (b ∷ text)) h in
    later ((a == 36) && (b == 123)) (find_open (b ∷ (text ++ 36 ∷ 123 ∷ rest))) _ e
      (find_open-text (b ∷ text) rest k)

find_close-name :
    (name rest : Bytes)
    → find_close name ≡ none
    → find_close (name ++ 125 ∷ rest) ≡ some (length name)
find_close-name [] rest h = refl
find_close-name (a ∷ name) rest h =
    let (e, k) = nowhere (a == 125) (find_close name) h in
    later (a == 125) (find_close (name ++ 125 ∷ rest)) _ e (find_close-name name rest k)

drop_more : (n : ℕ) (xs ys : Bytes) → drop (length xs + n) (xs ++ ys) ≡ drop n ys
drop_more n [] ys = let e : 0 + n ≡ n = omega arith in ap (λ (k : ℕ). drop k ys) e
drop_more n (x ∷ xs) ys =
    let e : suc (length xs) + n ≡ suc (length xs + n) = omega arith in
    ap (λ (k : ℕ). drop k (x ∷ (xs ++ ys))) e ∙ drop_more n xs ys

expand-piece :
    (f : ℕ) (lookup : Bytes → Bytes) (p : Piece) (rest : Bytes)
    → IsPiece p
    → expand (suc f) lookup (p.text ++ variable p.name rest)
      ≡ p.text ++ (lookup p.name ++ expand f lookup rest)
unfolding expand
expand-piece f lookup p rest (no_open, no_close) =
    let named : Bytes = p.name ++ 125 ∷ rest in
    let all : Bytes = p.text ++ 36 ∷ 123 ∷ named in
    let go : Bytes → Bytes = expand f lookup in
    ap (at_open lookup go all) (find_open-text p.text named no_open)
    ∙ (ap (λ (x : Bytes). at_close lookup go all (length p.text) x (find_close x))
          (drop_more 2 p.text (36 ∷ 123 ∷ named))
        ∙ (ap (at_close lookup go all (length p.text) named) (find_close-name p.name rest no_close)
            ∙ rw
                (
                  take_append p.text (36 ∷ 123 ∷ named),
                  take_append p.name (125 ∷ rest),
                  drop_more 1 p.name (125 ∷ rest),
                )
                refl))

expand-tail :
    (f : ℕ) (lookup : Bytes → Bytes) (tail : Bytes) → IsTail tail → expand f lookup tail ≡ tail
unfolding expand
expand-tail zero lookup tail h = refl
expand-tail (suc f) lookup tail (inl none_open) =
    ap (at_open lookup (expand f lookup) tail) none_open
expand-tail (suc f) lookup tail (inr (text, rest, e, no_open, no_close)) =
    let all : Bytes = text ++ 36 ∷ 123 ∷ rest in
    let go : Bytes → Bytes = expand f lookup in
    rw e (
      ap (at_open lookup go all) (find_open-text text rest no_open)
      ∙ (ap (λ (x : Bytes). at_close lookup go all (length text) x (find_close x))
            (drop_more 2 text (36 ∷ 123 ∷ rest))
          ∙ (ap (at_close lookup go all (length text) rest) no_close
              ∙ take-append-drop (length text) all)))

pub expand-print :
    (f : ℕ) (lookup : Bytes → Bytes) (ps : List Piece) (tail : Bytes)
    → length (print ps tail) ≤ f
    → All IsPiece ps
    → IsTail tail
    → expand f lookup (print ps tail) ≡ values lookup ps tail
expand-print f lookup [] tail h v t = expand-tail f lookup tail t
expand-print zero lookup (p ∷ ps) tail h v t =
    let l = length-append p.text (variable p.name (print ps tail)) in absurd (omega arith)
expand-print (suc f) lookup (p ∷ ps) tail h (v, vs) t =
    let l = length-append p.text (variable p.name (print ps tail)) in
    let m = length-append p.name (125 ∷ print ps tail) in
    expand-piece f lookup p (print ps tail) v
    ∙ ap (λ (x : Bytes). p.text ++ (lookup p.name ++ x))
        (expand-print f lookup ps tail (omega arith) vs t)
