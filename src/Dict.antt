-- ===== src/Dict.antt =====
-- `HashMap` and `BTreeMap` as association lists: only the operations that the program calls.
use direlera_rs.Prelude.{
  ◌≡◌, refl, Option, none, some, List, [], ◌∷◌, arith, Key, if◌then◌else◌, suc, ◌≤◌, ◌<◌, length,
}

abbrev pub Dict {ℓ κ} : Type ℓ → Type κ → Type (ℓ ⊔ κ)
Dict K V = List (K × V)

module _ {ℓ κ} {K : Type ℓ} {V : Type κ} ⦃e : Key K⦄ where
  unfoldable pub lookup : K → Dict K V → Option V
  lookup k [] = none
  lookup k ((j, v) ∷ m) = if e.same_key j k then some v else lookup k m

  unfoldable pub insert : K → V → Dict K V → Dict K V
  insert k v [] = (k, v) ∷ []
  insert k v ((j, w) ∷ m) = if e.same_key j k then (k, v) ∷ m else (j, w) ∷ insert k v m

  unfoldable pub remove : K → Dict K V → Dict K V
  remove k [] = []
  remove k ((j, w) ∷ m) = if e.same_key j k then remove k m else (j, w) ∷ remove k m

  pub lookup-insert :
      (k j : K) (v : V) (m : Dict K V)
      → lookup j (insert k v m) ≡ (if e.same_key k j then some v else lookup j m)
  unfolding lookup insert
  lookup-insert k j v [] = refl
  lookup-insert k j v ((i, w) ∷ m) =
      ground
        (arith, e.same_key_iff k j, e.same_key_iff i k, e.same_key_iff i j, lookup-insert k j v m)

  pub lookup-remove :
      (k j : K) (m : Dict K V)
      → lookup j (remove k m) ≡ (if e.same_key k j then none else lookup j m)
  unfolding lookup remove
  lookup-remove k j [] = ground arith
  lookup-remove k j ((i, w) ∷ m) =
      ground
        (arith, e.same_key_iff k j, e.same_key_iff i k, e.same_key_iff i j, lookup-remove k j m)

  pub length-insert : (k : K) (v : V) (m : Dict K V) → length (insert k v m) ≤ suc (length m)
  unfolding insert
  length-insert k v [] = omega arith
  length-insert k v ((j, w) ∷ m) = ground (arith, length-insert k v m)

  pub length-remove : (k : K) (m : Dict K V) → length (remove k m) ≤ length m
  unfolding remove
  length-remove k [] = omega arith
  length-remove k ((j, w) ∷ m) = ground (arith, length-remove k m)

  pub length-remove-some :
      (k : K) (v : V) (m : Dict K V) → lookup k m ≡ some v → length (remove k m) < length m
  unfolding lookup remove
  length-remove-some k v [] h = cc
  length-remove-some k v ((j, w) ∷ m) h =
      ground (arith, length-remove k m, length-remove-some k v m)
