-- ===== src/State/Lookup.antt =====
-- Lookups by number in a map that has gained or lost an entry, for the maps of src/state.rs.
use direlera_rs.Prelude.{
  ℕ, ◌≡◌, ◌≢◌, true, false, none, some, arith, ◌==◌, nat_eq, Bool-cases, inl, inr, ◌⊎◌, ==_iff, sym,
  ◌∙◌,
}
use direlera_rs.Dict.{Dict, lookup, insert, remove, lookup-insert, lookup-remove}

-- A lookup in a map with one entry more, by whether it is the new one.
pub lookup-insert_cases {ℓ} :
    {V : Type ℓ} (k j : ℕ) (v w : V) (m : Dict ℕ V)
    → lookup j (insert k v m) ≡ some w
    → ((k ≡ j) × (v ≡ w)) ⊎ ((k ≢ j) × (lookup j m ≡ some w))
lookup-insert_cases k j v w m e = elim (Bool-cases (k == j)) [
  | inl same ↦
      let z : some v ≡ some w = sym (rw same at (lookup-insert k j v m)) ∙ e in
      inl ((==_iff k j).0 same, cc)
  | inr other ↦ inr (ground arith, sym (rw other at (lookup-insert k j v m)) ∙ e)
]

pub lookup-insert_self {ℓ} :
    {V : Type ℓ} (k : ℕ) (v : V) (m : Dict ℕ V) → lookup k (insert k v m) ≡ some v
lookup-insert_self k v m = let q : (k == k) ≡ true = ground arith in rw q at (lookup-insert k k v m)

pub lookup-insert_other {ℓ} :
    {V : Type ℓ} (k j : ℕ) (v : V) (m : Dict ℕ V) → k ≢ j → lookup j (insert k v m) ≡ lookup j m
lookup-insert_other k j v m h =
    let q : (k == j) ≡ false = ground arith in rw q at (lookup-insert k j v m)

pub lookup-remove_cases {ℓ} :
    {V : Type ℓ} (k j : ℕ) (w : V) (m : Dict ℕ V)
    → lookup j (remove k m) ≡ some w
    → (k ≢ j) × (lookup j m ≡ some w)
lookup-remove_cases k j w m e = elim (Bool-cases (k == j)) [
  | inl same ↦ let z = sym (rw same at (lookup-remove k j m)) ∙ e in cc
  | inr other ↦ (ground arith, sym (rw other at (lookup-remove k j m)) ∙ e)
]

pub lookup-remove_self {ℓ} : {V : Type ℓ} (k : ℕ) (m : Dict ℕ V) → lookup k (remove k m) ≡ none
lookup-remove_self k m = let q : (k == k) ≡ true = ground arith in rw q at (lookup-remove k k m)

pub lookup-remove_other {ℓ} :
    {V : Type ℓ} (k j : ℕ) (m : Dict ℕ V) → k ≢ j → lookup j (remove k m) ≡ lookup j m
lookup-remove_other k j m h =
    let q : (k == j) ≡ false = ground arith in rw q at (lookup-remove k j m)
