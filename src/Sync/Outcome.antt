-- ===== src/Sync/Outcome.antt =====
-- `GameSyncError` of src/simplest_game_sync.rs, and the result of a call: `loops` is a call that
-- does not return.
use direlera_rs.Prelude.{ℕ, ◌≡◌, refl, Bytes}

pub data GameSyncError : Type 0 where
  invalid_player_id : ℕ → ℕ → GameSyncError
  cache_position_not_found : ℕ → ℕ → GameSyncError
  buffer_inconsistency : Bytes → GameSyncError

pub data Outcome {ℓ} (A : Type ℓ) : Type ℓ where
  ok : A → Outcome A
  err : GameSyncError → Outcome A
  loops : Outcome A

-- The `?` of the source: a call that gave no value ends the caller the same way.
infixl 5 ◌>>=◌
abbrev pub ◌>>=◌ {κ ℓ} : {B : Type κ} {A : Type ℓ} → Outcome A → (A → Outcome B) → Outcome B
loops >>= next = loops
err e >>= next = err e
ok r >>= next = next r

-- A chain of two calls that returned, taken apart.
pub >>=-eq-ok {κ ℓ} :
    {B : Type κ} {A : Type ℓ} (first : Outcome A) (next : A → Outcome B) {out : B}
    → (first >>= next) ≡ ok out
    → (r : A) × (first ≡ ok r) × (next r ≡ ok out)
>>=-eq-ok loops next returned = cc
>>=-eq-ok (err e) next returned = cc
>>=-eq-ok (ok r) next returned = (r, refl, returned)
