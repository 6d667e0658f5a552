-- ===== src/Config.antt =====
-- The expansion of variables in the configuration file, `expand_config_vars_with` of src/main.rs. A text
-- is the bytes of its encoding; "${" and "}" are bytes of ASCII there.
pub mod Expand
pub mod Template
mod Tests
use direlera_rs.Prelude.{
  ℕ, zero, suc, ◌+◌, Bool, ◌&&◌, Option, none, some, List, [], ◌∷◌, ◌++◌, Bytes, length, take, drop,
  ◌==◌, if◌then◌else◌,
}

abbrev pub next {ℓ} : {A : Type ℓ} → (ℕ → A) → Option ℕ → Option A
next f none = none
next f (some i) = some (f i)

-- `find("${")`
abbrev pub find_open : Bytes → Option ℕ
find_open [] = none
find_open (a ∷ []) = none
find_open (a ∷ b ∷ rest) =
    if (a == 36) && (b == 123) then some 0 else next (λ i. suc i) (find_open (b ∷ rest))

-- `find('}')`
abbrev pub find_close : Bytes → Option ℕ
find_close [] = none
find_close (a ∷ rest) = if a == 125 then some 0 else next (λ i. suc i) (find_close rest)

-- Without a "}" the rest stays as it is; otherwise the value stands for the name, and the rest goes on.
abbrev pub at_close : (Bytes → Bytes) → (Bytes → Bytes) → Bytes → ℕ → Bytes → Option ℕ → Bytes
at_close lookup go rest start after_open none = take start rest ++ drop start rest
at_close lookup go rest start after_open (some end) =
    take start rest ++ (lookup (take end after_open) ++ go (drop (end + 1) after_open))

abbrev pub at_open : (Bytes → Bytes) → (Bytes → Bytes) → Bytes → Option ℕ → Bytes
at_open lookup go rest none = rest
at_open lookup go rest (some start) =
    let after_open = drop (start + 2) rest in
    at_close lookup go rest start after_open (find_close after_open)

-- Each round takes at least three bytes, so as many rounds as there are bytes are enough.
unfoldable pub expand : ℕ → (Bytes → Bytes) → Bytes → Bytes
expand zero lookup rest = rest
expand (suc f) lookup rest = at_open lookup (expand f lookup) rest (find_open rest)

unfoldable pub expand_config_vars_with : (Bytes → Bytes) → Bytes → Bytes
expand_config_vars_with lookup contents = expand (length contents) lookup contents
