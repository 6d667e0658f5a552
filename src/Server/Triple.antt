-- ===== src/Server/Triple.antt =====
-- Conditions before and after the actions of Server, one rule for each way to build an action. An
-- action never panics and never loops under such a condition.
use direlera_rs.Prelude.{
  ℕ, ◌≡◌, refl, Bool, true, false, Option, none, some, List, [], ◌∷◌, if◌then◌else◌,
}
use direlera_rs.State.{AppState, get_client, get_game}
use direlera_rs.Server.{
  World, Error, Result, ok, err, panics, loops, Exec, continue, ◌>>=◌, pure, raise, or_fail, gets,
  modify, ignored, attempt, client, game, emit, close_session, for_each,
}

abbrev pub Cond : Type 1
Cond = AppState → Type 0

-- `Q` holds of the state after a return, `E` after an error.
abbrev pub After : {A : Type 0} → Cond → Cond → Result A → AppState → Type 0
After Q E (ok a) s = Q s
After Q E (err e) s = E s
After Q E panics s = ⊥
After Q E loops s = ⊥

pub record Triple {A : Type 0} (P : Cond) (m : Exec A) (Q E : Cond) : Type 0 where
  pub at : (w : World) → P w.app → After Q E (m w).0 (m w).1.app

-- The action keeps a condition, whether it returns or fails.
abbrev pub Keeps : {A : Type 0} → Cond → Exec A → Type 0
Keeps P m = Triple P m P P

module _ {A B : Type 0} (f : A → Exec B) {Q S E : Cond} where
  After-continue :
      (r : Result A) (w : World)
      → After Q E r w.app
      → ((a : A) → Triple Q (f a) S E)
      → After S E (continue r f w).0 (continue r f w).1.app
  After-continue (ok a) w h k = (k a).at w h
  After-continue (err e) w h k = h
  After-continue panics w h k = h
  After-continue loops w h k = h

  pub Triple-bind :
      {P : Cond} (m : Exec A)
      → Triple P m Q E
      → ((a : A) → Triple Q (f a) S E)
      → Triple P (m >>= f) S E
  unfolding ◌>>=◌
  Triple-bind m h k = record { at = λ w p. After-continue (m w).0 (m w).1 (h.at w p) k }

module _ {A : Type 0} {P : Cond} where
  pub Keeps-pure : (a : A) → Keeps P (pure a)
  Keeps-pure a = record { at = λ w p. p }

  pub Keeps-raise : (e : Error) → Keeps P (raise {A = A} e)
  Keeps-raise e = record { at = λ w p. p }

  pub Keeps-gets : (f : AppState → A) → Keeps P (gets f)
  Keeps-gets f = record { at = λ w p. p }

  pub Keeps-or_fail : (e : Error) (o : Option A) → Keeps P (or_fail e o)
  Keeps-or_fail e none = record { at = λ w p. p }
  Keeps-or_fail e (some a) = record { at = λ w p. p }

  pub Keeps-if : (b : Bool) (m n : Exec A) → Keeps P m → Keeps P n → Keeps P (if b then m else n)
  Keeps-if true m n h k = h
  Keeps-if false m n h k = k

pub Triple-pure :
    {A : Type 0} {P Q E : Cond} (a : A) → ((s : AppState) → P s → Q s) → Triple P (pure a) Q E
Triple-pure a h = record { at = λ w p. h w.app p }

pub Triple-for_each :
    {A : Type 0} {P E : Cond} (f : A → Exec (Unit {0}))
    → ((a : A) → Triple P (f a) P E)
    → (xs : List A) → Triple P (for_each f xs) P E
Triple-for_each f h [] = record { at = λ w p. p }
Triple-for_each f h (x ∷ xs) =
    Triple-bind (λ _. for_each f xs) (f x) (h x) (λ _. Triple-for_each f h xs)

module _ {A B : Type 0} {P : Cond} where
  pub Keeps-bind :
      (m : Exec A) (f : A → Exec B) → Keeps P m → ((a : A) → Keeps P (f a)) → Keeps P (m >>= f)
  Keeps-bind m f h k = Triple-bind f m h k

-- What was read is known to what follows.
pub gets_then :
    {A B : Type 0} {P S E : Cond} (f : AppState → A) (k : A → Exec B)
    → ((a : A) → Triple (λ s. P s × (f s ≡ a)) (k a) S E)
    → Triple P (gets f >>= k) S E
unfolding ◌>>=◌
gets_then f k h = record { at = λ w p. (h (f w.app)).at w (p, refl) }

pub weaken :
    {A : Type 0} {P P' Q Q' E E' : Cond} (m : Exec A)
    → ((s : AppState) → P' s → P s)
    → ((s : AppState) → Q s → Q' s)
    → ((s : AppState) → E s → E' s)
    → Triple P m Q E
    → Triple P' m Q' E'
weaken {A = A} {Q = Q} {Q' = Q'} {E = E} {E' = E'} m before q e h = record {
  at = λ w p. widen (m w).0 (m w).1.app (h.at w (before w.app p));
}
  where
    widen : (r : Result A) (s : AppState) → After Q E r s → After Q' E' r s
    widen (ok a) s x = q s x
    widen (err _) s x = e s x
    widen panics s x = x
    widen loops s x = x

pub Triple-modify :
    {P Q E : Cond} (f : AppState → AppState)
    → ((s : AppState) → P s → Q (f s))
    → Triple P (modify f) Q E
Triple-modify f h = record { at = λ w p. h w.app p }

-- An error that is ignored leaves the state as it is.
pub Triple-attempt :
    {P Q E : Cond} (m : Exec (Unit {0})) → Triple P m Q Q → Triple P (attempt m) Q E
unfolding attempt
Triple-attempt {Q = Q} {E = E} m h = record { at = λ w p. at (m w).0 (m w).1 (h.at w p) }
  where
    at :
        (r : Result (Unit {0})) (w : World)
        → After Q Q r w.app
        → After Q E (ignored (r, w)).0 (ignored (r, w)).1.app
    at (ok a) w x = x
    at (err e) w x = x
    at panics w x = x
    at loops w x = x

module _ {P : Cond} where
  pub Keeps-attempt : (m : Exec (Unit {0})) → Keeps P m → Keeps P (attempt m)
  Keeps-attempt m h = Triple-attempt m h

  pub Keeps-emit : (addr : ℕ) (bytes : List ℕ) → Keeps P (emit addr bytes)
  Keeps-emit addr bytes = record { at = λ w p. p }

  pub Keeps-close_session : (addr : ℕ) → Keeps P (close_session addr)
  unfolding close_session
  Keeps-close_session addr = record { at = λ w p. p }

  pub Keeps-client : (addr : ℕ) → Keeps P (client addr)
  Keeps-client addr = record {
    at = λ w p. (Keeps-or_fail {P = P} _ (get_client w.app addr)).at w p;
  }

  pub Keeps-game : (game_id : ℕ) → Keeps P (game game_id)
  Keeps-game game_id = record {
    at = λ w p. (Keeps-or_fail {P = P} _ (get_game w.app game_id)).at w p;
  }
