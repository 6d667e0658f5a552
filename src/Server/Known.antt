-- ===== src/Server/Known.antt =====
-- Rules of Server.Triple for what an action reads: what follows knows it.
use direlera_rs.Prelude.{ℕ, ◌≡◌, refl, Option, none, some}
use direlera_rs.State.{ClientInfo, AppState, get_client, get_game}
use direlera_rs.Room.{GameInfo}
use direlera_rs.Server
use direlera_rs.Server.{
  World, Error, Result, ok, err, panics, loops, Exec, continue, ◌>>=◌, ◌>>◌, pure, raise, or_fail,
  gets, modify, ignored, attempt, client, game, emit, close_session, for_each,
}
use direlera_rs.Server.Triple.{Cond, After, Triple}

-- A fact that the condition gives.
pub assume :
    {A : Type 0} {P Q E : Cond} (F : Type 0) (m : Exec A)
    → ((s : AppState) → P s → F)
    → (F → Triple P m Q E)
    → Triple P m Q E
assume F m f h = record { at = λ w p. (h (f w.app p)).at w p }

-- A client that is known to be there.
pub client_known :
    {B : Type 0} {P S E : Cond} (addr : ℕ) (k : ClientInfo → Exec B)
    → ((s : AppState) → P s → (c : ClientInfo) × (get_client s addr ≡ some c))
    → ((c : ClientInfo) → Triple P (k c) S E)
    → Triple P (client addr >>= k) S E
unfolding ◌>>=◌
client_known addr k f h = record { at = λ w p. let (c, e) = f w.app p in rw e ((h c).at w p) }

-- A client or a game that was read is known to what follows.
pub client_then :
    {B : Type 0} {P S E : Cond} (addr : ℕ) (k : ClientInfo → Exec B)
    → ((s : AppState) → P s → E s)
    → ((c : ClientInfo) → Triple (λ s. P s × (get_client s addr ≡ some c)) (k c) S E)
    → Triple P (client addr >>= k) S E
unfolding ◌>>=◌
client_then {P = P} {S = S} {E = E} addr k out h = record {
  at = λ w p. at w p (get_client w.app addr) refl;
}
  where
    at :
        (w : World)
        → P w.app
        → (o : Option ClientInfo) → get_client w.app addr ≡ o
        → After S E
            ((or_fail Server.client_not_found o >>= k) w).0
            ((or_fail Server.client_not_found o >>= k) w).1.app
    at w p none e = out w.app p
    at w p (some c) e = (h c).at w (p, e)

pub game_then :
    {B : Type 0} {P S E : Cond} (game_id : ℕ) (k : GameInfo → Exec B)
    → ((s : AppState) → P s → E s)
    → ((g : GameInfo) → Triple (λ s. P s × (get_game s game_id ≡ some g)) (k g) S E)
    → Triple P (game game_id >>= k) S E
unfolding ◌>>=◌
game_then {P = P} {S = S} {E = E} game_id k out h = record {
  at = λ w p. at w p (get_game w.app game_id) refl;
}
  where
    at :
        (w : World)
        → P w.app
        → (o : Option GameInfo) → get_game w.app game_id ≡ o
        → After S E
            ((or_fail Server.game_not_found o >>= k) w).0
            ((or_fail Server.game_not_found o >>= k) w).1.app
    at w p none e = out w.app p
    at w p (some g) e = (h g).at w (p, e)

-- What is there, or the error of what is not.
pub or_fail_then :
    {A B : Type 0} {P S E : Cond} (e : Error) (o : Option A) (k : A → Exec B)
    → ((s : AppState) → P s → E s)
    → ((a : A) → o ≡ some a → Triple P (k a) S E)
    → Triple P (or_fail e o >>= k) S E
unfolding ◌>>=◌
or_fail_then e none k out h = record { at = λ w p. out w.app p }
or_fail_then e (some a) k out h = record { at = (h a refl).at }
