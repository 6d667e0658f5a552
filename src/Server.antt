-- ===== src/Server.antt =====
-- The server's side effects: what a handler of src/handlers does beside its answer. An action reads and
-- changes the shared state, queues datagrams and asks for sessions to be closed; what it did before an
-- error stays done.
pub mod MessageType
pub mod Status
pub mod Send
pub mod Leave
pub mod User
pub mod Chat
pub mod Lobby
pub mod Start
pub mod Kick
pub mod Input
pub mod Ack
pub mod Dispatch
pub mod Sessions
pub mod Triple
pub mod Known
pub mod Quiet
pub mod Rooms
pub mod Locked
pub mod Leaving
pub mod Dropping
pub mod Quitting
pub mod Inputs
pub mod Kicked
pub mod Kicking
pub mod Users
pub mod Lobbies
pub mod Joining
pub mod Starts
pub mod Messages
pub mod Endings
pub mod Mail
pub mod Targets
pub mod Welcome
pub mod Handshake
pub mod Relogin
pub mod Gone
pub mod Unready
pub mod Owners
pub mod Acks
pub mod Alone
mod Tests
mod LoginTests
use direlera_rs.Prelude.{
  ℕ, Bool, true, false, Option, none, some, List, [], ◌∷◌, ◌++◌, Bytes, if◌then◌else◌,
}
use direlera_rs.Sync.Outcome.{GameSyncError}
use direlera_rs.State.{ClientInfo, AppState, get_client, update_client, get_game, update_game}
use direlera_rs.Room.{GameInfo}

-- `Message`
pub record Datagram : Type 0 where
  pub addr : ℕ
  pub bytes : Bytes

-- The state, the datagrams in the channel `tx` and the requests in `session_close_tx`, the oldest first.
-- Both channels stay open while the server runs.
pub record World : Type 0 where
  pub app : AppState
  pub sent : List Datagram
  pub closed : List ℕ

-- What the handlers take from outside: the clocks (`Instant` in nanoseconds, the time of day in seconds),
-- a new UUID, the two computations in floating point (the mean round trip in milliseconds, and the delay
-- of a player by ping and connection type), the lines of the welcome in the encoding chosen, a name as
-- it is written to a log, an address as text, and the configuration.
pub record Env : Type 0 where
  pub now : ℕ
  pub now_secs : ℕ
  pub new_session_id : ℕ
  pub mean_ping : ℕ → ℕ → ℕ
  pub auto_game_delay_frames : ℕ → ℕ → ℕ
  pub welcome_lines : List Bytes
  pub bytes_for_log : Bytes → Bytes
  pub addr_text : ℕ → Bytes
  pub disable_output_cache : Bool
  pub fixed_game_delay : Option ℕ
  pub same_game_delay : Bool
  pub shared_game_delay_window : Bool
  pub shared_game_delay_window_margin_frames : ℕ

pub data Error : Type 0 where
  client_not_found not_in_a_game game_not_found sync_manager_not_found : Error
  invalid_player_id game_sync_error : Error

-- `panics` ends the task, `loops` is a call that does not return.
pub data Result (A : Type 0) : Type 0 where
  ok : A → Result A
  err : Error → Result A
  panics loops : Result A

abbrev pub Exec : Type 0 → Type 0
Exec A = World → Result A × World

abbrev pub continue : {A B : Type 0} → Result A → (A → Exec B) → Exec B
continue (ok a) f w = f a w
continue (err e) f w = (err e, w)
continue panics f w = (panics, w)
continue loops f w = (loops, w)

infixl 5 ◌>>=◌ ◌>>◌
unfoldable pub ◌>>=◌ : {A B : Type 0} → Exec A → (A → Exec B) → Exec B
◌>>=◌ m f w = let (r, w') = m w in continue r f w'

abbrev pub ◌>>◌ : {B : Type 0} → Exec (Unit {0}) → Exec B → Exec B
m >> k = m >>= λ _. k

abbrev pub pure : {A : Type 0} → A → Exec A
pure a w = (ok a, w)

abbrev pub raise : {A : Type 0} → Error → Exec A
raise e w = (err e, w)

-- `ok_or_else`
abbrev pub or_fail : {A : Type 0} → Error → Option A → Exec A
or_fail e none = raise e
or_fail e (some a) = pure a

abbrev pub gets : {A : Type 0} → (AppState → A) → Exec A
gets f w = (ok (f w.app), w)

abbrev pub modify : (AppState → AppState) → Exec (Unit {0})
modify f w = (ok tt, record w { app = f w.app })

-- `let _ = m.await`
abbrev pub ignored : Result (Unit {0}) × World → Result (Unit {0}) × World
ignored (ok a, w) = (ok tt, w)
ignored (err e, w) = (ok tt, w)
ignored (panics, w) = (panics, w)
ignored (loops, w) = (loops, w)

unfoldable pub attempt : Exec (Unit {0}) → Exec (Unit {0})
attempt m w = ignored (m w)

-- `get_client` and `get_game` with the error of the callers.
abbrev pub client : ℕ → Exec ClientInfo
client addr w = or_fail client_not_found (get_client w.app addr) w

abbrev pub game : ℕ → Exec GameInfo
game game_id w = or_fail game_not_found (get_game w.app game_id) w

abbrev pub updated : World → Option AppState → Result (Unit {0}) × World
updated w none = (err client_not_found, w)
updated w (some s) = (ok tt, record w { app = s })

unfoldable pub with_client_mut : ℕ → (ClientInfo → ClientInfo) → Exec (Unit {0})
with_client_mut addr f w = updated w (update_client w.app addr f)

abbrev updated_game : {R : Type 0} → World → Option (R × AppState) → Result R × World
updated_game w none = (panics, w)
updated_game w (some (r, s)) = (ok r, record w { app = s })

-- A change of a room under its lock; a game that is not there is a panic.
unfoldable pub with_room : {R : Type 0} → ℕ → (GameInfo → R × GameInfo) → Exec R
with_room game_id f w = updated_game w (update_game w.app game_id f)

-- The game of a client.
unfoldable pub fetch_game_id : ℕ → Exec ℕ
fetch_game_id src = do c ← client src; or_fail not_in_a_game c.game_id

unfoldable pub with_game_mut : ℕ → (GameInfo → GameInfo) → Exec (Unit {0})
with_game_mut src f = do game_id ← fetch_game_id src; with_room game_id (λ g. (tt, f g))

unfoldable pub fetch_game_info : ℕ → Exec GameInfo
fetch_game_info src = do game_id ← fetch_game_id src; game game_id

-- `tx.send`
abbrev pub emit : ℕ → Bytes → Exec (Unit {0})
emit addr bytes w =
    (ok tt, record w { sent = w.sent ++ record { addr = addr; bytes = bytes } ∷ [] })

unfoldable pub close_session : ℕ → Exec (Unit {0})
close_session addr w = (ok tt, record w { closed = w.closed ++ addr ∷ [] })

abbrev pub for_each : {A : Type 0} → (A → Exec (Unit {0})) → List A → Exec (Unit {0})
for_each f [] = pure tt
for_each f (x ∷ xs) = f x >> for_each f xs
