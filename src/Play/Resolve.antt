-- ===== src/Play/Resolve.antt =====
-- `resolve_in_game` of src/handlers/util.rs, taken apart, and what an input keeps of a room.
use direlera_rs.Prelude.{ℕ, ◌≡◌, refl, Option, none, some, nat_eq}
use direlera_rs.Dict.{lookup}
use direlera_rs.Sync.Outcome.{Outcome, ok, err, loops}
use direlera_rs.Sync.Cached.{ClientInput, Reply}
use direlera_rs.Sync.Delayed.{DelayedGameSync}
use direlera_rs.Sync.Delayed
use direlera_rs.Room.{GameInfo, position}
use direlera_rs.State.{ClientInfo, AppState, get_client, get_game}
use direlera_rs.Play.{
  Processed, found_game, game_at, game_of, placed, slot_in, resolve_in_game, after_input, in_sync,
  process_input,
}

-- The client, its game and its slot.
pub record Resolved (s : AppState) (src game_id : ℕ) (g : GameInfo) (i : ℕ) : Type 0 where
  pub client : ClientInfo
  pub known : get_client s src ≡ some client
  pub there : get_game s game_id ≡ some g
  pub slot : position src g.players ≡ some i

pub resolve_in_game-Resolved :
    (s : AppState) (src game_id : ℕ) (g : GameInfo) (i : ℕ)
    → resolve_in_game s src ≡ some ((game_id, g), i)
    → Resolved s src game_id g i
unfolding resolve_in_game get_game
resolve_in_game-Resolved s src game_id g i e = at (get_client s src) refl e
  where
    slotted :
        (c : ClientInfo) (id : ℕ) (h : GameInfo)
        → get_client s src ≡ some c
        → lookup id s.games ≡ some h
        → (o : Option ℕ) → position src h.players ≡ o
        → placed (id, h) o ≡ some ((game_id, g), i)
        → Resolved s src game_id g i
    slotted c id h k l none q e = cc
    slotted c id h k l (some j) q e =
        let a : id ≡ game_id = cc in
        let b : h ≡ g = cc in
        let d : j ≡ i = cc in
        record { client = c; known = k; there = rw (a, b) at l; slot = rw (b, d) at q }

    found :
        (c : ClientInfo) (id : ℕ)
        → get_client s src ≡ some c
        → (o : Option GameInfo) → lookup id s.games ≡ o
        → slot_in src (found_game id o) ≡ some ((game_id, g), i)
        → Resolved s src game_id g i
    found c id k none l e = cc
    found c id k (some h) l e = slotted c id h k l (position src h.players) refl e

    within :
        (c : ClientInfo)
        → get_client s src ≡ some c
        → (o : Option ℕ) → slot_in src (game_at s o) ≡ some ((game_id, g), i)
        → Resolved s src game_id g i
    within c k none e = cc
    within c k (some id) e = found c id k (lookup id s.games) refl e

    at :
        (o : Option ClientInfo)
        → get_client s src ≡ o
        → slot_in src (game_of s o) ≡ some ((game_id, g), i)
        → Resolved s src game_id g i
    at none k e = cc
    at (some c) k e = within c k c.game_id e

abbrev Same : GameInfo → Outcome (Processed × GameInfo) → Type 0
Same g (ok r) = (r.1.game_id ≡ g.game_id) × (r.1.players ≡ g.players)
Same g (err e) = Unit
Same g loops = Unit

after_input-Same : (g : GameInfo) (o : Outcome (Reply × DelayedGameSync)) → Same g (after_input g o)
after_input-Same g (ok r) = (refl, refl)
after_input-Same g (err e) = (refl, refl)
after_input-Same g loops = tt

in_sync-Same :
    (g : GameInfo) (i : ℕ) (input : ClientInput) (o : Option DelayedGameSync)
    → Same g (in_sync g i input o)
in_sync-Same g i input none = (refl, refl)
in_sync-Same g i input (some d) = after_input-Same g (Delayed.process_client_input d i input)

-- An input changes neither the number nor the players of a room.
pub process_input_keeps :
    (g : GameInfo) (i : ℕ) (input : ClientInput) (r : Processed × GameInfo)
    → process_input g i input ≡ ok r
    → (r.1.game_id ≡ g.game_id) × (r.1.players ≡ g.players)
unfolding process_input
process_input_keeps g i input r e = rw e at (in_sync-Same g i input g.sync_manager)
