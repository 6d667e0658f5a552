-- ===== src/Server/Dropping.antt =====
-- `execute_drop_game` of src/handlers/game.rs keeps the rooms well formed.
use direlera_rs.Prelude.{ℕ, ◌≡◌, ◌≢◌, refl, sym, ◌∙◌, subst, false, Option, none, some, [], nat_eq}
use direlera_rs.Dict.{lookup}
use direlera_rs.Sync.Outcome.{Outcome}
use direlera_rs.Room.{GamePlayerInfo, GameInfo, position}
use direlera_rs.Room.Live.{DropOutcome, ignored, sync_manager_not_found, dropped}
use direlera_rs.Room
use direlera_rs.Room.Invariant.{IsRoom, IsRoomBut}
use direlera_rs.Room.Dropping
use direlera_rs.Room.Numbers.{Dropped, execute_drop_game-Dropped}
use direlera_rs.State.{ClientInfo, AppState, get_game}
use direlera_rs.Server.{Env}
use direlera_rs.Server.Leave.{execute_drop_game, in_game, drop_known, slot_or_0}
use direlera_rs.Server.Triple.{Cond, Triple, Keeps-pure, Keeps-raise, gets_then, weaken}
use direlera_rs.Server.Known.{assume, client_known}
use direlera_rs.Server.Rooms.{Good, IsServer, Held}
use direlera_rs.Server.Locked.{At, Held-widen, Held-IsServer}
use direlera_rs.Server.Leaving.{after_drop-IsServer}

-- The room, where its player at the address may have left and is not dropped yet.
pub record Leaves (game_id addr : ℕ) (g : GameInfo) : Type 0 where
  pub room : IsRoomBut (position addr g.players) g
  pub number : g.game_id ≡ game_id
  pub not_empty : g.players ≢ []

module _ (env : Env) (game_id addr : ℕ) where
  abbrev pub Now : Cond
  Now = Held (At game_id (Leaves game_id addr)) game_id addr

  unchanged :
      (g g' : GameInfo)
      → Leaves game_id addr g
      → IsRoom g'
      → g' ≡ g
      → (s : AppState) → Held (At game_id (λ x. x ≡ g)) game_id addr s
      → IsServer s
  unchanged g g' l v e s p = Held-IsServer game_id addr s (
      Held-widen game_id addr _ (Good game_id)
        (λ x z. record {
          room = subst IsRoom (e ∙ sym z) v;
          number = rw z l.number;
          not_empty = rw z l.not_empty;
        })
        s p)

  in_game-IsServer :
      (c : ClientInfo) (g : GameInfo) (r : DropOutcome × GameInfo)
      → Leaves game_id addr g
      → IsRoom r.1
      → Dropped g r.0 r.1
      → Triple
          (Held (At game_id (λ x. x ≡ g)) game_id addr)
          (in_game env game_id c addr g (Outcome.ok r))
          IsServer
          IsServer
  in_game-IsServer c g (ignored, g') l v e =
      weaken _ (unchanged g g' l v e) (λ s p. p) (λ s p. p) (Keeps-pure false)
  in_game-IsServer c g (sync_manager_not_found, g') l v e =
      weaken _ (unchanged g g' l v e) (λ s p. p) (λ s p. p) (Keeps-raise _)
  in_game-IsServer c g (dropped outputs all, g') l v e =
      after_drop-IsServer env game_id addr c (slot_or_0 (position addr g.players)) g.players outputs
        all g' (λ x. x ≡ g) v (e.0 ∙ l.number) (λ h. λ z. l.not_empty (sym (e.1 h) ∙ z))

  drop_known-IsServer :
      (c : ClientInfo) (o : Option GameInfo)
      → Triple
          (λ s. Now s × (get_game s game_id ≡ o))
          (drop_known env game_id c addr o)
          IsServer
          IsServer
  unfolding get_game
  drop_known-IsServer c none = record {
    at = λ w p. let (g, e) = p.0.there in let z : some g ≡ none = sym e ∙ p.1 in cc;
  }
  drop_known-IsServer c (some g) =
      assume (Leaves game_id addr g) _ (λ s p. (p.0.rooms.each game_id g p.1).1 refl)
        λ l.
          let (r, e, v) = Room.Dropping.execute_drop_game-IsRoom g addr l.room in
          rw e (
            weaken _ (λ s p. exact s p) (λ s p. p) (λ s p. p)
              (in_game-IsServer c g r l v (execute_drop_game-Dropped g addr r e)))
    where
      exact :
          (s : AppState)
          → Now s × (lookup game_id s.games ≡ some g)
          → Held (At game_id (λ x. x ≡ g)) game_id addr s
      exact s p = record {
        rooms = record {
          each = λ id x e. (
            (p.0.rooms.each id x e).0,
            (λ z. let q : some x ≡ some g = sym (rw z at e) ∙ p.1 in cc),
          );
          lan = p.0.rooms.lan;
        };
        there = (g, p.1);
        known = p.0.known;
      }

  -- The drop of a client that is there, in a game that is there, leaves every room well formed.
  pub execute_drop_game-IsServer : Triple Now (execute_drop_game env game_id addr) IsServer IsServer
  unfolding execute_drop_game
  execute_drop_game-IsServer =
      client_known addr _ (λ s p. p.known)
        λ c. gets_then (λ s. get_game s game_id) _ (drop_known-IsServer c)
