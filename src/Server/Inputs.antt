-- ===== src/Server/Inputs.antt =====
-- Inputs and drops of players keep the rooms well formed: handle_game_data, handle_game_cache and
-- handle_drop_game.
use direlera_rs.Prelude.{
  ℕ, ◌≡◌, refl, sym, ◌∙◌, Option, none, some, Bytes, nat_eq, Option-cases, inl, inr,
}
use direlera_rs.Dict.{insert}
use direlera_rs.Sync.Outcome.{Outcome}
use direlera_rs.Sync.Cached.{ClientInput}
use direlera_rs.Sync.Delayed.{DelayedGameSync}
use direlera_rs.Room.{GameInfo, position}
use direlera_rs.Room.Invariant.{IsRoom, IsRoomBut, Mode}
use direlera_rs.State.{AppState, get_game}
use direlera_rs.Play.{
  Handled, done, failed, Processed, not_initialized, process_input, resolve_in_game, in_room,
  game_data_payload, game_cache_payload, stored, with_data, with_position,
}
use direlera_rs.Play
use direlera_rs.Play.Answers.{process_input-Answered}
use direlera_rs.Play.Resolve.{Resolved, resolve_in_game-Resolved, process_input_keeps}
use direlera_rs.Server.{World, Env}
use direlera_rs.Server.Leave.{drop_resolved, handle_drop_game}
use direlera_rs.Server.Input.{answered, after, handle_game_data, handle_game_cache}
use direlera_rs.Server.Triple.{
  Triple-pure, After, Triple, Keeps, Triple-bind, Keeps-bind, Keeps-pure, Keeps-raise,
  Triple-for_each, gets_then, weaken,
}
use direlera_rs.Server.Quiet.{Keeps-send_packet}
use direlera_rs.Server.Rooms.{Good, IsServer}
use direlera_rs.Server.Locked.{At-IsServer, IsServer-At, put-At, Held-widen, IsServer-Held}
use direlera_rs.Server.Leaving.{IsServer-IsStable}
use direlera_rs.Server.Dropping.{Leaves, execute_drop_game-IsServer}

-- A good room may await the drop of any slot.
loosen : (o : Option ℕ) (g : GameInfo) → IsRoom g → IsRoomBut o g
loosen o g v = record {
  counted = v.counted;
  fits = v.fits;
  small = v.small;
  positive = v.positive;
  owner = v.owner;
  mode = at g.sync_manager v.mode;
}
  where
    at :
        (d : Option DelayedGameSync)
        → Mode g.game_status g.players none d
        → Mode g.game_status g.players o d
    at none m = m
    at (some d) m = record {
      playing = m.playing;
      valid = m.valid;
      slots = m.slots;
      left = λ j h. elim (m.left j h) [ inl gone ↦ inl gone | inr e ↦ cc ];
      going = m.going;
    }

pub handle_drop_game-IsServer : (env : Env) (src : ℕ) → Keeps IsServer (handle_drop_game env src)
unfolding handle_drop_game
handle_drop_game-IsServer env src = gets_then (λ s. resolve_in_game s src) _ at
  where
    at :
        (o : Option ((ℕ × GameInfo) × ℕ))
        → Triple
            (λ s. IsServer s × (resolve_in_game s src ≡ o))
            (drop_resolved env src o)
            IsServer
            IsServer
    at none = Triple-pure tt (λ s p. p.0)
    at (some ((game_id, g), i)) =
        weaken _
          (λ s p.
            let r = resolve_in_game-Resolved s src game_id g i p.1 in
            Held-widen game_id src (Good game_id) (Leaves game_id src)
              (λ x v. record {
                room = loosen (position src x.players) x v.room;
                number = v.number;
                not_empty = v.not_empty;
              })
              s (IsServer-Held game_id src s g r.client p.0 r.there r.known))
          (λ s p. p) (λ s p. p)
          (Triple-bind _ _ (execute_drop_game-IsServer env game_id src) (λ _. Keeps-pure tt))

-- An input returns in every state of a good room.
input_ends :
    (s : AppState) (src game_id : ℕ) (g : GameInfo) (i : ℕ) (input : ClientInput)
    → IsServer s
    → Resolved s src game_id g i
    → (r : Processed × GameInfo) × (process_input g i input ≡ Outcome.ok r) × IsRoom r.1
unfolding process_input get_game
input_ends s src game_id g i input v q = elim (Option-cases g.sync_manager) [
  | inl off ↦ ((not_initialized, g), rw off refl, (v.each game_id g q.there).room)
  | inr (d, on) ↦
      let (r, e, w, _) =
        process_input-Answered g src i input d (v.each game_id g q.there).room on q.slot in
      (r, e, w)
]

-- What the handlers of src/handlers/sync.rs do to the state keeps it.
abbrev Stays : Outcome (Handled × AppState) → Type 0
Stays (Outcome.ok r) = IsServer r.1
Stays (Outcome.err e) = ⊥
Stays Outcome.loops = ⊥

in_room-Stays :
    (s : AppState) (src : ℕ) (input : ClientInput) (o : Option ((ℕ × GameInfo) × ℕ))
    → resolve_in_game s src ≡ o
    → IsServer s
    → Stays (in_room s src input o)
unfolding get_game
in_room-Stays s src input none e v = v
in_room-Stays s src input (some ((game_id, g), i)) e v =
    let q = resolve_in_game-Resolved s src game_id g i e in
    let good = v.each game_id g q.there in
    let (r, k, w) = input_ends s src game_id g i input v q in
    let (number, players) = process_input_keeps g i input r k in
    rw k (
      At-IsServer game_id (record s { games = insert game_id r.1 s.games })
        (put-At game_id (Good game_id) (Good game_id) s r.1 (IsServer-At game_id s v) record {
          room = w;
          number = number ∙ good.number;
          not_empty = λ z. good.not_empty (sym players ∙ z);
        }))

answered-IsServer : (env : Env) (h : Handled) → Keeps IsServer (answered env h)
answered-IsServer env Play.ignored = Keeps-pure tt
answered-IsServer env (done sends) =
    Triple-for_each _ (λ x. Keeps-send_packet IsServer-IsStable env _ _ _) sends
answered-IsServer env (failed sends) =
    Keeps-bind _ _ (Triple-for_each _ (λ x. Keeps-send_packet IsServer-IsStable env _ _ _) sends)
      (λ _. Keeps-raise _)

after-IsServer :
    (env : Env) (w : World) (o : Outcome (Handled × AppState))
    → Stays o
    → After IsServer IsServer (after env w o).0 (after env w o).1.app
after-IsServer env w (Outcome.ok r) v = (answered-IsServer env r.0).at (record w { app = r.1 }) v
after-IsServer env w (Outcome.err e) v = absurd v
after-IsServer env w Outcome.loops v = absurd v

-- Game data and cache positions leave every room well formed; the engine never runs for ever.
pub handle_game_data-IsServer :
    (env : Env) (payload : Bytes) (src : ℕ) → Keeps IsServer (handle_game_data env payload src)
unfolding handle_game_data Play.handle_game_data
handle_game_data-IsServer env payload src = record {
  at = λ w v. after-IsServer env w _ (at w.app v (game_data_payload payload));
}
  where
    at : (s : AppState) → IsServer s → (o : Option Bytes) → Stays (with_data s src o)
    at s v none = v
    at s v (some bytes) =
        in_room-Stays s src (ClientInput.game_data bytes) (resolve_in_game s src) refl v

pub handle_game_cache-IsServer :
    (env : Env) (payload : Bytes) (src : ℕ) → Keeps IsServer (handle_game_cache env payload src)
unfolding handle_game_cache Play.handle_game_cache
handle_game_cache-IsServer env payload src = record {
  at = λ w v. after-IsServer env w _ (at w.app v (game_cache_payload payload));
}
  where
    at : (s : AppState) → IsServer s → (o : Option ℕ) → Stays (with_position s src o)
    at s v none = v
    at s v (some pos) =
        in_room-Stays s src (ClientInput.game_cache pos) (resolve_in_game s src) refl v
