-- ===== src/Server/Alone.antt =====
-- `handle_kick_user` of src/handlers/game.rs where an owner who is alone in a waiting room is the target.
use direlera_rs.Prelude.{
  ℕ, ◌≤◌, ◌≡◌, refl, Bool, true, false, inl, inr, some, none, [], ◌∷◌, Bytes, length, ltb, ◌==◌,
  nat_eq, arith, ==_iff,
}
use direlera_rs.Dict.{insert}
use direlera_rs.Protocol.Parse.{get_u16_le}
use direlera_rs.Packet.{read_string_bytes}
use direlera_rs.Room.{
  GamePlayerInfo, GameInfo, is_member, position, remove_at, migrate_owner_if_needed, kick_room,
}
use direlera_rs.State.{ClientInfo, AppState, get_client, get_game, update_game}
use direlera_rs.State.Lookup.{lookup-insert_self}
use direlera_rs.Server.{World, Env, Result, ok, err, panics, loops, Exec, ◌>>=◌, with_room}
use direlera_rs.Server.Leave.{to_lobby}
use direlera_rs.Server.Kick.{kick_target, kick_out, kick_checked, handle_kick_user}
use direlera_rs.Server.Triple.{
  Cond, After, Triple, Triple-bind, Keeps-bind, Keeps-pure, Keeps-gets, Triple-attempt,
}
use direlera_rs.Server.Quiet.{IsStable, Keeps-with_client_mut, Keeps-send_packet}
use direlera_rs.Server.Rooms.{update_client-cases}
use direlera_rs.Server.Quitting.{quit_and_status-Keeps}
use direlera_rs.Server.Messages.{Returns}

-- The room of the number is there as it is given.
abbrev Stands : ℕ → GameInfo → Cond
Stands game_id g s = get_game s game_id ≡ some g

Stands-IsStable : (game_id : ℕ) (g : GameInfo) → IsStable (Stands game_id g)
unfolding get_game
Stands-IsStable game_id g = record {
  keeps = λ s s' addr f h e p. let (id, d, q, l, m) = update_client-cases s s' addr f e in rw m p;
}

-- The room after the kick: empty, with the owner that it had.
abbrev pub emptied : GameInfo → GameInfo
emptied g = record g { num_players = 0; players = [] }

remove-only : (p : GamePlayerInfo) → remove_at (p ∷ []) (position p.addr (p ∷ [])) ≡ []
remove-only p = let q : (p.addr == p.addr) ≡ true = ground arith in rw q refl

kick-only :
    (g : GameInfo) (p : GamePlayerInfo)
    → g.sync_manager ≡ none
    → g.players ≡ p ∷ []
    → kick_room g p.addr ≡ (false, emptied g)
unfolding kick_room migrate_owner_if_needed
kick-only g p e n = rw (e, n, remove-only p) refl

room_then :
    (game_id : ℕ) (f : GameInfo → Bool × GameInfo) (k : Bool → Exec (Unit {0})) (g g' : GameInfo)
    (b : Bool)
    → f g ≡ (b, g')
    → Triple (Stands game_id g') (k b) (Stands game_id g') (Stands game_id g')
    → Triple (Stands game_id g) (with_room game_id f >>= k) (Stands game_id g') (Stands game_id g')
unfolding ◌>>=◌ with_room update_game get_game
room_then game_id f k g g' b e h = record {
  at = λ w p.
      rw (p, e)
        (h.at (record w { app = record w.app { games = insert game_id g' w.app.games } })
          (lookup-insert_self game_id g' w.app.games));
}

kick_out-empties :
    (env : Env) (game_id : ℕ) (g : GameInfo) (p : GamePlayerInfo) (c : ClientInfo)
    → g.sync_manager ≡ none
    → g.players ≡ p ∷ []
    → Triple
        (Stands game_id g)
        (kick_out env game_id p.addr c)
        (Stands game_id (emptied g))
        (Stands game_id (emptied g))
unfolding kick_out
kick_out-empties env game_id g p c e n =
    let stable = Stands-IsStable game_id (emptied g) in
    Triple-bind _ _
      (Triple-attempt _
        (Keeps-with_client_mut (Stands-IsStable game_id g) p.addr to_lobby (λ d. refl)))
      λ _.
        room_then game_id (λ g. kick_room g p.addr) _ g (emptied g) false (kick-only g p e n)
          (Keeps-bind _ _ (Keeps-pure tt) λ _.
            Keeps-bind _ _ (Keeps-send_packet stable env p.addr _ _)
              λ _. Keeps-bind _ _ (Keeps-gets _) (quit_and_status-Keeps stable game_id _))

-- The checks of the handler let the kick through.
kick_checked-alone :
    (env : Env) (src user_id game_id : ℕ) (w : World) (c : ClientInfo) (g : GameInfo)
    → get_client w.app src ≡ some c
    → c.game_id ≡ some game_id
    → get_game w.app game_id ≡ some g
    → is_member src g.players ≡ true
    → g.owner_user_id ≡ c.user_id
    → kick_target w.app user_id ≡ some (src, c)
    → kick_checked env src user_id w ≡ kick_out env game_id src c w
unfolding ◌>>=◌ kick_checked
kick_checked-alone env src user_id game_id w c g k l there member owner found =
    let same : (g.owner_user_id == c.user_id) ≡ true = (==_iff g.owner_user_id c.user_id).1 owner in
    let this : (game_id == game_id) ≡ true = ground arith in
    rw (k, l, there, member, same, found, k, l, this, there) refl

settled : (P : Cond) (r : Result (Unit {0})) (s : AppState) → After P P r s → Returns r × P s
settled P (ok a) s v = (inl refl, v)
settled P (err e) s v = (inr (e, refl), v)
settled P panics s v = absurd v
settled P loops s v = absurd v

-- An owner who is alone in a waiting room and names its own user id in a kick (the code does not check
-- the target, and finds the owner as the first client with that id) is taken out, and the room stays in the list of games: the call comes back, and the room is
-- there with no player, under the owner that it had.
pub kick_alone :
    (env : Env) (payload : Bytes) (src game_id : ℕ) (w : World) (c : ClientInfo) (g : GameInfo)
    (p : GamePlayerInfo)
    → 2 ≤ length (read_string_bytes payload).1
    → get_client w.app src ≡ some c
    → c.game_id ≡ some game_id
    → get_game w.app game_id ≡ some g
    → g.sync_manager ≡ none
    → g.players ≡ p ∷ []
    → p.addr ≡ src
    → g.owner_user_id ≡ c.user_id
    → kick_target w.app (get_u16_le (read_string_bytes payload).1) ≡ some (src, c)
    → let r = handle_kick_user env payload src w in
      Returns r.0 × (get_game r.1.app game_id ≡ some (emptied g))
unfolding handle_kick_user
kick_alone env payload src game_id w c g p long k l there waiting only addr owner found =
    let enough : ltb (length (read_string_bytes payload).1) 2 ≡ false = ground arith in
    let member : is_member src g.players ≡ true = rw only (ground (arith, addr)) in
    let v = (kick_out-empties env game_id g p c waiting only).at w there in
    let z =
      kick_checked-alone env src (get_u16_le (read_string_bytes payload).1) game_id w c g k l there
        member owner found in
    rw (enough, z, ← addr) (settled (Stands game_id (emptied g)) _ _ v)
