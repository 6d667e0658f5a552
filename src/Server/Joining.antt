-- ===== src/Server/Joining.antt =====
-- `handle_join_game` of src/handlers/game.rs keeps the rooms well formed.
use direlera_rs.Prelude.{
  ℕ, ◌≡◌, ◌≢◌, refl, subst, Bool, true, false, Option, none, some, List, [], ◌∷◌, ◌++◌, ◌+◌, ◌%◌,
  Bytes, arith, nat_eq, length, drop, ltb, Bool-cases, inl, inr, if◌then◌else◌,
}
use direlera_rs.Dict.{lookup}
use direlera_rs.Packet.{read_string_bytes}
use direlera_rs.Room.{GamePlayerInfo, GameInfo, is_member, can_join, add_player}
use direlera_rs.Room.Invariant.{IsRoom}
use direlera_rs.Room.Leaving.{join_room-can, join_room-IsRoom}
use direlera_rs.State.{ClientInfo, AppState, get_client, get_game, update_client}
use direlera_rs.State.Lookup.{lookup-insert_self}
use direlera_rs.Server.{
  World, Env, ◌>>=◌, updated, with_client_mut, with_room, with_game_mut, fetch_game_id,
}
use direlera_rs.Server.Lobby.{
  enter, host, announce_join, enter_room, join_found, join_from, join, handle_join_game,
}
use direlera_rs.Server.Triple.{
  Triple-pure, Cond, After, Triple, Keeps, Triple-bind, Keeps-bind, Keeps-pure, Keeps-gets,
  Keeps-if, Keeps-client, Keeps-game, Triple-for_each, gets_then, weaken,
}
use direlera_rs.Server.Known.{client_then, assume}
use direlera_rs.Server.Quiet.{Keeps-send_packet, Keeps-broadcast_packet_to_game}
use direlera_rs.Server.Rooms.{Good, IsServer, Held, Held-IsStable, update_client-cases}
use direlera_rs.Server.Locked.{At, Held-widen, Held-IsServer, Held-exact, Triple-with_room}
use direlera_rs.Server.Leaving.{IsServer-IsStable}
use direlera_rs.Server.Lobbies.{lan_client}

-- A client that was changed is found with the change.
pub get_client-update :
    (s s' : AppState) (addr : ℕ) (f : ClientInfo → ClientInfo) (c : ClientInfo)
    → update_client s addr f ≡ some s'
    → get_client s addr ≡ some c
    → get_client s' addr ≡ some (f c)
unfolding get_client
get_client-update s s' addr f c e k =
    let (id, d, q, l, m) = update_client-cases s s' addr f e in
    let k' : lookup id s.clients_by_id ≡ some c = rw q at k in
    let same : d ≡ c = cc in rw (m, q, same) (lookup-insert_self id (f c) s.clients_by_id)

-- A room that can be joined, and the client that joins it, before and after it is told.
abbrev Joinable : ℕ → GameInfo → Type 0
Joinable game_id g = Good game_id g × (can_join g ≡ true)

abbrev Entered : ℕ → ℕ → Cond
Entered game_id src s =
    Held (At game_id (Joinable game_id)) game_id src s
    × ((c : ClientInfo) × (get_client s src ≡ some c) × (c.game_id ≡ some game_id))

module _ (env : Env) (src game_id : ℕ) (c : ClientInfo) (lan : c.conn_type ≡ 1) where
  entering :
      Triple
        (λ s. Held (At game_id (Joinable game_id)) game_id src s × (get_client s src ≡ some c))
        (with_client_mut src (enter game_id))
        (Entered game_id src)
        IsServer
  unfolding with_client_mut
  entering = record { at = λ w p. at w p (update_client w.app src (enter game_id)) refl }
    where
      at :
          (w : World)
          → Held (At game_id (Joinable game_id)) game_id src w.app × (get_client w.app src ≡ some c)
          → (o : Option AppState) → update_client w.app src (enter game_id) ≡ o
          → After (Entered game_id src) IsServer (updated w o).0 (updated w o).1.app
      at w p none e =
          Held-IsServer game_id src w.app
            (Held-widen game_id src (Joinable game_id) (Good game_id) (λ g v. v.0) w.app p.0)
      at w p (some s) e = (
        (Held-IsStable (At game_id (Joinable game_id)) game_id src).keeps w.app s src
            (enter game_id) (λ d. refl) e p.0,
        (enter game_id c, get_client-update w.app s src (enter game_id) c e p.1, refl),
      )

  seat-Good : (g : GameInfo) → Joinable game_id g → Good game_id (add_player g (host src c))
  seat-Good g (v, can) = record {
    room =
        subst IsRoom (join_room-can g (host src c) can)
          (join_room-IsRoom g (host src c) v.not_empty refl (omega arith) v.room).0;
    number = numbered (is_member src g.players);
    not_empty = some_one (is_member src g.players);
  }
    where
      seated : Bool → GameInfo
      seated b = if b then g else record g {
        num_players = (g.num_players + 1) % 256;
        players = g.players ++ host src c ∷ [];
      }

      numbered : (b : Bool) → (seated b).game_id ≡ game_id
      numbered true = v.number
      numbered false = v.number

      grown : (ps : List GamePlayerInfo) → ps ++ host src c ∷ [] ≢ []
      grown [] z = cc
      grown (p ∷ ps) z = cc

      some_one : (b : Bool) → (seated b).players ≢ []
      some_one true = v.not_empty
      some_one false = grown g.players

  seating :
      Triple
        (Entered game_id src)
        (with_game_mut src (λ g. add_player g (host src c)))
        IsServer
        IsServer
  unfolding with_game_mut fetch_game_id ◌>>=◌
  seating = record {
    at = λ w p.
        let (d, k, q) = p.1 in rw (k, q) ((weaken _ (λ s x. x) (λ s x. x) (λ s x. x) one).at w p.0);
  }
    where
      one :
          Triple
            (Held (At game_id (Joinable game_id)) game_id src)
            (with_room game_id (λ g. (tt, add_player g (host src c))))
            IsServer
            IsServer
      one =
          weaken _ (λ s x. x) (Held-IsServer game_id src) (λ s x. x)
            (Triple-with_room {E = IsServer} game_id src (Joinable game_id) (Good game_id) _
              seat-Good)

announce_join-Keeps : (env : Env) (src game_id : ℕ) → Keeps IsServer (announce_join env src game_id)
unfolding announce_join
announce_join-Keeps env src game_id = Keeps-bind _ _ (Keeps-game game_id) λ g.
    Keeps-bind _ _ (Keeps-gets _) λ addrs.
      Keeps-bind _ _
        (Triple-for_each _ (λ addr. Keeps-send_packet IsServer-IsStable env addr _ _) addrs)
        λ _. Keeps-bind _ _ (Keeps-gets _) λ info.
          Keeps-bind _ _ (Keeps-send_packet IsServer-IsStable env src _ info) λ _.
            Keeps-bind _ _ (Keeps-client src)
              (λ c. Keeps-broadcast_packet_to_game IsServer-IsStable game_id _ _)

enter_room-IsServer :
    (env : Env) (src game_id : ℕ) (c : ClientInfo)
    → c.conn_type ≡ 1
    → Triple
        (λ s. Held (At game_id (Joinable game_id)) game_id src s × (get_client s src ≡ some c))
        (enter_room env src c game_id)
        IsServer
        IsServer
unfolding enter_room
enter_room-IsServer env src game_id c lan =
    Triple-bind _ _ (entering env src game_id c lan) λ _.
      Triple-bind _ _ (seating env src game_id c lan) (λ _. announce_join-Keeps env src game_id)

join_found-IsServer :
    (env : Env) (src game_id : ℕ) (c : ClientInfo) (o : Option GameInfo)
    → Triple
        (λ s. (IsServer s × (get_client s src ≡ some c)) × (get_game s game_id ≡ o))
        (join_found env src c game_id o)
        IsServer
        IsServer
join_found-IsServer env src game_id c none = Triple-pure tt (λ s p. p.0.0)
join_found-IsServer env src game_id c (some g) = elim (Bool-cases (can_join g)) [
  | inr cannot ↦ rw cannot (Triple-pure tt (λ s p. p.0.0))
  | inl can ↦ rw can (
      assume (c.conn_type ≡ 1) _ (λ s p. lan_client s src c p.0.0 p.0.1)
        λ lan.
          weaken _
            (λ s p. (
              Held-exact game_id src (Joinable game_id) s g c p.0.0 p.1 p.0.1 (λ v. (v, can)),
              p.0.1,
            ))
            (λ s p. p) (λ s p. p) (enter_room-IsServer env src game_id c lan))
]

join_from-IsServer :
    (env : Env) (src game_id : ℕ) (c : ClientInfo) (o : Option ℕ)
    → Triple
        (λ s. IsServer s × (get_client s src ≡ some c))
        (join_from env src c game_id o)
        IsServer
        IsServer
join_from-IsServer env src game_id c (some current) = Triple-pure tt (λ s p. p.0)
join_from-IsServer env src game_id c none =
    gets_then (λ s. get_game s game_id) _ (join_found-IsServer env src game_id c)

-- A join, granted or refused, leaves every room well formed.
pub handle_join_game-IsServer :
    (env : Env) (payload : Bytes) (src : ℕ) → Keeps IsServer (handle_join_game env payload src)
unfolding handle_join_game join
handle_join_game-IsServer env payload src =
    let buf = (read_string_bytes payload).1 in
    elim (Bool-cases (ltb (length buf) 11)) [
      | inl short ↦ rw short (Keeps-pure tt)
      | inr long ↦ rw long (
          Keeps-if (ltb (length (read_string_bytes (drop 4 buf)).1) 7) _ _ (Keeps-pure tt)
            (client_then src _ (λ s p. p) (λ c. join_from-IsServer env src _ c c.game_id)))
    ]
