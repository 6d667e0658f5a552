-- ===== src/Server/Lobbies.antt =====
-- `handle_create_game` and `handle_join_game` keep the rooms well formed.
use direlera_rs.Prelude.{ℕ, ◌≡◌, refl, Option, none, some, Bytes, arith, nat_eq, inl, inr}
use direlera_rs.Dict.{lookup}
use direlera_rs.Room.{GameInfo, new_room}
use direlera_rs.Room.Invariant.{new_room-IsRoom}
use direlera_rs.State.{ClientInfo, AppState, get_client, add_game, next_game_id, client_of}
use direlera_rs.State.Lookup.{lookup-insert_cases}
use direlera_rs.Server.{Env}
use direlera_rs.Server.Lobby.{
  enter, forget_stale, host, announce_game, open_game, handle_create_game,
}
use direlera_rs.Server.Triple.{
  Keeps, Triple-bind, Keeps-bind, Keeps-pure, Keeps-gets, Keeps-if, Keeps-client, Triple-modify,
}
use direlera_rs.Server.Known.{client_then, assume}
use direlera_rs.Server.Quiet.{
  Keeps-with_client_mut, Keeps-send_packet, Keeps-broadcast_packet, Keeps-broadcast_status,
}
use direlera_rs.Server.Rooms.{Good, IsServer}
use direlera_rs.Server.Leaving.{IsServer-IsStable}
use direlera_rs.Server.Users.{Triple-change}

next_game_id-IsServer : (s : AppState) → IsServer s → IsServer (next_game_id s).1
unfolding next_game_id
next_game_id-IsServer s v = record { each = v.each; lan = v.lan }

-- Every client that is found has the connection type of a LAN.
pub lan_client :
    (s : AppState) (addr : ℕ) (c : ClientInfo)
    → IsServer s
    → get_client s addr ≡ some c
    → c.conn_type ≡ 1
unfolding get_client
lan_client s addr c v = at (lookup addr s.clients_by_addr)
  where
    at : (o : Option ℕ) → client_of s o ≡ some c → c.conn_type ≡ 1
    at none e = cc
    at (some id) e = v.lan id c e

add_game-IsServer :
    (game_id : ℕ) (g : GameInfo)
    → Good game_id g
    → (s : AppState) → IsServer s
    → IsServer (add_game s game_id g)
unfolding add_game
add_game-IsServer game_id g q s v = record {
  each = λ id x e. elim (lookup-insert_cases game_id id g x s.games e) [
    | inl (same, z) ↦ rw (← same, ← z) q
    | inr (other, z) ↦ v.each id x z
  ];
  lan = v.lan;
}

announce_game-Keeps :
    (env : Env) (src : ℕ) (g : GameInfo) → Keeps IsServer (announce_game env src g)
unfolding announce_game
announce_game-Keeps env src g = Keeps-bind _ _ (Keeps-broadcast_packet IsServer-IsStable _ _) λ _.
    Keeps-bind _ _ (Keeps-broadcast_status IsServer-IsStable g) λ _.
      Keeps-bind _ _ (Keeps-gets _) λ info.
        Keeps-bind _ _ (Keeps-send_packet IsServer-IsStable env src _ info) λ _.
          Keeps-bind _ _ (Keeps-client src) (λ c. Keeps-send_packet IsServer-IsStable env src _ _)

new_room-Good :
    (game_id src : ℕ) (name : Bytes) (c : ClientInfo)
    → c.conn_type ≡ 1
    → Good game_id (new_room game_id name c.emulator_name (host src c))
new_room-Good game_id src name c h = record {
  room = new_room-IsRoom game_id name c.emulator_name (host src c) refl (omega arith);
  number = refl;
  not_empty = λ z. cc;
}

open_game-Keeps : (env : Env) (src : ℕ) (name : Bytes) → Keeps IsServer (open_game env src name)
unfolding open_game
open_game-Keeps env src name = Keeps-bind _ _ (Triple-change _ next_game_id-IsServer) λ game_id.
    client_then src _ (λ s p. p)
      λ c.
        assume (c.conn_type ≡ 1) _ (λ s p. lan_client s src c p.0 p.1)
          λ h.
            Triple-bind _ _
              (Triple-modify _
                (λ s p. add_game-IsServer game_id _ (new_room-Good game_id src name c h) s p.0))
              λ _.
                Keeps-bind _ _
                  (Keeps-with_client_mut IsServer-IsStable src (enter game_id) (λ d. refl))
                  (λ _. announce_game-Keeps env src _)

-- A new game leaves every room well formed.
pub handle_create_game-IsServer :
    (env : Env) (payload : Bytes) (src : ℕ) → Keeps IsServer (handle_create_game env payload src)
unfolding handle_create_game
handle_create_game-IsServer env payload src = Keeps-bind _ _ (Keeps-gets _) λ current.
    Keeps-bind _ _ (Keeps-gets _) λ seated.
      Keeps-if seated _ _ (Keeps-pure tt)
        (Keeps-bind _ _ (at current) (λ _. open_game-Keeps env src _))
  where
    at : (o : Option ℕ) → Keeps IsServer (forget_stale src o)
    at none = Keeps-pure tt
    at (some id) = Keeps-with_client_mut IsServer-IsStable src _ (λ d. refl)
