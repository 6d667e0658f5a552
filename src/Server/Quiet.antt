-- ===== src/Server/Quiet.antt =====
-- Actions that change clients only, and keep their connection types: all that is sent.
use direlera_rs.Prelude.{
  ℕ, ◌≡◌, ◌≢◌, refl, nat_eq, Bool, true, false, Option, none, some, map, Bytes, if◌then◌else◌,
}
use direlera_rs.Dict.{lookup}
use direlera_rs.Room.{GamePlayerInfo, GameInfo}
use direlera_rs.State.{
  ClientInfo, AppState, get_client, update_client, update_in, changed, client_of,
}
use direlera_rs.Server.{World, Env, pure, with_client_mut, fetch_game_id, fetch_game_info, updated}
use direlera_rs.Server.Send.{
  deliver, stamped, send_packet, offer, offer_to, broadcast_packet, broadcast_packet_to_game,
  is_in_game,
}
use direlera_rs.Server.Status.{is_logged_in}
use direlera_rs.Server.Leave.{set_status, broadcast_status}
use direlera_rs.Server.Triple.{
  Cond, After, Triple, Keeps, Triple-bind, Keeps-bind, Keeps-or_fail, Triple-for_each, gets_then,
  Keeps-emit, Keeps-client, Keeps-game,
}
use direlera_rs.Server.Known.{client_known}

-- A client that is found can be changed.
pub update_client-ne-none :
    (s : AppState) (addr : ℕ) (f : ClientInfo → ClientInfo) (c : ClientInfo)
    → get_client s addr ≡ some c
    → update_client s addr f ≢ none
unfolding get_client update_client
update_client-ne-none s addr f c = at (lookup addr s.clients_by_addr)
  where
    found : (id : ℕ) (o : Option ClientInfo) → o ≡ some c → changed s f id o ≢ none
    found id none k e = cc
    found id (some d) k e = cc

    at : (o : Option ℕ) → client_of s o ≡ some c → update_in s f o ≢ none
    at none k e = cc
    at (some id) k e = found id (lookup id s.clients_by_id) k e

-- A change of one client that keeps its connection type keeps the condition.
pub record IsStable (P : Cond) : Type 0 where
  pub keeps :
      (s s' : AppState) (addr : ℕ) (f : ClientInfo → ClientInfo)
      → ((c : ClientInfo) → (f c).conn_type ≡ c.conn_type)
      → update_client s addr f ≡ some s'
      → P s
      → P s'

module _ {P : Cond} (stable : IsStable P) where
  pub Keeps-with_client_mut :
      (addr : ℕ) (f : ClientInfo → ClientInfo)
      → ((c : ClientInfo) → (f c).conn_type ≡ c.conn_type)
      → Keeps P (with_client_mut addr f)
  unfolding with_client_mut
  Keeps-with_client_mut addr f h = record { at = λ w p. at w p (update_client w.app addr f) refl }
    where
      at :
          (w : World)
          → P w.app
          → (o : Option AppState) → update_client w.app addr f ≡ o
          → After P P (updated w o).0 (updated w o).1.app
      at w p none e = p
      at w p (some s) e = stable.keeps w.app s addr f h e p

  with_client_known :
      {E : Cond} (c : ClientInfo) (addr : ℕ) (f : ClientInfo → ClientInfo)
      → ((c : ClientInfo) → (f c).conn_type ≡ c.conn_type)
      → Triple (λ s. P s × (get_client s addr ≡ some c)) (with_client_mut addr f) P E
  unfolding with_client_mut
  with_client_known {E = E} c addr f h = record {
    at = λ w p. at w p (update_client w.app addr f) refl;
  }
    where
      at :
          (w : World)
          → P w.app × (get_client w.app addr ≡ some c)
          → (o : Option AppState) → update_client w.app addr f ≡ o
          → After P E (updated w o).0 (updated w o).1.app
      at w p none e = absurd (update_client-ne-none w.app addr f c p.1 e)
      at w p (some s) e = stable.keeps w.app s addr f h e p.0

  pub Keeps-set_status : (status : ℕ) (p : GamePlayerInfo) → Keeps P (set_status status p)
  Keeps-set_status status p =
      Keeps-with_client_mut p.addr (λ c. record c { player_status = status }) (λ c. refl)

  pub Keeps-deliver :
      (addr packet_type : ℕ) (payload : Bytes) (f : ClientInfo → ClientInfo)
      → ((c : ClientInfo) → (f c).conn_type ≡ c.conn_type)
      → Keeps P (deliver addr packet_type payload f)
  unfolding deliver
  Keeps-deliver addr packet_type payload f h =
      Keeps-bind _ _ (Keeps-client addr)
        λ c. Keeps-bind _ _ (Keeps-with_client_mut addr _ h) (λ _. Keeps-emit addr _)

  pub Keeps-send_packet :
      (env : Env) (addr packet_type : ℕ) (payload : Bytes)
      → Keeps P (send_packet env addr packet_type payload)
  unfolding send_packet
  Keeps-send_packet env addr packet_type payload =
      Keeps-deliver addr packet_type payload (stamped env packet_type) (λ c. refl)

  -- To a client that is there nothing fails.
  deliver_known :
      {E : Cond} (c : ClientInfo) (addr packet_type : ℕ) (payload : Bytes)
      → Triple
          (λ s. P s × (get_client s addr ≡ some c))
          (deliver addr packet_type payload (λ c. c))
          P
          E
  unfolding deliver
  deliver_known c addr packet_type payload =
      client_known addr _ (λ s p. (c, p.1))
        λ d.
          Triple-bind _ _ (with_client_known c addr _ (λ c. refl)) (λ _. record { at = λ w p. p })

  -- A broadcast does not fail: a client that is not there is left out.
  pub Triple-offer :
      {E : Cond} (test : ClientInfo → Bool) (packet_type : ℕ) (payload : Bytes) (addr : ℕ)
      → Triple P (offer test packet_type payload addr) P E
  unfolding offer
  Triple-offer {E = E} test packet_type payload addr = gets_then (λ s. get_client s addr) _ at
    where
      at :
          (c : Option ClientInfo)
          → Triple
              (λ s. P s × (get_client s addr ≡ c))
              (offer_to test packet_type addr payload c)
              P
              E
      at none = record { at = λ w p. p.0 }
      at (some c) =
          elim (test c)
            as (λ b.
              Triple (λ s. P s × (get_client s addr ≡ some c))
                (if b then deliver addr packet_type payload (λ c. c) else pure tt) P E) [
                  | true ↦ deliver_known c addr packet_type payload
                  | false ↦ record { at = λ w p. p.0 }
                ]

  pub Triple-broadcast_packet :
      {E : Cond} (packet_type : ℕ) (payload : Bytes)
      → Triple P (broadcast_packet packet_type payload) P E
  unfolding broadcast_packet
  Triple-broadcast_packet packet_type payload =
      Triple-bind _ _ (record { at = λ w p. p })
        (Triple-for_each _ (Triple-offer is_logged_in packet_type payload))

  pub Keeps-broadcast_packet :
      (packet_type : ℕ) (payload : Bytes) → Keeps P (broadcast_packet packet_type payload)
  Keeps-broadcast_packet packet_type payload = Triple-broadcast_packet packet_type payload

  pub Keeps-broadcast_packet_to_game :
      (game_id packet_type : ℕ) (payload : Bytes)
      → Keeps P (broadcast_packet_to_game game_id packet_type payload)
  unfolding broadcast_packet_to_game
  Keeps-broadcast_packet_to_game game_id packet_type payload =
      Keeps-bind _ _ (Keeps-game game_id) λ g.
        Triple-for_each _ (Triple-offer (is_in_game game_id) packet_type payload)
          (map (λ (p : GamePlayerInfo). p.addr) g.players)

  pub Triple-broadcast_status : {E : Cond} (g : GameInfo) → Triple P (broadcast_status g) P E
  Triple-broadcast_status g = Triple-broadcast_packet _ _

  pub Keeps-broadcast_status : (g : GameInfo) → Keeps P (broadcast_status g)
  Keeps-broadcast_status g = Triple-broadcast_packet _ _

Keeps-fetch_game_id : {P : Cond} (src : ℕ) → Keeps P (fetch_game_id src)
unfolding fetch_game_id
Keeps-fetch_game_id src = Keeps-bind _ _ (Keeps-client src) (λ c. Keeps-or_fail _ c.game_id)

pub Keeps-fetch_game_info : {P : Cond} (src : ℕ) → Keeps P (fetch_game_info src)
unfolding fetch_game_info
Keeps-fetch_game_info src = Keeps-bind _ _ (Keeps-fetch_game_id src) Keeps-game
