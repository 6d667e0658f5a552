-- ===== src/Server/Rooms.antt =====
-- The invariant of the whole server: every room is well formed, not empty and listed under its number,
-- and every client has the connection type of a LAN.
use direlera_rs.Prelude.{
  ℕ, ◌==◌, ◌≡◌, ◌≢◌, refl, sym, ◌∙◌, ap, Option, none, some, [], arith, nat_eq, Option-cases,
  Bool-cases, ==_iff, inl, inr,
}
use direlera_rs.Dict.{lookup, insert}
use direlera_rs.Room.{GameInfo}
use direlera_rs.Room.Invariant.{IsRoom}
use direlera_rs.State.{ClientInfo, AppState, new, get_client, update_client, changed, update_in}
use direlera_rs.State.Lookup.{lookup-insert_cases, lookup-insert_self, lookup-insert_other}
use direlera_rs.Server.Triple.{Cond}
use direlera_rs.Server.Quiet.{IsStable}

-- A condition on each room and its number.
abbrev pub RoomCond : Type 1
RoomCond = ℕ → GameInfo → Type 0

pub record Good (id : ℕ) (g : GameInfo) : Type 0 where
  pub room : IsRoom g
  pub number : g.game_id ≡ id
  pub not_empty : g.players ≢ []

pub record Rooms (R : RoomCond) (s : AppState) : Type 0 where
  pub each : (id : ℕ) (g : GameInfo) → lookup id s.games ≡ some g → R id g
  pub lan : (id : ℕ) (c : ClientInfo) → lookup id s.clients_by_id ≡ some c → c.conn_type ≡ 1

abbrev pub IsServer : Cond
IsServer = Rooms Good

pub new-IsServer : IsServer new
unfolding new lookup
new-IsServer = record { each = λ id g e. cc; lan = λ id c e. cc }

-- A room and a client that are there.
pub record Held (R : RoomCond) (game_id addr : ℕ) (s : AppState) : Type 0 where
  pub rooms : Rooms R s
  pub there : (g : GameInfo) × (lookup game_id s.games ≡ some g)
  pub known : (c : ClientInfo) × (get_client s addr ≡ some c)

-- A change of a client, taken apart.
pub update_client-cases :
    (s s' : AppState) (addr : ℕ) (f : ClientInfo → ClientInfo)
    → update_client s addr f ≡ some s'
    → (id : ℕ) × (c : ClientInfo) × (lookup addr s.clients_by_addr ≡ some id)
      × (lookup id s.clients_by_id ≡ some c)
      × (s' ≡ record s { clients_by_id = insert id (f c) s.clients_by_id })
unfolding update_client
update_client-cases s s' addr f e = at (lookup addr s.clients_by_addr) refl e
  where
    found :
        (id : ℕ)
        → lookup addr s.clients_by_addr ≡ some id
        → (o : Option ClientInfo) → lookup id s.clients_by_id ≡ o
        → changed s f id o ≡ some s'
        → (id : ℕ) × (c : ClientInfo) × (lookup addr s.clients_by_addr ≡ some id)
          × (lookup id s.clients_by_id ≡ some c)
          × (s' ≡ record s { clients_by_id = insert id (f c) s.clients_by_id })
    found id q none k e = cc
    found id q (some c) k e = (id, c, q, k, (cc))

    at :
        (o : Option ℕ)
        → lookup addr s.clients_by_addr ≡ o
        → update_in s f o ≡ some s'
        → (id : ℕ) × (c : ClientInfo) × (lookup addr s.clients_by_addr ≡ some id)
          × (lookup id s.clients_by_id ≡ some c)
          × (s' ≡ record s { clients_by_id = insert id (f c) s.clients_by_id })
    at none q e = cc
    at (some id) q e = found id q (lookup id s.clients_by_id) refl e

pub Rooms-IsStable : (R : RoomCond) → IsStable (Rooms R)
Rooms-IsStable R = record {
  keeps = λ s s' addr f h e v.
      let (id, c, q, k, m) = update_client-cases s s' addr f e in
      rw m record {
        each = v.each;
        lan = λ j d l. elim (lookup-insert_cases id j (f c) d s.clients_by_id l) [
          | inl (same, z) ↦ ap (λ (x : ClientInfo). x.conn_type) (sym z) ∙ (h c ∙ v.lan id c k)
          | inr (other, z) ↦ v.lan j d z
        ];
      };
}

known-update :
    (s s' : AppState) (addr a : ℕ) (f : ClientInfo → ClientInfo)
    → update_client s addr f ≡ some s'
    → (c : ClientInfo) × (get_client s a ≡ some c)
    → (c : ClientInfo) × (get_client s' a ≡ some c)
unfolding get_client
known-update s s' addr a f e (c, k) =
    let (id, d, q, l, m) = update_client-cases s s' addr f e in
    elim (Option-cases (lookup a s.clients_by_addr)) [
      | inl no_one ↦ let z = rw no_one at k in cc
      | inr (j, there) ↦
          let k' : lookup j s.clients_by_id ≡ some c = rw there at k in
          elim (Bool-cases (id == j)) [
            | inl same ↦
                let z : id ≡ j = (==_iff id j).0 same in
                (f d, rw (m, there, ← z) (lookup-insert_self id (f d) s.clients_by_id))
            | inr other ↦ (
              c,
              rw (m, there) (lookup-insert_other id j (f d) s.clients_by_id (ground arith) ∙ k'),
            )
          ]
    ]

pub Held-IsStable : (R : RoomCond) (game_id addr : ℕ) → IsStable (Held R game_id addr)
Held-IsStable R game_id addr = record {
  keeps = λ s s' a f h e v.
      let (id, c, q, k, m) = update_client-cases s s' a f e in
      record {
        rooms = (Rooms-IsStable R).keeps s s' a f h e v.rooms;
        there = rw m v.there;
        known = known-update s s' a addr f e v.known;
      };
}
