-- ===== src/Server/Quitting.antt =====
-- `handle_quit_game` and `handle_drop_game` of src/handlers/game.rs keep the rooms well formed.
use direlera_rs.Prelude.{
  ℕ, ◌≡◌, ◌≢◌, refl, sym, ◌∙◌, ap, subst, true, false, Option, none, some, List, [], ◌∷◌, Bytes,
  arith, nat_eq, length, Bool-cases, inl, inr, if◌then◌else◌,
}
use direlera_rs.Sync.Core.{is_nil}
use direlera_rs.Room.{
  GamePlayerInfo, GameInfo, playing, waiting_open, waiting_closed, position, is_live, tombstone,
  take_out, quit_room, migrate_owner_if_needed,
}
use direlera_rs.Room.Players.{position-mark_left, length-mark_left}
use direlera_rs.Room.Owner.{migrate_owner-HasOwner}
use direlera_rs.Room.Invariant.{IsRoomBut}
use direlera_rs.Room.Leaving.{tombstone-IsRoomBut, take_out-IsRoom, live-some, live-none}
use direlera_rs.Room.Numbers.{game_id-migrate}
use direlera_rs.State.{ClientInfo, get_client, get_game}
use direlera_rs.Server.{Env}
use direlera_rs.Server.Leave.{
  to_lobby, quit_and_status, quit_or_all, status_if_there, dropping, announce_quit, chat_owner,
  announce_owner, leave_room, leave_known, quit_of, quit_client, handle_quit_game,
}
use direlera_rs.Server.Triple.{
  Triple-pure, Cond, Triple, Keeps, Triple-bind, Keeps-bind, Keeps-pure, Keeps-gets, gets_then,
  weaken, Triple-attempt,
}
use direlera_rs.Server.Quiet.{
  IsStable, Keeps-with_client_mut, Keeps-broadcast_packet, Keeps-broadcast_packet_to_game,
  Keeps-broadcast_status,
}
use direlera_rs.Server.Rooms.{Good, IsServer, Held, Held-IsStable}
use direlera_rs.Server.Locked.{At, with_room_then, Held-widen, Held-IsServer, IsServer-Held}
use direlera_rs.Server.Leaving.{IsServer-IsStable, close_room-IsServer, not_nil}
use direlera_rs.Server.Dropping.{Leaves, execute_drop_game-IsServer}

-- A player that left a live room, before it is dropped.
pub tombstone-Leaves :
    (game_id addr : ℕ) (g : GameInfo)
    → is_live g ≡ true
    → Good game_id g
    → Leaves game_id addr (migrate_owner_if_needed (tombstone g addr)).1
tombstone-Leaves game_id addr g on v =
    let (d, e) = live-some g.sync_manager on in
    let g' = (migrate_owner_if_needed (tombstone g addr)).1 in
    let same = (migrate_owner-HasOwner (tombstone g addr)).players in
    let p : position addr g.players ≡ position addr g'.players =
      rw same (sym (position-mark_left addr g.players (position addr g.players))) in
    record {
      room = subst (λ o. IsRoomBut o g') p (tombstone-IsRoomBut g addr d e v.room);
      number = game_id-migrate (tombstone g addr) ∙ v.number;
      not_empty = λ z. v.not_empty (
          no_one g.players (
            sym (length-mark_left g.players (position addr g.players)) ∙ ap length (sym same ∙ z)));
    }
  where
    no_one : (ps : List GamePlayerInfo) → length ps ≡ 0 → ps ≡ []
    no_one [] h = refl
    no_one (p ∷ ps) h = absurd (omega arith)

-- The rest of a room that waits, unless it is empty.
pub take_out-Good :
    (game_id addr : ℕ) (g : GameInfo)
    → is_live g ≡ false
    → Good game_id g
    → let g' = (migrate_owner_if_needed (take_out g addr)).1 in g'.players ≢ [] → Good game_id g'
take_out-Good game_id addr g off v some_one = record {
  room = take_out-IsRoom g addr none (live-none g.sync_manager off) v.room;
  number = game_id-migrate (take_out g addr) ∙ v.number;
  not_empty = some_one;
}

pub dropping-IsServer :
    (env : Env) (game_id addr : ℕ)
    → Triple
        (Held (At game_id (Leaves game_id addr)) game_id addr)
        (dropping env game_id addr)
        IsServer
        IsServer
dropping-IsServer env game_id addr =
    Triple-bind _ _ (execute_drop_game-IsServer env game_id addr) (λ _. Keeps-pure tt)

pub quit_and_status-Keeps :
    {P : Cond} (stable : IsStable P) (game_id : ℕ) (payload : Bytes) (o : Option GameInfo)
    → Keeps P (quit_and_status game_id payload o)
quit_and_status-Keeps stable game_id payload none = Keeps-pure tt
quit_and_status-Keeps stable game_id payload (some g) =
    Keeps-bind _ _ (Keeps-broadcast_packet_to_game stable _ _ _)
      (λ _. Keeps-broadcast_status stable g)

module _ (env : Env) (game_id src : ℕ) (payload : Bytes) where
  quit_or_all-Keeps : (o : Option GameInfo) → Keeps IsServer (quit_or_all game_id payload o)
  quit_or_all-Keeps none = Keeps-broadcast_packet IsServer-IsStable _ _
  quit_or_all-Keeps (some g) = quit_and_status-Keeps IsServer-IsStable game_id payload (some g)

  status_if_there-Keeps : (o : Option GameInfo) → Keeps IsServer (status_if_there o)
  status_if_there-Keeps none = Keeps-pure tt
  status_if_there-Keeps (some g) = Keeps-broadcast_status IsServer-IsStable g

  quit_playing :
      Triple
        (Held (At game_id (Leaves game_id src)) game_id src)
        (announce_quit env game_id src payload playing)
        IsServer
        IsServer
  unfolding announce_quit
  quit_playing =
      Triple-bind _ _ (Triple-attempt _ (dropping-IsServer env game_id src))
        λ _. Keeps-bind _ _ (Keeps-gets _) quit_or_all-Keeps

  quit_waiting :
      (g : GameInfo)
      → (g.players ≢ [] → Good game_id g)
      → Triple
          (Held (At game_id (λ x. x ≡ g)) game_id src)
          (announce_quit env game_id src payload
            (if is_nil g.players then waiting_closed else waiting_open))
          IsServer
          IsServer
  unfolding announce_quit
  quit_waiting g v = elim (Bool-cases (is_nil g.players)) [
    | inl empty ↦ rw empty (
        Triple-bind _ _
          (weaken _ (λ s p. p.rooms) (λ s p. p) (λ s p. p) (close_room-IsServer game_id _))
          (λ _. Keeps-broadcast_packet IsServer-IsStable _ _))
    | inr some_one ↦ rw some_one (
        weaken _
          (λ s p. Held-IsServer game_id src s (
            Held-widen game_id src _ (Good game_id)
              (λ x z. subst (Good game_id) (sym z) (v (not_nil g.players some_one))) s p))
          (λ s p. p) (λ s p. p)
          (Keeps-bind _ _ (Keeps-broadcast_packet_to_game IsServer-IsStable _ _ _)
            λ _. Keeps-bind _ _ (Keeps-gets _) status_if_there-Keeps))
  ]

  announce_quit-IsServer :
      (g : GameInfo)
      → Good game_id g
      → Triple
          (Held (At game_id (λ x. x ≡ (quit_room g src).1)) game_id src)
          (announce_quit env game_id src payload (quit_room g src).0.0)
          IsServer
          IsServer
  unfolding quit_room
  announce_quit-IsServer g v = elim (Bool-cases (is_live g)) [
    | inl on ↦ rw on (
        weaken _
          (Held-widen game_id src _ (Leaves game_id src)
            (λ x z. subst (Leaves game_id src) (sym z) (tombstone-Leaves game_id src g on v)))
          (λ s p. p) (λ s p. p) quit_playing)
    | inr off ↦ rw off (quit_waiting _ (take_out-Good game_id src g off v))
  ]

chat_owner-Keeps :
    (game_id : ℕ) (name : Bytes) (o : Option GameInfo) → Keeps IsServer (chat_owner game_id name o)
chat_owner-Keeps game_id name none = Keeps-pure tt
chat_owner-Keeps game_id name (some g) = Keeps-broadcast_packet_to_game IsServer-IsStable _ _ _

announce_owner-Keeps : (game_id : ℕ) (o : Option Bytes) → Keeps IsServer (announce_owner game_id o)
announce_owner-Keeps game_id none = Keeps-pure tt
announce_owner-Keeps game_id (some name) =
    Keeps-bind _ _ (Keeps-gets _) (chat_owner-Keeps game_id name)

leave_room-IsServer :
    (env : Env) (src : ℕ) (c : ClientInfo) (game_id : ℕ)
    → Triple
        (Held (At game_id (Good game_id)) game_id src)
        (leave_room env src c game_id)
        IsServer
        IsServer
unfolding leave_room
leave_room-IsServer env src c game_id =
    Triple-bind _ _
      (weaken _ (λ s p. p) (λ s p. p) (Held-IsServer game_id src)
        (Keeps-with_client_mut (Held-IsStable (At game_id (Good game_id)) game_id src) src to_lobby
          (λ d. refl)))
      λ _.
        with_room_then game_id src (Good game_id) (λ g. quit_room g src) _
          λ g v.
            Triple-bind _ _ (announce_quit-IsServer env game_id src _ g v)
              (λ _. announce_owner-Keeps game_id _)

-- A quit leaves every room well formed, and neither panics nor runs for ever.
pub handle_quit_game-IsServer : (env : Env) (src : ℕ) → Keeps IsServer (handle_quit_game env src)
unfolding handle_quit_game
handle_quit_game-IsServer env src = gets_then (λ s. get_client s src) _ at
  where
    known :
        (c : ClientInfo) (game_id : ℕ) (o : Option GameInfo)
        → Triple
            (λ s. (IsServer s × (get_client s src ≡ some c)) × (get_game s game_id ≡ o))
            (leave_known env src c game_id o)
            IsServer
            IsServer
    known c game_id none = Triple-pure tt (λ s p. p.0.0)
    known c game_id (some g) =
        weaken _ (λ s p. IsServer-Held game_id src s g c p.0.0 p.1 p.0.1) (λ s p. p) (λ s p. p)
          (leave_room-IsServer env src c game_id)

    of :
        (c : ClientInfo) (o : Option ℕ)
        → Triple
            (λ s. IsServer s × (get_client s src ≡ some c))
            (quit_of env src c o)
            IsServer
            IsServer
    of c none = Triple-pure tt (λ s p. p.0)
    of c (some game_id) = gets_then (λ s. get_game s game_id) _ (known c game_id)

    at :
        (o : Option ClientInfo)
        → Triple
            (λ s. IsServer s × (get_client s src ≡ o))
            (quit_client env src o)
            IsServer
            IsServer
    at none = Triple-pure tt (λ s p. p.0)
    at (some c) = of c c.game_id
