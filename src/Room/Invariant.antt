-- ===== src/Room/Invariant.antt =====
-- The invariant of a room of src/state.rs, waiting or live.
use direlera_rs.Prelude.{
  ℕ, ◌≤◌, ◌<◌, ◌≡◌, refl, Bool, true, false, Option, none, some, List, arith, length, get_or, All,
  ◌⊎◌, inl,
}
use direlera_rs.Sync.Delayed.{DelayedGameSync, all_players_dropped}
use direlera_rs.Sync.Delayed.Calls
use direlera_rs.Room.{
  GamePlayerInfo, GameInfo, in_room, migrate_owner_if_needed, game_status_waiting,
  game_status_playing, new_room,
}
use direlera_rs.Room.Live.{compacted, end_game}
use direlera_rs.Room.Players.{
  IsPresent, has_left, length-in_room, in_room-IsPresent, in_room_keeps, All-in_room,
}
use direlera_rs.Room.Owner.{HasOwner, migrate_owner-HasOwner}

abbrev pub flag : DelayedGameSync → ℕ → Bool
flag d j = get_or d.inner.sync.dropped_players j false

-- A live game: each player has a slot in the engine, by its position; who left is dropped there,
-- except perhaps in the slot `o`; and not everyone is dropped.
pub record Live (status : ℕ) (ps : List GamePlayerInfo) (o : Option ℕ) (d : DelayedGameSync)
    : Type 0 where
  pub playing : status ≡ game_status_playing
  pub valid : Calls.IsValid d
  pub slots : length (Calls.delays d) ≡ length ps
  pub left : (j : ℕ) → has_left ps j ≡ true → (flag d j ≡ true) ⊎ (o ≡ some j)
  pub going : all_players_dropped d ≡ false

-- In a waiting room no one has left and is still listed.
abbrev pub Mode : ℕ → List GamePlayerInfo → Option ℕ → Option DelayedGameSync → Type 0
Mode status ps o none = (status ≡ game_status_waiting) × All IsPresent ps
Mode status ps o (some d) = Live status ps o d

abbrev pub HasDelay : GamePlayerInfo → Type 0
HasDelay p = 0 < p.conn_type

-- The room is well formed, except perhaps that the player in the slot `o` has left a live game and is
-- not dropped yet.
pub record IsRoomBut (o : Option ℕ) (g : GameInfo) : Type 0 where
  pub counted : g.num_players ≡ length (in_room g.players)
  pub fits : length g.players ≤ g.max_players
  pub small : g.max_players ≤ 255
  pub positive : All HasDelay g.players
  pub owner : HasOwner g
  pub mode : Mode g.game_status g.players o g.sync_manager

abbrev pub IsRoom : GameInfo → Type 0
IsRoom = IsRoomBut none

-- A migration keeps what does not depend on the owner, and gives an owner.
pub migrate-IsRoomBut :
    (o : Option ℕ) (g : GameInfo)
    → g.num_players ≡ length (in_room g.players)
    → length g.players ≤ g.max_players
    → g.max_players ≤ 255
    → All HasDelay g.players
    → Mode g.game_status g.players o g.sync_manager
    → IsRoomBut o (migrate_owner_if_needed g).1
migrate-IsRoomBut o g c f s p m =
    let w = migrate_owner-HasOwner g in
    record {
      counted = rw (w.num_players, w.players) c;
      fits = rw (w.max_players, w.players) f;
      small = rw w.max_players s;
      positive = rw w.players p;
      owner = w.owner;
      mode = rw (w.game_status, w.players, w.sync_manager) m;
    }

-- Any room whose numbers are right is well formed after its game has ended.
pub end_game-IsRoom :
    (g : GameInfo)
    → length g.players ≤ g.max_players
    → g.max_players ≤ 255
    → All HasDelay g.players
    → IsRoom (end_game g)
unfolding end_game
end_game-IsRoom g f s p =
    let here = in_room-IsPresent g.players in
    let n = length-in_room g.players in
    let same = in_room_keeps (in_room g.players) here in
    migrate-IsRoomBut none
      (record (compacted g) { game_status = game_status_waiting; sync_manager = none })
      (rw same (omega arith)) (omega arith) s (All-in_room HasDelay g.players p) (refl, here)

pub new_room-IsRoom :
    (game_id : ℕ) (game_name emulator_name : List ℕ) (p : GamePlayerInfo)
    → IsPresent p
    → HasDelay p
    → IsRoom (new_room game_id game_name emulator_name p)
new_room-IsRoom game_id game_name emulator_name p h k = record {
  counted = ground arith;
  fits = omega arith;
  small = omega arith;
  positive = (k, tt);
  owner = inl (ground (arith, h));
  mode = (refl, (h, tt));
}
