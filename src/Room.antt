-- ===== src/Room.antt =====
-- A game room: `GameInfo` and `GamePlayerInfo` of src/state.rs, and what the handlers of
-- src/handlers/game.rs do to it under its lock. An address is a number. Timestamps, metrics and
-- labels are left out.
pub mod Live
pub mod Players
pub mod Owner
pub mod Invariant
pub mod Leaving
pub mod Dropping
pub mod Starting
pub mod Numbers
mod Tests
use Prim.Native.Nat.{max}
use direlera_rs.Prelude.{
  ℕ, zero, suc, ◌+◌, ◌-◌, ◌%◌, Bool, true, false, not, ◌&&◌, Option, none, some, List, [], ◌∷◌,
  ◌++◌, Bytes, length, map, replicate, set, ltb, ◌==◌, if◌then◌else◌,
}
use direlera_rs.Sync.Outcome.{Outcome, ok, err, loops, ◌>>=◌}
use direlera_rs.Sync.Core.{is_nil}
use direlera_rs.Sync.Cached.{CachedPlayerOutput}
use direlera_rs.Sync.Cached
use direlera_rs.Sync.Delayed.{DelayedGameSync, with_player_delays, all_players_dropped}
use direlera_rs.Sync.Delayed

pub record GamePlayerInfo : Type 0 where
  pub addr : ℕ
  pub username : Bytes
  pub user_id : ℕ
  pub conn_type : ℕ
  pub left_room : Bool

abbrev pub game_status_waiting : ℕ
game_status_waiting = 0

abbrev pub game_status_playing : ℕ
game_status_playing = 1

pub record GameInfo : Type 0 where
  pub game_id : ℕ
  pub game_name : Bytes
  pub emulator_name : Bytes
  pub owner : Bytes
  pub owner_user_id : ℕ
  pub num_players : ℕ
  pub max_players : ℕ
  pub game_status : ℕ
  pub players : List GamePlayerInfo
  pub sync_manager : Option DelayedGameSync

-- `position(|p| p.addr == addr)`
abbrev pub position : ℕ → List GamePlayerInfo → Option ℕ
position addr [] = none
position addr (p ∷ ps) =
    if p.addr == addr
    then some 0
    else elim (position addr ps) [ none ↦ none | some i ↦ some (suc i) ]

-- `retain(|p| !p.left_room)`, and the filter that counts those in the room.
abbrev pub in_room : List GamePlayerInfo → List GamePlayerInfo
in_room [] = []
in_room (p ∷ ps) = if p.left_room then in_room ps else p ∷ in_room ps

-- `find(|p| !p.left_room)`
abbrev pub first_in_room : List GamePlayerInfo → Option GamePlayerInfo
first_in_room [] = none
first_in_room (p ∷ ps) = if p.left_room then first_in_room ps else some p

abbrev pub owner_present : ℕ → List GamePlayerInfo → Bool
owner_present id [] = false
owner_present id (p ∷ ps) =
    if not p.left_room && (p.user_id == id) then true else owner_present id ps

abbrev new_owner : GameInfo → Option GamePlayerInfo → Option Bytes × GameInfo
new_owner g none = (none, g)
new_owner g (some p) = (some p.username, record g { owner = p.username; owner_user_id = p.user_id })

unfoldable pub migrate_owner_if_needed : GameInfo → Option Bytes × GameInfo
migrate_owner_if_needed g =
    if owner_present g.owner_user_id g.players
    then (none, g)
    else new_owner g (first_in_room g.players)

-- The entry of a player that left stays in place, marked.
abbrev pub mark_left : List GamePlayerInfo → Option ℕ → List GamePlayerInfo
mark_left [] i = []
mark_left (p ∷ ps) none = p ∷ ps
mark_left (p ∷ ps) (some zero) = record p { left_room = true } ∷ ps
mark_left (p ∷ ps) (some (suc i)) = p ∷ mark_left ps (some i)

abbrev pub remove_at : List GamePlayerInfo → Option ℕ → List GamePlayerInfo
remove_at [] i = []
remove_at (p ∷ ps) none = p ∷ ps
remove_at (p ∷ ps) (some zero) = ps
remove_at (p ∷ ps) (some (suc i)) = p ∷ remove_at ps (some i)

abbrev pub is_some : Option DelayedGameSync → Bool
is_some none = false
is_some (some d) = true

abbrev pub is_live : GameInfo → Bool
is_live g = is_some g.sync_manager

-- The player leaves a live game: its slot is kept.
abbrev pub tombstone : GameInfo → ℕ → GameInfo
tombstone g addr =
    let players = mark_left g.players (position addr g.players) in
    record g { players = players; num_players = length (in_room players) % 256 }

-- The player leaves a waiting room.
abbrev pub take_out : GameInfo → ℕ → GameInfo
take_out g addr =
    let players = remove_at g.players (position addr g.players) in
    record g { players = players; num_players = length players % 256 }

pub data QuitOutcome : Type 0 where
  playing waiting_open waiting_closed : QuitOutcome

-- What a quit does under the room's lock; the name is that of a new owner.
unfoldable pub quit_room : GameInfo → ℕ → (QuitOutcome × Option Bytes) × GameInfo
unfolding migrate_owner_if_needed
quit_room g addr =
    if is_live g
    then (let (name, g') = migrate_owner_if_needed (tombstone g addr) in ((playing, name), g'))
    else (let (name, g') = migrate_owner_if_needed (take_out g addr) in
        ((if is_nil g'.players then waiting_closed else waiting_open, name), g'))

-- What a kick does there: whether a game was live, and the room.
unfoldable pub kick_room : GameInfo → ℕ → Bool × GameInfo
unfolding migrate_owner_if_needed
kick_room g addr =
    if is_live g
    then (true, (migrate_owner_if_needed (tombstone g addr)).1)
    else (false, (migrate_owner_if_needed (take_out g addr)).1)

abbrev pub new_player : ℕ → Bytes → ℕ → ℕ → GamePlayerInfo
new_player addr username user_id conn_type = record {
  addr = addr;
  username = username;
  user_id = user_id;
  conn_type = conn_type;
  left_room = false;
}

abbrev pub new_room : ℕ → Bytes → Bytes → GamePlayerInfo → GameInfo
new_room game_id game_name emulator_name p = record {
  game_id = game_id;
  game_name = game_name;
  emulator_name = emulator_name;
  owner = p.username;
  owner_user_id = p.user_id;
  num_players = 1;
  max_players = 4;
  game_status = game_status_waiting;
  players = p ∷ [];
  sync_manager = none;
}

-- The checks of a join on the room.
abbrev pub can_join : GameInfo → Bool
can_join g =
    (g.game_status == game_status_waiting) && not (is_live g) && ltb g.num_players g.max_players

abbrev pub is_member : ℕ → List GamePlayerInfo → Bool
is_member addr ps = elim (position addr ps) [ none ↦ false | some i ↦ true ]

abbrev pub add_player : GameInfo → GamePlayerInfo → GameInfo
add_player g p =
    if is_member p.addr g.players
    then g
    else record g { num_players = (g.num_players + 1) % 256; players = g.players ++ p ∷ [] }

unfoldable pub join_room : GameInfo → GamePlayerInfo → GameInfo
join_room g p = if can_join g then add_player g p else g
