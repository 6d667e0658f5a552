-- ===== src/Room/Dropping.antt =====
-- `execute_drop_game` of src/handlers/game.rs, and quits whole.
use direlera_rs.Prelude.{
  ℕ, ◌<◌, ◌≡◌, refl, Bool, true, false, Option, none, some, List, arith, length, ◌⊎◌, inl, inr, ◌∙◌,
  sym, ap, set, get_or, get_or-set_self, get_or-set_ne, Bool-cases, Option-cases, subst,
  if◌then◌else◌, ◌==◌, ==_iff,
}
use direlera_rs.Sync.Outcome.{ok}
use direlera_rs.Sync.Cached.{CachedPlayerOutput}
use direlera_rs.Sync.Delayed.{DelayedGameSync, all_players_dropped}
use direlera_rs.Sync.Delayed
use direlera_rs.Sync.Delayed.Steps.{mark_player_dropped-Serves}
use direlera_rs.Sync.Delayed.Total.{mark_player_dropped-total}
use direlera_rs.Sync.Delayed.Drops.{drops_after}
use direlera_rs.Room.{
  GameInfo, position, is_live, quit_room, waiting_open, waiting_closed, tombstone, take_out,
  migrate_owner_if_needed, game_status_playing,
}
use direlera_rs.Room.Live.{
  execute_drop_game, DropOutcome, dropped, ignored, sync_manager_not_found, room_after, drop_slot,
  end_game, quit_game, then_drop,
}
use direlera_rs.Room.Players.{position-lt, position-mark_left}
use direlera_rs.Room.Invariant.{Live, IsRoomBut, IsRoom, end_game-IsRoom}
use direlera_rs.Room.Leaving.{
  sync_manager-Mode, tombstone-IsRoomBut, take_out-IsRoom, live-some, live-none,
}
use direlera_rs.Room.Owner.{migrate_owner-HasOwner}

-- After the slot is dropped, who has left is dropped.
flag-set :
    (flags : List Bool) (slot j : ℕ)
    → slot < length flags
    → (get_or flags j false ≡ true) ⊎ (some slot ≡ some j)
    → get_or (set flags slot true) j false ≡ true
flag-set flags slot j h (inr e) =
    let k : slot ≡ j = cc in rw (← k) (get_or-set_self flags slot true false h)
flag-set flags slot j h (inl e) = elim (Bool-cases (slot == j)) [
  | inl same ↦ rw (← (==_iff slot j).0 same) (get_or-set_self flags slot true false h)
  | inr other ↦ rw (get_or-set_ne flags slot j true false (ground arith)) e
]

-- The engine of a live game after a drop.
dropped-Live :
    (g : GameInfo) (slot : ℕ) (d : DelayedGameSync) (r : List CachedPlayerOutput × DelayedGameSync)
    → Live g.game_status g.players (some slot) d
    → slot < length g.players
    → Delayed.mark_player_dropped d slot ≡ ok r
    → all_players_dropped r.1 ≡ false
    → Live g.game_status g.players none r.1
dropped-Live g slot d r v h e going =
    let (zs, es, os, added, s) = mark_player_dropped-Serves d slot r v.valid e in
    let flags = drops_after d slot r v.valid e in
    record {
      playing = v.playing;
      valid = s.valid;
      slots = ap length s.same_delays ∙ v.slots;
      left = λ j k. inl (
          rw flags (
            flag-set d.inner.sync.dropped_players slot j
              (let n = v.valid.inner.engine.drops in let m = v.slots in omega arith) (v.left j k)));
      going = going;
    }

-- A drop of a slot, where the player in it may have left.
drop_slot-IsRoom :
    (g : GameInfo) (slot : ℕ) (d : DelayedGameSync)
    → Live g.game_status g.players (some slot) d
    → slot < length g.players
    → IsRoomBut (some slot) g
    → (r : DropOutcome × GameInfo) × (drop_slot g (some slot) (some d) ≡ ok r) × IsRoom r.1
drop_slot-IsRoom g slot d v h w =
    let (r, e) = mark_player_dropped-total d slot v.valid (let n = v.slots in omega arith) in
    let g' : GameInfo = record g { sync_manager = some r.1 } in
    elim (Bool-cases (all_players_dropped r.1)) [
      | inl all ↦ (
        (dropped r.0 true, end_game g'),
        rw (e, all) refl,
        end_game-IsRoom g' w.fits w.small w.positive,
      )
      | inr going ↦ (
        (dropped r.0 false, g'),
        rw (e, going) refl,
        record {
          counted = w.counted;
          fits = w.fits;
          small = w.small;
          positive = w.positive;
          owner = w.owner;
          mode = dropped-Live g slot d r v h e going;
        },
      )
    ]

forget : (o : Option ℕ) (g : GameInfo) → g.sync_manager ≡ none → IsRoomBut o g → IsRoom g
forget o g e v =
    let m = sync_manager-Mode o g none e v in
    record {
      counted = v.counted;
      fits = v.fits;
      small = v.small;
      positive = v.positive;
      owner = v.owner;
      mode = rw e m;
    }

at_slot :
    (g : GameInfo) (addr : ℕ) (s : Option DelayedGameSync)
    → g.sync_manager ≡ s
    → IsRoomBut (position addr g.players) g
    → (o : Option ℕ) → position addr g.players ≡ o
    → (r : DropOutcome × GameInfo) × (drop_slot g o s ≡ ok r) × IsRoom r.1
at_slot g addr s e v none p = ((ignored, g), refl, subst (λ o. IsRoomBut o g) p v)
at_slot g addr none e v (some slot) p =
    ((sync_manager_not_found, g), refl, forget (position addr g.players) g e v)
at_slot g addr (some d) e v (some slot) p =
    let w = subst (λ o. IsRoomBut o g) p v in
    drop_slot-IsRoom g slot d (sync_manager-Mode (some slot) g (some d) e w)
      (position-lt addr g.players slot p) w

-- A room that does not play has no engine.
off-none :
    (g : GameInfo) (o : Option ℕ)
    → IsRoomBut o g
    → (g.game_status == game_status_playing) ≡ false
    → g.sync_manager ≡ none
off-none g o v off = elim (Option-cases g.sync_manager) [
  | inl e ↦ e
  | inr (d, e) ↦ let p = (sync_manager-Mode o g (some d) e v).playing in absurd (ground arith)
]

waiting_ok :
    (b : Bool) (g : GameInfo) (addr : ℕ)
    → then_drop (if b then waiting_closed else waiting_open) g addr ≡ ok g
waiting_ok true g addr = refl
waiting_ok false g addr = refl

-- In a room that is well formed, except perhaps that the player just left and is not dropped yet, a
-- drop returns and leaves the room well formed.
pub execute_drop_game-IsRoom :
    (g : GameInfo) (addr : ℕ)
    → IsRoomBut (position addr g.players) g
    → (r : DropOutcome × GameInfo) × (execute_drop_game g addr ≡ ok r) × IsRoom r.1
unfolding execute_drop_game
execute_drop_game-IsRoom g addr v = elim (Bool-cases (g.game_status == game_status_playing)) [
  | inl on ↦ rw on (at_slot g addr g.sync_manager refl v (position addr g.players) refl)
  | inr off ↦ rw off ((ignored, g), refl, forget (position addr g.players) g (off-none g _ v off) v)
]

-- A player of a live game who just left, and is not dropped yet.
pub just_left-IsRoomBut :
    (g : GameInfo) (addr : ℕ) (d : DelayedGameSync)
    → g.sync_manager ≡ some d
    → IsRoom g
    → let g' = (migrate_owner_if_needed (tombstone g addr)).1 in
      IsRoomBut (position addr g'.players) g'
just_left-IsRoomBut g addr d e v =
    let g' = (migrate_owner_if_needed (tombstone g addr)).1 in
    let same = (migrate_owner-HasOwner (tombstone g addr)).players in
    let p : position addr g.players ≡ position addr g'.players =
      rw same (sym (position-mark_left addr g.players (position addr g.players))) in
    subst (λ o. IsRoomBut o g') p (tombstone-IsRoomBut g addr d e v)

-- The rest of a quit or kick of a live game.
live_exit :
    (g : GameInfo) (addr : ℕ) (d : DelayedGameSync)
    → g.sync_manager ≡ some d
    → IsRoom g
    → let g' = (migrate_owner_if_needed (tombstone g addr)).1 in
      (r : GameInfo) × (room_after g' (execute_drop_game g' addr) ≡ ok r) × IsRoom r
live_exit g addr d e v =
    let g' = (migrate_owner_if_needed (tombstone g addr)).1 in
    let (r, q, k) = execute_drop_game-IsRoom g' addr (just_left-IsRoomBut g addr d e v) in
    (r.1, rw q refl, k)

-- A quit of a well-formed room returns and leaves the room well formed: the owner is in it unless it is empty, the count of
-- players is right, and in a game that goes on each player who left is dropped in the slot that the
-- player had, and someone is not dropped.
pub quit_game-IsRoom :
    (g : GameInfo) (addr : ℕ) → IsRoom g → (r : GameInfo) × (quit_game g addr ≡ ok r) × IsRoom r
unfolding quit_game quit_room
quit_game-IsRoom g addr v = elim (Bool-cases (is_live g)) [
  | inl on ↦ let (d, e) = live-some g.sync_manager on in rw on (live_exit g addr d e v)
  | inr off ↦
      let w = take_out-IsRoom g addr none (live-none g.sync_manager off) v in
      rw off ((migrate_owner_if_needed (take_out g addr)).1, waiting_ok _ _ addr, w)
]
