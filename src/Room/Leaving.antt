-- ===== src/Room/Leaving.antt =====
-- Quits, kicks and joins of src/handlers/game.rs, as far as the room's lock is held.
use direlera_rs.Prelude.{
  ℕ, ◌<◌, ◌≡◌, ◌≢◌, ◌⊎◌, ◌+◌, ◌%◌, refl, true, false, Option, none, some, List, [], ◌∷◌, ◌++◌,
  arith, length, inl, inr, ◌∙◌, sym, ap, Bool-cases, length-append, subst,
}
use direlera_rs.Sync.Delayed.{DelayedGameSync}
use direlera_rs.Room.{
  GamePlayerInfo, GameInfo, position, mark_left, remove_at, can_join, is_live, is_some, join_room,
  add_player, is_member, migrate_owner_if_needed, owner_present, tombstone, take_out, quit_room,
  kick_room,
}
use direlera_rs.Room.Players.{
  IsPresent, length-in_room, in_room_keeps, All-mark_left, All-remove_at, All-snoc,
  length-mark_left, length-remove_at, has_left-mark_left, position-mark_left,
}
use direlera_rs.Room.Owner.{migrate_owner-HasOwner}
use direlera_rs.Room.Invariant.{Live, Mode, HasDelay, IsRoomBut, IsRoom, migrate-IsRoomBut}

pub sync_manager-Mode :
    (o : Option ℕ) (g : GameInfo) (s : Option DelayedGameSync)
    → g.sync_manager ≡ s
    → IsRoomBut o g
    → Mode g.game_status g.players o s
sync_manager-Mode o g s e v = subst (Mode g.game_status g.players o) e v.mode

tombstone-Live :
    (g : GameInfo) (addr : ℕ) (d : DelayedGameSync)
    → Live g.game_status g.players none d
    → Live g.game_status (mark_left g.players (position addr g.players)) (position addr g.players) d
tombstone-Live g addr d v = record {
  playing = v.playing;
  valid = v.valid;
  slots = v.slots ∙ sym (length-mark_left g.players (position addr g.players));
  left = λ j h. elim (has_left-mark_left g.players (position addr g.players) j h) [
    | inl before ↦ elim (v.left j before) [ inl gone ↦ inl gone | inr e ↦ cc ]
    | inr now ↦ inr now
  ];
  going = v.going;
}

-- The room after the step of a quit or kick under the lock of a live game.
pub tombstone-IsRoomBut :
    (g : GameInfo) (addr : ℕ) (d : DelayedGameSync)
    → g.sync_manager ≡ some d
    → IsRoom g
    → IsRoomBut (position addr g.players) (migrate_owner_if_needed (tombstone g addr)).1
tombstone-IsRoomBut g addr d e v =
    let n = length-mark_left g.players (position addr g.players) in
    let k = length-in_room (mark_left g.players (position addr g.players)) in
    migrate-IsRoomBut (position addr g.players) (tombstone g addr)
      (let f = v.fits in let s = v.small in omega arith) (let f = v.fits in omega arith) v.small
      (All-mark_left HasDelay g.players (position addr g.players) (λ p h. h) v.positive)
      (rw e (tombstone-Live g addr d (sync_manager-Mode none g (some d) e v)))

pub take_out-IsRoom :
    (g : GameInfo) (addr : ℕ) (o : Option ℕ)
    → g.sync_manager ≡ none
    → IsRoom g
    → IsRoomBut o (migrate_owner_if_needed (take_out g addr)).1
take_out-IsRoom g addr o e v =
    let m = sync_manager-Mode none g none e v in
    let here = All-remove_at IsPresent g.players (position addr g.players) m.1 in
    let same = in_room_keeps (remove_at g.players (position addr g.players)) here in
    let n = length-remove_at g.players (position addr g.players) in
    migrate-IsRoomBut o (take_out g addr)
      (rw same (let f = v.fits in let s = v.small in omega arith)) (let f = v.fits in omega arith)
      v.small (All-remove_at HasDelay g.players (position addr g.players) v.positive)
      (rw e (m.0, here))

pub live-some :
    (o : Option DelayedGameSync) → is_some o ≡ true → (d : DelayedGameSync) × (o ≡ some d)
live-some none h = cc
live-some (some d) h = (d, refl)

pub live-none : (o : Option DelayedGameSync) → is_some o ≡ false → o ≡ none
live-none none h = refl
live-none (some d) h = cc

-- While a game is live, neither a quit nor a kick moves any player to another slot of the engine, and
-- none of them takes a slot away.
pub quit_and_kick_slots :
    (g : GameInfo) (addr other : ℕ)
    → is_live g ≡ true
    → (position other (quit_room g addr).1.players ≡ position other g.players)
      × (length (quit_room g addr).1.players ≡ length g.players)
      × (position other (kick_room g addr).1.players ≡ position other g.players)
      × (length (kick_room g addr).1.players ≡ length g.players)
unfolding quit_room kick_room
quit_and_kick_slots g addr other on =
    let same = (migrate_owner-HasOwner (tombstone g addr)).players in
    let p = position-mark_left other g.players (position addr g.players) in
    let n = length-mark_left g.players (position addr g.players) in
    rw on (
      ap (position other) same ∙ p,
      ap length same ∙ n,
      ap (position other) same ∙ p,
      ap length same ∙ n,
    )

owner_present-append :
    (id : ℕ) (ps qs : List GamePlayerInfo)
    → owner_present id ps ≡ true
    → owner_present id (ps ++ qs) ≡ true
owner_present-append id [] qs h = cc
owner_present-append id (p ∷ ps) qs h = ground (arith, owner_present-append id ps qs)

add_player-IsRoom :
    (g : GameInfo) (p : GamePlayerInfo)
    → g.sync_manager ≡ none
    → g.num_players < g.max_players
    → g.players ≢ []
    → IsPresent p
    → HasDelay p
    → IsRoom g
    → IsRoom (add_player g p)
add_player-IsRoom g p e room some_one h k v = elim (Bool-cases (is_member p.addr g.players)) [
  | inl member ↦ rw member v
  | inr stranger ↦
      let m = sync_manager-Mode none g none e v in
      let old = in_room_keeps g.players m.1 in
      let here = All-snoc IsPresent g.players p m.1 h in
      let n = length-append g.players (p ∷ []) in
      let c : g.num_players ≡ length g.players = rw old at v.counted in
      rw stranger record {
        counted = rw (in_room_keeps (g.players ++ p ∷ []) here) (let s = v.small in omega arith);
        fits = omega arith;
        small = v.small;
        positive = All-snoc HasDelay g.players p v.positive k;
        owner = elim v.owner [
          | inl present ↦ inl (owner_present-append g.owner_user_id g.players (p ∷ []) present)
          | inr no_one ↦ absurd (some_one (sym old ∙ no_one))
        ];
        mode = rw e (m.0, here);
      }
]

can_join-facts :
    (g : GameInfo) → can_join g ≡ true → (is_live g ≡ false) × (g.num_players < g.max_players)
can_join-facts g h = ground arith

-- What a join comes to: one more player at the end, or no change.
abbrev pub Joined : GameInfo → GamePlayerInfo → GameInfo → Type 0
Joined g p r =
    ((can_join g ≡ true)
      × (is_member p.addr g.players ≡ false)
      × (r ≡ record g { num_players = g.num_players + 1; players = g.players ++ p ∷ [] }))
    ⊎ (((can_join g ≡ false) ⊎ (is_member p.addr g.players ≡ true)) × (r ≡ g))

add_player-stranger :
    (g : GameInfo) (p : GamePlayerInfo)
    → g.num_players + 1 < 256
    → is_member p.addr g.players ≡ false
    → add_player g p ≡ record g { num_players = g.num_players + 1; players = g.players ++ p ∷ [] }
add_player-stranger g p h e =
    let small : (g.num_players + 1) % 256 ≡ g.num_players + 1 = omega arith in rw (e, small) refl

add_player-member :
    (g : GameInfo) (p : GamePlayerInfo) → is_member p.addr g.players ≡ true → add_player g p ≡ g
add_player-member g p e = rw e refl

add_player-Joined :
    (g : GameInfo) (p : GamePlayerInfo)
    → can_join g ≡ true
    → g.num_players + 1 < 256
    → Joined g p (add_player g p)
add_player-Joined g p may h = elim (Bool-cases (is_member p.addr g.players)) [
  | inl member ↦ inr (inr member, add_player-member g p member)
  | inr stranger ↦ inl (may, stranger, add_player-stranger g p h stranger)
]

pub join_room-can :
    (g : GameInfo) (p : GamePlayerInfo) → can_join g ≡ true → join_room g p ≡ add_player g p
unfolding join_room
join_room-can g p can = rw can refl

join_room-cannot : (g : GameInfo) (p : GamePlayerInfo) → can_join g ≡ false → join_room g p ≡ g
unfolding join_room
join_room-cannot g p cannot = rw cannot refl

-- A join of a player with a positive delay to a well-formed room with someone in it: where the checks
-- pass and the room does not list the address, the player is added at the end and the count goes up by
-- one; otherwise nothing changes. Either way the room stays well formed.
pub join_room-IsRoom :
    (g : GameInfo) (p : GamePlayerInfo)
    → g.players ≢ []
    → IsPresent p
    → HasDelay p
    → IsRoom g
    → IsRoom (join_room g p) × Joined g p (join_room g p)
join_room-IsRoom g p some_one h k v = elim (Bool-cases (can_join g)) [
  | inl may ↦
      let (off, room) = can_join-facts g may in
      subst (λ r. IsRoom r × Joined g p r) (sym (join_room-can g p may))
        (
          add_player-IsRoom g p (live-none g.sync_manager off) room some_one h k v,
          add_player-Joined g p may (let s = v.small in omega arith),
        )
  | inr may_not ↦
      let e = join_room-cannot g p may_not in (subst IsRoom (sym e) v, inr (inl may_not, e))
]
