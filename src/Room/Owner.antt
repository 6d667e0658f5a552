-- ===== src/Room/Owner.antt =====
-- `migrate_owner_if_needed` of src/handlers/game.rs.
use direlera_rs.Prelude.{
  ◌≡◌, refl, true, false, Option, none, some, Bytes, List, [], ◌∷◌, arith, Bool-cases, Option-cases,
  inl, inr, ◌⊎◌,
}
use direlera_rs.Room.{
  GamePlayerInfo, GameInfo, in_room, first_in_room, owner_present, migrate_owner_if_needed,
}

-- The owner is in the room, unless no one is.
abbrev pub HasOwner : GameInfo → Type 0
HasOwner g = (owner_present g.owner_user_id g.players ≡ true) ⊎ (in_room g.players ≡ [])

owner_present-first :
    (ps : List GamePlayerInfo) (p : GamePlayerInfo)
    → first_in_room ps ≡ some p
    → owner_present p.user_id ps ≡ true
owner_present-first [] p e = cc
owner_present-first (q ∷ ps) p e = elim (Bool-cases q.left_room) [
  | inl gone ↦ simp gone (owner_present-first ps p (simp gone at e))
  | inr here ↦
      let z : some q ≡ some p = simp here at e in let k : q ≡ p = cc in ground (arith, k, here)
]

first_in_room-none : (ps : List GamePlayerInfo) → first_in_room ps ≡ none → in_room ps ≡ []
first_in_room-none [] e = refl
first_in_room-none (q ∷ ps) e = elim (Bool-cases q.left_room) [
  | inl gone ↦ simp gone (first_in_room-none ps (simp gone at e))
  | inr here ↦ let z = simp here at e in cc
]

first_in_room-some :
    (ps : List GamePlayerInfo) (p : GamePlayerInfo)
    → first_in_room ps ≡ some p
    → (qs : List GamePlayerInfo) × (in_room ps ≡ p ∷ qs)
first_in_room-some [] p e = cc
first_in_room-some (q ∷ ps) p e = elim (Bool-cases q.left_room) [
  | inl gone ↦ simp gone (first_in_room-some ps p (simp gone at e))
  | inr here ↦
      let z : some q ≡ some p = simp here at e in
      let k : q ≡ p = cc in simp here (in_room ps, rw k refl)
]

-- The outcome of a migration: nothing changes where the owner is in the room or no one is; otherwise the
-- first player in the room becomes the owner, and that name is the result.
abbrev pub Named : GameInfo → Option Bytes × GameInfo → Type 0
Named g r =
    (HasOwner g × (r.0 ≡ none) × (r.1 ≡ g))
    ⊎ ((owner_present g.owner_user_id g.players ≡ false)
        × ((p : GamePlayerInfo) × (qs : List GamePlayerInfo) × (in_room g.players ≡ p ∷ qs)
            × (r.0 ≡ some p.username)
            × (r.1.owner ≡ p.username)
            × (r.1.owner_user_id ≡ p.user_id)))

-- What a migration leaves as it was, and what it gives out.
pub record Migrated (g : GameInfo) (r : Option Bytes × GameInfo) : Type 0 where
  pub game_id : r.1.game_id ≡ g.game_id
  pub game_name : r.1.game_name ≡ g.game_name
  pub emulator_name : r.1.emulator_name ≡ g.emulator_name
  pub players : r.1.players ≡ g.players
  pub num_players : r.1.num_players ≡ g.num_players
  pub max_players : r.1.max_players ≡ g.max_players
  pub game_status : r.1.game_status ≡ g.game_status
  pub sync_manager : r.1.sync_manager ≡ g.sync_manager
  pub owner : HasOwner r.1
  pub named : Named g r

-- After a migration the owner is in the room unless no one is, and only the owner's fields change. Where
-- the owner was not in the room and someone is, the first player in the room becomes the owner and its
-- name is given out; otherwise no name is given out and nothing changes.
pub migrate_owner-HasOwner : (g : GameInfo) → Migrated g (migrate_owner_if_needed g)
unfolding migrate_owner_if_needed
migrate_owner-HasOwner g = elim (Bool-cases (owner_present g.owner_user_id g.players)) [
  | inl present ↦ rw present (kept g (inl present))
  | inr absent ↦ elim (Option-cases (first_in_room g.players)) [
    | inl no_one ↦ rw (absent, no_one) (kept g (inr (first_in_room-none g.players no_one)))
    | inr (p, e) ↦
        let (qs, k) = first_in_room-some g.players p e in
        rw (absent, e)
          record {
            game_id = refl;
            game_name = refl;
            emulator_name = refl;
            players = refl;
            num_players = refl;
            max_players = refl;
            game_status = refl;
            sync_manager = refl;
            owner = inl (owner_present-first g.players p e);
            named = inr (absent, (p, qs, k, refl, refl, refl));
          }
  ]
]
  where
    kept : (g : GameInfo) → HasOwner g → Migrated g (none, g)
    kept g h = record {
      game_id = refl;
      game_name = refl;
      emulator_name = refl;
      players = refl;
      num_players = refl;
      max_players = refl;
      game_status = refl;
      sync_manager = refl;
      owner = h;
      named = inl (h, refl, refl);
    }
