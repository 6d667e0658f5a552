-- ===== src/Server/Owners.antt =====
-- Who may kick and start: `handle_kick_user` and `handle_start_game` of src/handlers/game.rs from a
-- client that does not own the room.
use direlera_rs.Prelude.{
  ℕ, ◌≡◌, ◌≢◌, refl, true, false, some, Bytes, arith, length, ltb, ◌==◌, Bool-cases, inl, inr, ◌⊎◌,
}
use direlera_rs.Protocol.Parse.{get_u16_le}
use direlera_rs.Packet.{read_string_bytes}
use direlera_rs.Room.{GameInfo, is_member, is_live}
use direlera_rs.State.{ClientInfo, get_client, get_game}
use direlera_rs.Server.{World, Env, ok, ◌>>=◌}
use direlera_rs.Server.Kick.{kick_checked, handle_kick_user}
use direlera_rs.Server.Start.{start_checked, handle_start_game}

module _ (env : Env) (src game_id : ℕ) (w : World) (c : ClientInfo) (g : GameInfo)
    (k : get_client w.app src ≡ some c) (l : c.game_id ≡ some game_id)
    (e : get_game w.app game_id ≡ some g) (differs : (g.owner_user_id == c.user_id) ≡ false) where
  kick_refused : (user_id : ℕ) → kick_checked env src user_id w ≡ (ok tt, w)
  unfolding ◌>>=◌ kick_checked
  kick_refused user_id = elim (Bool-cases (is_member src g.players)) [
    | inl member ↦ rw (k, l, e, member, differs) refl
    | inr stranger ↦ rw (k, l, e, stranger) refl
  ]

  start_refused : is_live g ≡ false → start_checked env src w ≡ (ok tt, w)
  unfolding ◌>>=◌ start_checked
  start_refused off = elim (Bool-cases (is_member src g.players)) [
    | inl member ↦ rw (k, l, e, member, off, differs) refl
    | inr stranger ↦ rw (k, l, e, stranger) refl
  ]

  kick_ignored : (payload : Bytes) → handle_kick_user env payload src w ≡ (ok tt, w)
  unfolding handle_kick_user
  kick_ignored payload = elim (Bool-cases (ltb (length (read_string_bytes payload).1) 2)) [
    | inl short ↦ rw short refl
    | inr long ↦ rw long (kick_refused (get_u16_le (read_string_bytes payload).1))
  ]

  start_ignored :
      (payload : Bytes) → is_live g ≡ false → handle_start_game env payload src w ≡ (ok tt, w)
  unfolding handle_start_game
  start_ignored payload off = elim (Bool-cases (ltb (length (read_string_bytes payload).1) 4)) [
    | inl short ↦ rw short refl
    | inr long ↦ rw long (start_refused off)
  ]

-- A kick, whatever its payload, from a client that is not the owner of its room changes nothing and
-- sends nothing; so does a start, unless a game runs in the room already.
pub non_owner_refused :
    (env : Env) (payload : Bytes) (src game_id : ℕ) (w : World) (c : ClientInfo) (g : GameInfo)
    → get_client w.app src ≡ some c
    → c.game_id ≡ some game_id
    → get_game w.app game_id ≡ some g
    → g.owner_user_id ≢ c.user_id
    → (handle_kick_user env payload src w ≡ (ok tt, w))
      × ((is_live g ≡ true) ⊎ (handle_start_game env payload src w ≡ (ok tt, w)))
non_owner_refused env payload src game_id w c g k l e other =
    let differs : (g.owner_user_id == c.user_id) ≡ false = ground arith in
    (
      kick_ignored env src game_id w c g k l e differs payload,
      elim (Bool-cases (is_live g)) [
        | inl on ↦ inl on
        | inr off ↦ inr (start_ignored env src game_id w c g k l e differs payload off)
      ],
    )
