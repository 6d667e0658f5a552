-- ===== src/Server/Unready.antt =====
-- `handle_ready_to_play_signal` of src/handlers/sync.rs in a game that a player without a client is
-- still listed in.
use direlera_rs.Prelude.{
  ℕ, ◌≡◌, ◌≢◌, refl, true, false, Option, none, some, List, [], ◌∷◌, Bytes, nat_eq, ◌==◌, ==_iff,
  Bool-cases, inl, inr, if◌then◌else◌,
}
use direlera_rs.Room.{GamePlayerInfo, GameInfo, is_member}
use direlera_rs.State.{ClientInfo, AppState, get_client, get_game, update_client}
use direlera_rs.Server.{
  World, Result, ok, err, panics, loops, Exec, continue, ◌>>=◌, ◌>>◌, pure, gets, updated,
  with_client_mut, fetch_game_id, fetch_game_info,
}
use direlera_rs.Server.Leave.{broadcast_status, player_status_playing}
use direlera_rs.Server.Start.{
  waits, all_ready, begin_play, mark_ready, handle_ready_to_play_signal, player_status_net_sync,
}
use direlera_rs.Server.Triple.{After}
use direlera_rs.Server.Quiet.{Keeps-broadcast_status}
use direlera_rs.Server.Rooms.{update_client-cases}
use direlera_rs.Server.Joining.{get_client-update}
use direlera_rs.Server.Gone.{Gone, Gone-IsStable, gone-update, member_rest}

all_ready-gone :
    (s : AppState) (addr : ℕ) (ps : List GamePlayerInfo)
    → is_member addr ps ≡ true
    → Gone addr s
    → all_ready s ps ≡ false
all_ready-gone s addr [] m h = cc
all_ready-gone s addr (p ∷ ps) m h = elim (Bool-cases (p.addr == addr)) [
  | inl same ↦ let z : p.addr ≡ addr = (==_iff p.addr addr).0 same in rw (z, h) refl
  | inr other ↦ elim (Bool-cases (waits (get_client s p.addr))) [
    | inl ready ↦ rw ready (all_ready-gone s addr ps (member_rest addr p ps other m) h)
    | inr idle ↦ rw idle refl
  ]
]

abbrev ready : ClientInfo → ClientInfo
ready c = record c { player_status = player_status_net_sync }

-- What a signal does that does not start the game.
pub note_ready : ℕ → GameInfo → Exec (Unit {0})
note_ready src g = with_client_mut src ready >> broadcast_status g

abbrev check : GameInfo → Unit {0} → Exec (Unit {0})
check g _ = gets (λ s. all_ready s g.players) >>= λ b. if b then begin_play g else pure tt

not_begun :
    (g : GameInfo) (gone : ℕ) (r : Result (Unit {0})) (w : World)
    → is_member gone g.players ≡ true
    → After (Gone gone) (Gone gone) r w.app
    → continue r (check g) w ≡ (r, w)
unfolding ◌>>=◌
not_begun g gone (ok tt) w m h = rw (all_ready-gone w.app gone g.players m h) refl
not_begun g gone (err e) w m h = refl
not_begun g gone panics w m h = refl
not_begun g gone loops w m h = refl

marked :
    (src gone game_id : ℕ) (w : World) (c : ClientInfo) (g : GameInfo)
    → get_client w.app src ≡ some c
    → c.game_id ≡ some game_id
    → get_game w.app game_id ≡ some g
    → is_member gone g.players ≡ true
    → Gone gone w.app
    → (o : Option AppState) → update_client w.app src ready ≡ o
    → let (r, w') = updated w o in
      continue r (λ _. fetch_game_info src >>= λ g. broadcast_status g >>= check g) w'
      ≡ continue r (λ _. broadcast_status g) w'
unfolding ◌>>=◌ fetch_game_info fetch_game_id get_game
marked src gone game_id w c g k l e m h none q = refl
marked src gone game_id w c g k l e m h (some s) q =
    let k' = get_client-update w.app s src ready c q k in
    let (id, d, a, b, same) = update_client-cases w.app s src ready q in
    let e' : get_game s game_id ≡ some g = rw same e in
    let w' : World = record w { app = s } in
    rw (k', l, e')
      (not_begun g gone (broadcast_status g w').0 (broadcast_status g w').1 m (
        (Keeps-broadcast_status (Gone-IsStable gone) g).at w'
          (gone-update w.app s src gone ready q h)))

-- Where a listed player of the game has no client any more, a signal of another player whose state is not
-- "playing" only marks that player and broadcasts the room's status: the game is not started and no
-- one is told to play, however many have given the signal.
pub ready_blocked :
    (payload : Bytes) (src gone game_id : ℕ) (w : World) (c : ClientInfo) (g : GameInfo)
    → payload ≢ []
    → get_client w.app src ≡ some c
    → (c.player_status == player_status_playing) ≡ false
    → c.game_id ≡ some game_id
    → get_game w.app game_id ≡ some g
    → is_member gone g.players ≡ true
    → get_client w.app gone ≡ none
    → handle_ready_to_play_signal payload src w ≡ note_ready src g w
unfolding ◌>>=◌ handle_ready_to_play_signal mark_ready note_ready with_client_mut
ready_blocked [] src gone game_id w c g p k n l e m h = absurd (p refl)
ready_blocked (b ∷ bs) src gone game_id w c g p k n l e m h =
    rw (k, n) (marked src gone game_id w c g k l e m h (update_client w.app src ready) refl)
