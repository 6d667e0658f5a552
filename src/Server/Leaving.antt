-- ===== src/Server/Leaving.antt =====
-- Quits and drops keep the rooms of the server well formed: Leave.
use direlera_rs.Prelude.{
  ℕ, ◌≡◌, ◌≢◌, refl, ◌∙◌, ap, Bool, true, false, ◌&&◌, get_elem?, Option, none, some, List, [], ◌∷◌,
  Bool-cases, inl, inr, if◌then◌else◌,
}
use direlera_rs.Sync.Core.{is_nil}
use direlera_rs.Sync.Cached.{CachedPlayerOutput}
use direlera_rs.Room.{GamePlayerInfo, GameInfo}
use direlera_rs.Room.Invariant.{IsRoom}
use direlera_rs.State.{ClientInfo, AppState, get_game}
use direlera_rs.Server.{Env, ◌>>=◌, pure}
use direlera_rs.Server.Leave.{
  player_status_idle, send_output, close_room, send_to, announce_drop, announce_end, after_drop,
  room_is_empty,
}
use direlera_rs.Server.Triple.{
  Cond, Triple, Keeps, Triple-bind, Keeps-bind, Keeps-pure, Keeps-raise, Triple-for_each,
  Triple-modify, gets_then, weaken,
}
use direlera_rs.Server.Quiet.{
  IsStable, Triple-broadcast_status, Keeps-set_status, Keeps-send_packet, Keeps-broadcast_packet,
  Keeps-broadcast_packet_to_game,
}
use direlera_rs.Server.Rooms.{Good, Rooms, IsServer, Held, Rooms-IsStable, Held-IsStable}
use direlera_rs.Server.Locked.{At, with_room_then, Held-widen, Held-IsServer, remove_game-IsServer}

pub IsServer-IsStable : IsStable IsServer
IsServer-IsStable = Rooms-IsStable Good

pub close_room-IsServer :
    (game_id : ℕ) (Q : GameInfo → Type 0)
    → Triple (Rooms (At game_id Q)) (close_room game_id) IsServer IsServer
unfolding close_room
close_room-IsServer game_id Q =
    Triple-bind _ _ (Triple-modify _ (remove_game-IsServer game_id Q))
      (λ _. Keeps-broadcast_packet IsServer-IsStable _ _)

announce_drop-Keeps :
    {P : Cond} (stable : IsStable P) (env : Env) (game_id : ℕ) (c : ClientInfo) (slot : ℕ)
    (players : List GamePlayerInfo) (outputs : List CachedPlayerOutput)
    → Keeps P (announce_drop env game_id c slot players outputs)
unfolding announce_drop
announce_drop-Keeps {P = P} stable env game_id c slot players outputs =
    Keeps-bind _ _ (Triple-for_each _ (Keeps-set_status stable player_status_idle) players) λ _.
      Keeps-bind _ _ (Keeps-broadcast_packet_to_game stable _ _ _)
        λ _. Keeps-bind _ _ (Triple-for_each _ output outputs) (λ _. Keeps-pure true)
  where
    sent : (o : CachedPlayerOutput) (p : Option GamePlayerInfo) → Keeps P (send_to env o p)
    sent o none = Keeps-raise _
    sent o (some p) = Keeps-send_packet stable env _ _ _

    output : (o : CachedPlayerOutput) → Keeps P (send_output env players o)
    output o = sent o (get_elem? players o.player_id)

pub not_nil : (ps : List GamePlayerInfo) → is_nil ps ≡ false → ps ≢ []
not_nil [] h e = cc
not_nil (p ∷ ps) h e = cc

pub after_drop-IsServer :
    (env : Env) (game_id addr : ℕ) (c : ClientInfo) (slot : ℕ) (players : List GamePlayerInfo)
    (outputs : List CachedPlayerOutput) (all : Bool) (g : GameInfo) (Q : GameInfo → Type 0)
    → IsRoom g
    → g.game_id ≡ game_id
    → (all ≡ false → g.players ≢ [])
    → Triple
        (Held (At game_id Q) game_id addr)
        (after_drop env game_id c slot players outputs all g)
        IsServer
        IsServer
unfolding after_drop get_game
after_drop-IsServer env game_id addr c slot players outputs all g Q v n some_one =
    with_room_then game_id addr Q (λ _. (tt, g)) _
      λ old _.
        Triple-bind _ _ (weaken _ (λ s p. p) (λ s p. p) (λ s p. p) (announce all))
          λ _. gets_then (λ s. get_game s game_id) _ (rest all some_one)
  where
    Now : Cond
    Now = Held (At game_id (λ x. x ≡ g)) game_id addr

    stable : IsStable Now
    stable = Held-IsStable (At game_id (λ x. x ≡ g)) game_id addr

    server : g.players ≢ [] → (s : AppState) → Now s → IsServer s
    server some_one s p = Held-IsServer game_id addr s (
        Held-widen game_id addr _ (Good game_id)
          (λ x z. rw z record { room = v; number = n; not_empty = some_one }) s p)

    closing : Triple Now (close_room game_id >>= λ _. pure true) IsServer IsServer
    closing =
        Triple-bind _ _
          (weaken _ (λ s p. p.rooms) (λ s p. p) (λ s p. p) (close_room-IsServer game_id _))
          (λ _. Keeps-pure true)

    announce : (all : Bool) → Triple Now (announce_end all g) Now IsServer
    announce true = Triple-broadcast_status stable g
    announce false = record { at = λ w p. p }

    rest :
        (all : Bool)
        → (all ≡ false → g.players ≢ [])
        → (now : Option GameInfo)
        → Triple
            (λ s. Now s × (get_game s game_id ≡ now))
            (if all && room_is_empty now
              then (close_room game_id >>= λ _. pure true)
              else announce_drop env game_id c slot players outputs)
            IsServer
            IsServer
    rest false h now =
        weaken _ (λ s p. server (h refl) s p.0) (λ s p. p) (λ s p. p)
          (announce_drop-Keeps IsServer-IsStable env game_id c slot players outputs)
    rest true h none = weaken _ (λ s p. p.0) (λ s p. p) (λ s p. p) closing
    rest true h (some x) = elim (Bool-cases (is_nil x.players)) [
      | inl empty ↦ rw empty (weaken _ (λ s p. p.0) (λ s p. p) (λ s p. p) closing)
      | inr some_one' ↦ rw some_one' (
          weaken _ (λ s p. server (λ z. not_nil x.players some_one' (same s p ∙ z)) s p.0)
            (λ s p. p) (λ s p. p)
            (announce_drop-Keeps IsServer-IsStable env game_id c slot players outputs))
    ]
      where
        same : (s : AppState) → Now s × (get_game s game_id ≡ some x) → x.players ≡ g.players
        same s p = ap (λ (y : GameInfo). y.players) ((p.0.rooms.each game_id x p.1).1 refl)
