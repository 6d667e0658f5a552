-- ===== src/Server/Starts.antt =====
-- Starts, ready signals and acknowledgements keep the rooms well formed.
use direlera_rs.Prelude.{
  ℕ, ◌<◌, ◌+◌, ◌%◌, ◌≡◌, refl, sym, ◌∙◌, ap, Bool, false, not, Option, none, some, List, [], ◌∷◌,
  Bytes, arith, nat_eq, length, ltb, ◌==◌, Bool-cases, inl, inr, if◌then◌else◌,
}
use direlera_rs.Dict.{insert}
use direlera_rs.Sync.Core.{is_nil}
use direlera_rs.Sync.Delayed.{DelayedGameSync}
use direlera_rs.Packet.{read_string_bytes}
use direlera_rs.Room.{GamePlayerInfo, GameInfo, is_member, is_live}
use direlera_rs.Room.Live.{start_room, with_sync, compacted}
use direlera_rs.Room.Leaving.{live-none}
use direlera_rs.Room.Starting.{start_room-IsRoom}
use direlera_rs.State.{ClientInfo, AppState, get_client, get_game}
use direlera_rs.Server.{Env, Exec, pure}
use direlera_rs.Server.Leave.{player_status_playing, player_status_idle}
use direlera_rs.Server.Start.{
  frame_delay, start_in, send_starts, announce_start, start, already_started, start_checked,
  handle_start_game, begin_play, mark_ready, handle_ready_to_play_signal,
}
use direlera_rs.Server.Ack.{acked, measure, welcome, handle_client_to_server_ack}
use direlera_rs.Server.Triple.{
  Cond, Triple, Keeps, Triple-bind, Keeps-bind, Keeps-pure, Keeps-gets, Keeps-if, Keeps-client,
  Keeps-attempt, Triple-for_each, weaken,
}
use direlera_rs.Server.Known.{client_then, game_then, or_fail_then, assume}
use direlera_rs.Server.Quiet.{
  IsStable, Keeps-with_client_mut, Keeps-set_status, Keeps-send_packet, Keeps-broadcast_packet,
  Keeps-broadcast_packet_to_game, Keeps-broadcast_status, Keeps-fetch_game_info,
}
use direlera_rs.Server.Rooms.{Good, IsServer}
use direlera_rs.Server.Locked.{At-IsServer, IsServer-At, put-At}
use direlera_rs.Server.Leaving.{IsServer-IsStable}

with_sync-game_id :
    (g r : GameInfo) (o : Option DelayedGameSync) → with_sync g o ≡ some r → r.game_id ≡ g.game_id
with_sync-game_id g r none e = cc
with_sync-game_id g r (some d) e = sym (ap number e)
  where
    number : Option GameInfo → ℕ
    number none = 0
    number (some x) = x.game_id

start_room-game_id :
    (disable : Bool) (fixed : Option ℕ) (delay : GamePlayerInfo → ℕ) (g r : GameInfo)
    → start_room disable fixed delay g ≡ some r
    → r.game_id ≡ g.game_id
unfolding start_room
start_room-game_id disable fixed delay g r e = with_sync-game_id (compacted g) r _ e

start_in-IsServer :
    (env : Env) (game_id : ℕ) (g : GameInfo)
    → env.disable_output_cache ≡ false
    → is_live g ≡ false
    → Triple
        (λ s. IsServer s × (get_game s game_id ≡ some g))
        (start_in env game_id g)
        IsServer
        IsServer
unfolding start_in get_game
start_in-IsServer env game_id g cached off = record {
  at = λ w p.
      let v = p.0.each game_id g p.1 in
      let (r, e, players, room, _, _) =
        start_room-IsRoom env.fixed_game_delay (frame_delay env w.app) g
          (live-none g.sync_manager off) v.not_empty v.room in
      rw (cached, e)
        (At-IsServer game_id (record w.app { games = insert game_id r w.app.games })
          (put-At game_id (Good game_id) (Good game_id) w.app r (IsServer-At game_id w.app p.0)
            record {
              room = room;
              number = start_room-game_id false env.fixed_game_delay _ g r e ∙ v.number;
              not_empty = λ z. v.not_empty (sym players ∙ z);
            }));
}

send_starts-Keeps :
    (env : Env) (delays : List ℕ) (total i : ℕ) (ps : List GamePlayerInfo)
    → Keeps IsServer (send_starts env delays total i ps)
send_starts-Keeps env delays total i [] = Keeps-pure tt
send_starts-Keeps env delays total i (p ∷ ps) =
    Keeps-bind _ _ (Keeps-send_packet IsServer-IsStable env p.addr _ _)
      (λ _. send_starts-Keeps env delays total (i + 1) ps)

start-IsServer :
    (env : Env) (src game_id : ℕ) (g : GameInfo)
    → env.disable_output_cache ≡ false
    → is_live g ≡ false
    → Triple
        (λ s. IsServer s × (get_game s game_id ≡ some g))
        (start env src game_id g)
        IsServer
        IsServer
unfolding start announce_start
start-IsServer env src game_id g cached off =
    Triple-bind _ _
      (weaken _ (λ s p. p) (λ s p. p) (λ s p. p) (start_in-IsServer env game_id g cached off))
      λ _. Keeps-bind _ _ (Keeps-gets _) λ delays.
        Keeps-bind _ _ (Triple-for_each _ (Keeps-set_status IsServer-IsStable player_status_idle) _)
          λ _. Keeps-bind _ _ (Keeps-fetch_game_info src) λ g'.
            Keeps-bind _ _ (Keeps-broadcast_status IsServer-IsStable g') λ _.
              Keeps-bind _ _ (send_starts-Keeps env delays _ 0 g'.players)
                (λ _. Keeps-broadcast_packet_to_game IsServer-IsStable game_id _ _)

start_checked-IsServer :
    (env : Env) (src : ℕ)
    → env.disable_output_cache ≡ false
    → Keeps IsServer (start_checked env src)
unfolding start_checked
start_checked-IsServer env src cached =
    client_then src _ (λ s p. p)
      λ c.
        or_fail_then _ c.game_id _ (λ s p. p.0)
          λ game_id _. game_then game_id _ (λ s p. p.0) (at c game_id)
  where
    Read : ClientInfo → ℕ → GameInfo → Cond
    Read c game_id g s = (IsServer s × (get_client s src ≡ some c)) × (get_game s game_id ≡ some g)

    only :
        (c : ClientInfo) (game_id : ℕ) (g : GameInfo) (m : Exec (Unit {0}))
        → Keeps IsServer m
        → Triple (Read c game_id g) m IsServer IsServer
    only c game_id g m = weaken m (λ s p. p.0.0) (λ s p. p) (λ s p. p)

    at :
        (c : ClientInfo) (game_id : ℕ) (g : GameInfo)
        → Triple
            (Read c game_id g)
            (if not (is_member src g.players)
              then pure tt
              else if is_live g
              then already_started game_id c
              else if not (g.owner_user_id == c.user_id)
              then pure tt
              else start env src game_id g)
            IsServer
            IsServer
    at c game_id g = elim (Bool-cases (is_member src g.players)) [
      | inr stranger ↦ rw stranger (only c game_id g _ (Keeps-pure tt))
      | inl member ↦ elim (Bool-cases (is_live g)) [
        | inl on ↦
            rw (member, on)
              (only c game_id g _ (Keeps-broadcast_packet_to_game IsServer-IsStable game_id _ _))
        | inr off ↦ elim (Bool-cases (g.owner_user_id == c.user_id)) [
          | inr other ↦ rw (member, off, other) (only c game_id g _ (Keeps-pure tt))
          | inl owner ↦
              rw (member, off, owner)
                (weaken _ (λ s p. (p.0.0, p.1)) (λ s p. p) (λ s p. p)
                  (start-IsServer env src game_id g cached off))
        ]
      ]
    ]

-- A start, with the output cache in use, leaves every room well formed: the engine is made without a
-- panic.
pub handle_start_game-IsServer :
    (env : Env) (payload : Bytes) (src : ℕ)
    → env.disable_output_cache ≡ false
    → Keeps IsServer (handle_start_game env payload src)
unfolding handle_start_game
handle_start_game-IsServer env payload src cached =
    Keeps-if (ltb (length (read_string_bytes payload).1) 4) _ _ (Keeps-pure tt)
      (start_checked-IsServer env src cached)

begin_play-Keeps : (g : GameInfo) → Keeps IsServer (begin_play g)
unfolding begin_play
begin_play-Keeps g =
    Keeps-bind _ _
      (Triple-for_each _
        (λ p. Keeps-attempt _ (Keeps-set_status IsServer-IsStable player_status_playing p))
        g.players)
      (λ _. Keeps-broadcast_packet_to_game IsServer-IsStable g.game_id _ _)

pub handle_ready-IsServer :
    (payload : Bytes) (src : ℕ) → Keeps IsServer (handle_ready_to_play_signal payload src)
unfolding handle_ready_to_play_signal mark_ready
handle_ready-IsServer payload src = Keeps-if (is_nil payload) _ _ (Keeps-pure tt) (
    Keeps-bind _ _ (Keeps-client src) λ c.
      Keeps-if (c.player_status == player_status_playing) _ _ (Keeps-pure tt) (
        Keeps-bind _ _ (Keeps-with_client_mut IsServer-IsStable src _ (λ d. refl)) λ _.
          Keeps-bind _ _ (Keeps-fetch_game_info src) λ g.
            Keeps-bind _ _ (Keeps-broadcast_status IsServer-IsStable g) λ _.
              Keeps-bind _ _ (Keeps-gets _)
                λ ready. Keeps-if ready _ _ (begin_play-Keeps g) (Keeps-pure tt)))

-- The counter of the acknowledgements has not reached the last value of a `u16`.
abbrev pub AcksLeft : AppState → ℕ → Type 0
AcksLeft s src = (c : ClientInfo) → get_client s src ≡ some c → c.ack_count < 65535

module _ {P : Cond} (stable : IsStable P) (env : Env) (src : ℕ) where
  welcome-Keeps : Keeps P (welcome env src)
  unfolding welcome
  welcome-Keeps = Keeps-bind _ _ (Keeps-gets _) λ status.
      Keeps-bind _ _ (Keeps-send_packet stable env src _ status) λ _.
        Keeps-bind _ _ (Keeps-client src) λ c.
          Keeps-bind _ _ (Keeps-broadcast_packet stable _ _)
            (λ _. Triple-for_each _ (Keeps-send_packet stable env src _) _)

  measure-Keeps :
      (c : ClientInfo) (o : Option ℕ) → c.ack_count < 65535 → Keeps P (measure env src c o)
  measure-Keeps c none h = Keeps-pure c.ack_count
  measure-Keeps c (some sent) h =
      let q : ((c.ack_count + 1) % 65536 == 0) ≡ false = ground arith in
      rw q (
        Keeps-bind _ _ (Keeps-with_client_mut stable src (acked env sent) (λ d. refl))
          (λ _. Keeps-pure _))

  -- An acknowledgement comes back while the counter does not wrap.
  pub handle_ack-Keeps :
      Triple (λ s. P s × AcksLeft s src) (handle_client_to_server_ack env src) P P
  unfolding handle_client_to_server_ack
  handle_ack-Keeps =
      client_then src _ (λ s p. p.0)
        λ c.
          assume (c.ack_count < 65535) _ (λ s p. p.0.1 c p.1)
            λ h.
              weaken _ (λ s p. p.0.0) (λ s p. p) (λ s p. p)
                (Keeps-bind _ _ (measure-Keeps c c.last_ping_time h) λ count.
                  Keeps-if (ltb 3 count) _ _ (welcome-Keeps) (Keeps-send_packet stable env src _ _))
