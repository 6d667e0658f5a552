-- ===== src/Room/Starting.antt =====
-- `handle_start_game` of src/handlers/game.rs, as far as it makes the engine of a room.
use direlera_rs.Prelude.{
  ℕ, zero, suc, ◌≡◌, ◌≢◌, refl, true, false, Option, none, some, List, [], ◌∷◌, arith, length, map,
  All, sym, ◌∙◌, ◌==◌, ◌%◌, replicate, length-replicate, length-map,
}
use direlera_rs.Sync.Core.{all_true}
use direlera_rs.Sync.Core
use direlera_rs.Sync.Core.Invariant.{AllPositive}
use direlera_rs.Sync.Cached
use direlera_rs.Sync.Cached.Calls
use direlera_rs.Sync.Delayed.{DelayedGameSync, fresh, with_player_delays, all_players_dropped}
use direlera_rs.Sync.Delayed.History.{new-IsValid}
use direlera_rs.Room.{GamePlayerInfo, GameInfo, game_status_playing}
use direlera_rs.Room.Live.{startup_warmups, start_room, compacted}
use direlera_rs.Room.Players.{IsPresent, has_left, in_room_keeps}
use direlera_rs.Room.Invariant.{Live, HasDelay, IsRoom}
use direlera_rs.Room.Leaving.{sync_manager-Mode}

abbrev delays_of : List GamePlayerInfo → List ℕ
delays_of ps = map (λ (p : GamePlayerInfo). p.conn_type) ps

delays_of-AllPositive : (ps : List GamePlayerInfo) → All HasDelay ps → AllPositive (delays_of ps)
delays_of-AllPositive [] h j k = absurd (omega arith)
delays_of-AllPositive (p ∷ ps) h zero k = h.0
delays_of-AllPositive (p ∷ ps) h (suc j) k = delays_of-AllPositive ps h.1 j (omega arith)

length-startup_warmups :
    (fixed : Option ℕ) (frame_delays : List ℕ)
    → length (startup_warmups fixed frame_delays) ≡ length frame_delays
unfolding startup_warmups
length-startup_warmups none frame_delays = length-map _ frame_delays
length-startup_warmups (some d) frame_delays = length-replicate (length frame_delays) d

none_left : (ps : List GamePlayerInfo) (j : ℕ) → All IsPresent ps → has_left ps j ≡ false
none_left [] j h = refl
none_left (p ∷ ps) zero h = h.0
none_left (p ∷ ps) (suc j) h = none_left ps j h.1

not_all_dropped :
    (ps : List GamePlayerInfo)
    → ps ≢ []
    → all_true (replicate (length (delays_of ps)) false) ≡ false
not_all_dropped [] h = absurd (h refl)
not_all_dropped (p ∷ ps) h = refl

same_count : (n m : ℕ) → n ≡ m → (n == m) ≡ true
same_count n m e = ground arith

engine_starts :
    (ps : List GamePlayerInfo) (totals : List ℕ)
    → ps ≢ []
    → length totals ≡ length ps
    → All IsPresent ps
    → All HasDelay ps
    → (d : DelayedGameSync) × (with_player_delays
          (Cached.with_output_cache_disabled (Cached.new (delays_of ps)) false)
          totals
        ≡ some d)
      × (d.inner.sync.player_delays ≡ delays_of ps)
      × (d.total_delays ≡ totals)
      × Live game_status_playing ps none d
unfolding with_player_delays Cached.with_output_cache_disabled Cached.new Core.new
    Cached.player_count all_players_dropped Core.all_players_dropped
engine_starts ps totals some_one n here h =
    let c = Cached.new (delays_of ps) in
    let m : length (delays_of ps) ≡ length ps = length-map _ ps in
    (
      fresh c totals,
      (let q = same_count (length totals) (length (delays_of ps)) (n ∙ sym m) in rw q refl),
      refl,
      refl,
      record {
        playing = refl;
        valid =
            new-IsValid c totals (Calls.new-IsValid (delays_of ps) (delays_of-AllPositive ps h))
              (n ∙ sym m);
        slots = m;
        left = λ j e. let z = none_left ps j here in cc;
        going = not_all_dropped ps some_one;
      },
    )

-- The start of a well-formed waiting room with someone in it, with the output cache in use, does not
-- panic: the players stay, the room plays and has an engine with one slot for each player, in the order
-- of the room: the slot's delay is the player's connection type, and its startup frames are those of the
-- fixed delay or of the players' frame delays. The room is well formed.
pub start_room-IsRoom :
    (fixed : Option ℕ) (frame_delay : GamePlayerInfo → ℕ) (g : GameInfo)
    → g.sync_manager ≡ none
    → g.players ≢ []
    → IsRoom g
    → (r : GameInfo) × (start_room false fixed frame_delay g ≡ some r)
      × (r.players ≡ g.players)
      × IsRoom r
      × (r.game_status ≡ game_status_playing)
      × ((d : DelayedGameSync) × (r.sync_manager ≡ some d)
          × (d.inner.sync.player_delays ≡ map (λ (p : GamePlayerInfo). p.conn_type) g.players)
          × (d.total_delays ≡ startup_warmups fixed (map frame_delay g.players)))
unfolding start_room
start_room-IsRoom fixed frame_delay g e some_one v =
    let m = sync_manager-Mode none g none e v in
    let old = in_room_keeps g.players m.1 in
    let totals = startup_warmups fixed (map frame_delay g.players) in
    let (d, q, same_delays, same_totals, w) =
      engine_starts g.players totals some_one
        (length-startup_warmups fixed (map frame_delay g.players)
          ∙ length-map frame_delay g.players)
        m.1 v.positive in
    let c : g.num_players ≡ length g.players = rw old at v.counted in
    let f = v.fits in
    let t = v.small in
    rw (old, q)
      (
        record (compacted g) {
          players = g.players;
          num_players = length g.players % 256;
          game_status = game_status_playing;
          sync_manager = some d;
        },
        refl,
        refl,
        record {
          counted = rw old (omega arith);
          fits = v.fits;
          small = v.small;
          positive = v.positive;
          owner = v.owner;
          mode = w;
        },
        refl,
        (d, refl, same_delays, same_totals),
      )
