-- ===== src/Sync/Delayed.antt =====
-- `DelayedGameSync` of src/simplest_game_sync.rs: the startup buffer in front of the engine. The
-- caches of `CachedGameSync` stay in use behind it.
pub mod Startup
pub mod Merge
pub mod Calls
pub mod Warmup
pub mod Steps
pub mod Total
pub mod Drops
pub mod Inputs
pub mod History
mod Tests
use direlera_rs.Prelude.{
  ℕ, zero, suc, ◌+◌, ◌*◌, Bool, true, false, Option, none, some, List, [], ◌∷◌, ◌++◌, Bytes, length,
  get_or, set, replicate, leb, ltb, ◌==◌, ◌&&◌, not, if◌then◌else◌,
}
use direlera_rs.Sync.Outcome.{GameSyncError, invalid_player_id, Outcome, ok, err, loops, ◌>>=◌}
use direlera_rs.Sync.Cache.{InputCache, empty}
use direlera_rs.Sync.Core.{is_nil}
use direlera_rs.Sync.Core
use direlera_rs.Sync.Cached.{
  CachedGameSync, CachedPlayerOutput, ClientInput, ServerResponse, Reply, resolve,
  make_cached_output,
}
use direlera_rs.Sync.Cached

pub record DelayedGameSync : Type 0 where
  pub inner : CachedGameSync
  pub input_caches : List InputCache
  pub queues : List (List Bytes)
  pub warmup_sent : List ℕ
  pub total_delays : List ℕ
  pub frame_size : ℕ
  pub player_count : ℕ

abbrev pub fresh : CachedGameSync → List ℕ → DelayedGameSync
fresh inner total_delays = record {
  inner = inner;
  input_caches = replicate (Cached.player_count inner) empty;
  queues = replicate (Cached.player_count inner) [];
  warmup_sent = replicate (Cached.player_count inner) 0;
  total_delays = total_delays;
  frame_size = 0;
  player_count = Cached.player_count inner;
}

-- `none` is the panic of the assertion on the number of delays.
unfoldable pub with_player_delays : CachedGameSync → List ℕ → Option DelayedGameSync
with_player_delays inner total_delays =
    if length total_delays == Cached.player_count inner
    then some (fresh inner total_delays)
    else none

unfoldable pub new : CachedGameSync → ℕ → Option DelayedGameSync
unfolding with_player_delays
new inner total_delay = with_player_delays inner (replicate (Cached.player_count inner) total_delay)

-- The size of the first input that is not empty.
abbrev pub learn_frame_size : ℕ → Bytes → ℕ
learn_frame_size size bytes = if size == 0 && not (is_nil bytes) then length bytes else size

-- The state after the input is resolved and its size learned.
abbrev pub noted : DelayedGameSync → List InputCache → Bytes → DelayedGameSync
noted d caches bytes = record d {
  input_caches = caches;
  frame_size = learn_frame_size d.frame_size bytes;
}

abbrev pub zero_frame : DelayedGameSync → Bytes
zero_frame d = replicate (d.player_count * d.frame_size) 0

-- Startup: the input is saved and a zero frame is returned.
unfoldable pub warm_up : DelayedGameSync → ℕ → Bytes → Reply × DelayedGameSync
warm_up d player_id bytes =
    let (r, inner') = make_cached_output d.inner player_id (zero_frame d) in
    (
      (record { player_id = player_id; response = r.0 } ∷ [], false, none),
      record d {
        inner = inner';
        queues = set d.queues player_id (get_or d.queues player_id [] ++ bytes ∷ []);
        warmup_sent = set d.warmup_sent player_id (get_or d.warmup_sent player_id 0 + 1);
      },
    )

unfoldable pub forward : DelayedGameSync → ℕ → Bytes → Outcome (Reply × DelayedGameSync)
forward d player_id bytes =
    Cached.process_client_input d.inner player_id (ClientInput.game_data bytes)
    >>= λ (reply, inner'). ok (reply, record d { inner = inner' })

-- After startup: the oldest saved input goes in place of the current one, while there is any.
unfoldable pub catch_up :
    DelayedGameSync → ℕ → Bytes → List Bytes → Outcome (Reply × DelayedGameSync)
unfolding forward
catch_up d player_id bytes [] = forward d player_id bytes
catch_up d player_id bytes (due ∷ rest) =
    forward (record d { queues = set d.queues player_id rest }) player_id due

abbrev pub warming : DelayedGameSync → ℕ → Bool
warming d player_id = ltb (get_or d.warmup_sent player_id 0) (get_or d.total_delays player_id 0)

unfoldable pub deliver : DelayedGameSync → ℕ → Bytes → Outcome (Reply × DelayedGameSync)
unfolding warm_up catch_up
deliver d player_id bytes =
    if warming d player_id
    then ok (warm_up d player_id bytes)
    else catch_up d player_id bytes (get_or d.queues player_id [])

unfoldable pub process_client_input :
    DelayedGameSync → ℕ → ClientInput → Outcome (Reply × DelayedGameSync)
unfolding deliver
process_client_input d player_id input =
    if leb d.player_count player_id
    then err (invalid_player_id player_id d.player_count)
    else (resolve d.input_caches player_id input >>= λ (bytes, caches).
        deliver (noted d caches bytes) player_id bytes)

abbrev pub cleared : DelayedGameSync → ℕ → DelayedGameSync
cleared d player_id =
    if ltb player_id d.player_count then record d { queues = set d.queues player_id [] } else d

unfoldable pub mark_player_dropped :
    DelayedGameSync → ℕ → Outcome (List CachedPlayerOutput × DelayedGameSync)
mark_player_dropped d player_id =
    Cached.mark_player_dropped d.inner player_id >>= λ (outputs, inner').
    ok (outputs, record (cleared d player_id) { inner = inner' })

unfoldable pub is_player_dropped : DelayedGameSync → ℕ → Bool
is_player_dropped d = Cached.is_player_dropped d.inner

unfoldable pub get_player_delay : DelayedGameSync → ℕ → ℕ
get_player_delay d = Cached.get_player_delay d.inner

unfoldable pub all_players_dropped : DelayedGameSync → Bool
all_players_dropped d = Core.all_players_dropped d.inner.sync
