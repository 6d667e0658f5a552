-- ===== src/Sync/Cached.antt =====
-- `CachedGameSync` of src/simplest_game_sync.rs: the engine with the client's input cache and the
-- server's output cache of every player.
pub mod Decode
pub mod Invariant
pub mod Coherence
pub mod Calls
pub mod Ids
mod Tests
use direlera_rs.Prelude.{
  ℕ, zero, suc, ◌+◌, ◌/◌, Bool, true, false, not, ◌||◌, Option, none, some, List, [], ◌∷◌, Bytes,
  length, get_or, set, replicate, leb, ◌==◌, if◌then◌else◌,
}
use direlera_rs.Sync.Outcome.{
  GameSyncError, invalid_player_id, cache_position_not_found, Outcome, ok, err, loops, ◌>>=◌,
}
use direlera_rs.Sync.Cache.{InputCache, empty, find, push, get, len}
use direlera_rs.Sync.Core.{SimplestGameSync, PlayerOutput}
use direlera_rs.Sync.Core

pub data ClientInput : Type 0 where
  game_data : Bytes → ClientInput
  game_cache : ℕ → ClientInput

pub data ServerResponse : Type 0 where
  game_data : Bytes → ServerResponse
  game_cache : ℕ → ServerResponse

pub record CachedPlayerOutput : Type 0 where
  pub player_id : ℕ
  pub response : ServerResponse

pub record CachedGameSync : Type 0 where
  pub sync : SimplestGameSync
  pub input_caches : List InputCache
  pub output_caches : List InputCache
  pub disable_output_cache : Bool

unfoldable pub new : List ℕ → CachedGameSync
new player_delays = record {
  sync = Core.new player_delays;
  input_caches = replicate (length player_delays) empty;
  output_caches = replicate (length player_delays) empty;
  disable_output_cache = false;
}

unfoldable pub with_output_cache_disabled : CachedGameSync → Bool → CachedGameSync
with_output_cache_disabled c disabled = record c { disable_output_cache = disabled }

-- The cache of a player that is in range.
abbrev pub cache : List InputCache → ℕ → InputCache
cache cs i = get_or cs i empty

-- `(before / 64 != after / 64).then_some(after)`
abbrev pub milestone : ℕ → ℕ → Option ℕ
milestone before after = if before / 64 == after / 64 then none else some after

store_output : CachedGameSync → ℕ → Bytes → (ServerResponse × Bool × Option ℕ) × CachedGameSync
store_output c player_id output =
    let (cache', overflowed) = push (cache c.output_caches player_id) output in
    (
      (
        ServerResponse.game_data output,
        overflowed,
        milestone (len (cache c.output_caches player_id)) (len cache'),
      ),
      record c { output_caches = set c.output_caches player_id cache' },
    )

unfoldable pub make_cached_output :
    CachedGameSync → ℕ → Bytes → (ServerResponse × Bool × Option ℕ) × CachedGameSync
unfolding store_output
make_cached_output c player_id output =
    if c.disable_output_cache
    then ((ServerResponse.game_data output, false, none), c)
    else elim (find (cache c.output_caches player_id) output) [
      | some cache_pos ↦ ((ServerResponse.game_cache cache_pos, false, none), c)
      | none ↦ store_output c player_id output
    ]

-- `Some` if this output crossed a 64-entry boundary, else what an earlier one gave.
abbrev pub or_earlier : Option ℕ → Option ℕ → Option ℕ
or_earlier (some n) earlier = some n
or_earlier none earlier = earlier

abbrev pub Reply : Type 0
Reply = List CachedPlayerOutput × Bool × Option ℕ

-- The loop that turns raw outputs into responses, with the flags collected so far.
unfoldable pub convert :
    CachedGameSync → Bool → Option ℕ → List PlayerOutput → Reply × CachedGameSync
unfolding make_cached_output
convert c overflowed crossed [] = (([], overflowed, crossed), c)
convert c overflowed crossed (o ∷ os) =
    let (r, c') = make_cached_output c o.player_id o.output in
    let (rs, c'') = convert c' (r.1 || overflowed) (or_earlier r.2 crossed) os in
    ((record { player_id = o.player_id; response = r.0 } ∷ rs.0, rs.1, rs.2), c'')

-- The bytes of an input: those sent, which are also stored, or those at a cache position.
unfoldable pub resolve : List InputCache → ℕ → ClientInput → Outcome (Bytes × List InputCache)
resolve caches player_id (ClientInput.game_data bytes) =
    ok (bytes, set caches player_id (push (cache caches player_id) bytes).0)
resolve caches player_id (ClientInput.game_cache pos) = elim (get (cache caches player_id) pos) [
  | none ↦ err (cache_position_not_found player_id pos)
  | some bytes ↦ ok (bytes, caches)
]

unfoldable pub player_count : CachedGameSync → ℕ
player_count c = length c.sync.player_delays

unfoldable pub process_client_input :
    CachedGameSync → ℕ → ClientInput → Outcome (Reply × CachedGameSync)
unfolding resolve convert player_count
process_client_input c player_id input =
    if leb (player_count c) player_id
    then err (invalid_player_id player_id (player_count c))
    else (resolve c.input_caches player_id input >>= λ (bytes, caches).
        Core.process_client_input c.sync player_id bytes >>= λ (raw, sync').
        ok (convert (record c { sync = sync'; input_caches = caches }) false none raw))

-- The flags of `make_cached_output` are ignored here.
unfoldable pub mark_player_dropped :
    CachedGameSync → ℕ → Outcome (List CachedPlayerOutput × CachedGameSync)
unfolding convert
mark_player_dropped c player_id = Core.mark_player_dropped c.sync player_id >>= λ (raw, sync').
    let (reply, c') = convert (record c { sync = sync' }) false none raw in ok (reply.0, c')

unfoldable pub is_player_dropped : CachedGameSync → ℕ → Bool
is_player_dropped c = Core.is_player_dropped c.sync

unfoldable pub get_player_delay : CachedGameSync → ℕ → ℕ
get_player_delay c player_id = get_or c.sync.player_delays player_id 0
