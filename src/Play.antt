-- ===== src/Play.antt =====
-- src/handlers/sync.rs: game data and cache positions from a player of a running game. What is sent is
-- an address, a message type and a payload; pacing and metrics are left out.
pub mod Payload
pub mod Answers
pub mod Resolve
mod Tests
use direlera_rs.Prelude.{
  ℕ, suc, ◌+◌, ◌*◌, Option, none, some, List, [], ◌∷◌, Bytes, map, length, get_or, get_elem?, take,
  drop, ltb, if◌then◌else◌, nat_eq,
}
use direlera_rs.Dict.{lookup, insert}
use direlera_rs.Protocol.Parse.{get_u16_le}
use direlera_rs.Packet.{build_game_data_packet, build_game_cache_packet, build_game_chat_packet}
use direlera_rs.Sync.Outcome.{
  GameSyncError, cache_position_not_found, invalid_player_id, buffer_inconsistency, Outcome, ok,
  err, loops, ◌>>=◌,
}
use direlera_rs.Sync.Cached.{ClientInput, ServerResponse, CachedPlayerOutput, Reply}
use direlera_rs.Sync.Delayed.{DelayedGameSync}
use direlera_rs.Sync.Delayed
use direlera_rs.Room.{GamePlayerInfo, GameInfo, position}
use direlera_rs.State.{ClientInfo, AppState, get_client}

-- `none` is a payload that is malformed or cut.
unfoldable pub game_data_payload : Bytes → Option Bytes
game_data_payload buf =
    if ltb (length buf) 3
    then none
    else (let data_length = get_u16_le (drop 1 buf) in
        if ltb (length (drop 3 buf)) data_length
        then none
        else some (take data_length (drop 3 buf)))

unfoldable pub game_cache_payload : Bytes → Option ℕ
game_cache_payload buf = if ltb (length buf) 2 then none else some (get_or buf 1 0)

-- `GAME_CHAT`, `GAME_DATA` and `GAME_CACHE`
abbrev pub game_chat_type : ℕ
game_chat_type = 8

abbrev pub game_data_type : ℕ
game_data_type = 18

abbrev pub game_cache_type : ℕ
game_cache_type = 19

abbrev pub response_message : ServerResponse → ℕ × Bytes
response_message (ServerResponse.game_data bytes) = (game_data_type, build_game_data_packet bytes)
response_message (ServerResponse.game_cache pos) = (game_cache_type, build_game_cache_packet pos)

abbrev add_target :
    Option GamePlayerInfo
    → ServerResponse
    → Option (List (ℕ × ServerResponse))
    → Option (List (ℕ × ServerResponse))
add_target none response ts = none
add_target (some p) response none = none
add_target (some p) response (some ts) = some ((p.addr, response) ∷ ts)

-- The address of each answer; `none` is an answer to a player that is not listed.
abbrev pub target_outputs :
    List GamePlayerInfo → List CachedPlayerOutput → Option (List (ℕ × ServerResponse))
target_outputs players [] = some []
target_outputs players (o ∷ os) =
    add_target (get_elem? players o.player_id) o.response (target_outputs players os)

pub data Processed : Type 0 where
  targets : List (ℕ × ServerResponse) → Processed
  invalid_target not_initialized : Processed
  refused : GameSyncError → Processed

abbrev targeted : Option (List (ℕ × ServerResponse)) → Processed
targeted none = invalid_target
targeted (some ts) = targets ts

abbrev after_input : GameInfo → Outcome (Reply × DelayedGameSync) → Outcome (Processed × GameInfo)
after_input g (ok r) =
    ok (targeted (target_outputs g.players r.0.0), record g { sync_manager = some r.1 })
after_input g (err e) = ok (refused e, g)
after_input g loops = loops

-- The closure that runs under the room's lock. A refusal comes before any change of the engine.
abbrev pub in_sync :
    GameInfo → ℕ → ClientInput → Option DelayedGameSync → Outcome (Processed × GameInfo)
in_sync g player_id input none = ok (not_initialized, g)
in_sync g player_id input (some d) = after_input g (Delayed.process_client_input d player_id input)

unfoldable pub process_input : GameInfo → ℕ → ClientInput → Outcome (Processed × GameInfo)
process_input g player_id input = in_sync g player_id input g.sync_manager

abbrev pub found_game : ℕ → Option GameInfo → Option (ℕ × GameInfo)
found_game game_id none = none
found_game game_id (some g) = some (game_id, g)

abbrev pub game_at : AppState → Option ℕ → Option (ℕ × GameInfo)
game_at s none = none
game_at s (some game_id) = found_game game_id (lookup game_id s.games)

abbrev pub game_of : AppState → Option ClientInfo → Option (ℕ × GameInfo)
game_of s none = none
game_of s (some c) = game_at s c.game_id

abbrev pub placed : ℕ × GameInfo → Option ℕ → Option ((ℕ × GameInfo) × ℕ)
placed g none = none
placed g (some i) = some (g, i)

abbrev pub slot_in : ℕ → Option (ℕ × GameInfo) → Option ((ℕ × GameInfo) × ℕ)
slot_in addr none = none
slot_in addr (some g) = placed g (position addr g.1.players)

-- The game of a client, with the room, and its slot there.
unfoldable pub resolve_in_game : AppState → ℕ → Option ((ℕ × GameInfo) × ℕ)
resolve_in_game s src = slot_in src (game_of s (get_client s src))

pub record Send : Type 0 where
  pub addr : ℕ
  pub message_type : ℕ
  pub payload : Bytes

pub data Handled : Type 0 where
  ignored : Handled
  done failed : List Send → Handled

abbrev pub sends : List (ℕ × ServerResponse) → List Send
sends ts =
    map
      (λ (t : ℕ × ServerResponse). record {
        addr = t.0;
        message_type = (response_message t.1).0;
        payload = (response_message t.1).1;
      })
      ts

-- "Server" and "Game Data Error! Game state will be inconsistent!"
abbrev pub cache_miss_chat : Bytes
cache_miss_chat = build_game_chat_packet (83 ∷ 101 ∷ 114 ∷ 118 ∷ 101 ∷ 114 ∷ []) (
    71 ∷ 97 ∷ 109 ∷ 101 ∷ 32 ∷ 68 ∷ 97 ∷ 116 ∷ 97 ∷ 32 ∷ 69 ∷ 114 ∷ 114 ∷ 111 ∷ 114 ∷ 33 ∷ 32 ∷ 71
    ∷ 97 ∷ 109 ∷ 101 ∷ 32 ∷ 115 ∷ 116 ∷ 97 ∷ 116 ∷ 101 ∷ 32 ∷ 119 ∷ 105 ∷ 108 ∷ 108 ∷ 32 ∷ 98 ∷ 101
    ∷ 32 ∷ 105 ∷ 110 ∷ 99 ∷ 111 ∷ 110 ∷ 115 ∷ 105 ∷ 115 ∷ 116 ∷ 101 ∷ 110 ∷ 116 ∷ 33 ∷ [])

-- The errors of a cache position that is not held are told to the client.
abbrev pub answer : ℕ → ClientInput → Processed → Handled
answer src input (targets ts) = done (sends ts)
answer src input invalid_target = failed []
answer src input not_initialized = failed []
answer src (ClientInput.game_data bytes) (refused e) = failed []
answer src (ClientInput.game_cache pos) (refused (cache_position_not_found i p)) =
    failed (record { addr = src; message_type = game_chat_type; payload = cache_miss_chat } ∷ [])
answer src (ClientInput.game_cache pos) (refused (invalid_player_id i n)) = failed []
answer src (ClientInput.game_cache pos) (refused (buffer_inconsistency m)) = failed []

abbrev pub stored : ℕ → ClientInput → AppState → ℕ → Processed × GameInfo → Handled × AppState
stored src input s game_id (p, g) =
    (answer src input p, record s { games = insert game_id g s.games })

abbrev pub in_room :
    AppState → ℕ → ClientInput → Option ((ℕ × GameInfo) × ℕ) → Outcome (Handled × AppState)
in_room s src input none = ok (ignored, s)
in_room s src input (some ((game_id, g), i)) =
    process_input g i input >>= λ r. ok (stored src input s game_id r)

abbrev pub with_data : AppState → ℕ → Option Bytes → Outcome (Handled × AppState)
with_data s src none = ok (ignored, s)
with_data s src (some game_data) =
    in_room s src (ClientInput.game_data game_data) (resolve_in_game s src)

unfoldable pub handle_game_data : AppState → ℕ → Bytes → Outcome (Handled × AppState)
unfolding resolve_in_game process_input
handle_game_data s src bytes = with_data s src (game_data_payload bytes)

abbrev pub with_position : AppState → ℕ → Option ℕ → Outcome (Handled × AppState)
with_position s src none = ok (ignored, s)
with_position s src (some pos) = in_room s src (ClientInput.game_cache pos) (resolve_in_game s src)

unfoldable pub handle_game_cache : AppState → ℕ → Bytes → Outcome (Handled × AppState)
unfolding resolve_in_game process_input
handle_game_cache s src bytes = with_position s src (game_cache_payload bytes)
