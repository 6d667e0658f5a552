-- ===== src/Lib.antt =====
-- direlera-rs is a Kaillera server: emulators of players in different places run the same game in
-- lockstep, and the server gathers their inputs, puts them in one order and sends them to all. This
-- library models its core. Paths are from the repository's root.
--
-- How the parts work together. A packet from a client goes to its session, which parses it and puts
-- its messages in order (src/main.rs, src/packet_util.rs). A message with game data or a cache
-- position goes to the game's DelayedGameSync, which answers with zero frames while the game starts
-- and then hands the input to CachedGameSync; this one resolves cache positions, hands the bytes to
-- SimplestGameSync and turns the raw outputs into game data or cache positions for each client
-- (src/simplest_game_sync.rs). Any other message goes to its handler in src/handlers, which changes the
-- clients and the rooms of the shared state and tells the lobby or the room of it. Each answer is sent
-- in a packet that repeats the two messages before it (src/kaillera/protocol.rs).
--
-- Files:
--   Prelude, Prelude/*: native numbers, Boolean tests, lists measured by native numbers, and the
--     interface Key of types with a Boolean equality, which the keys of maps have.
--   Dict: HashMap and BTreeMap as association lists.
--   Sync/Cache: InputCache. `empty` is InputCache::new; the other operations keep their names. usize
--     arithmetic is modulo 2^64. Offsets, Invariant, Find and
--     Pushes hold its lemmas.
--   Sync/Outcome: GameSyncError and the result of a call, `loops` where the code would not return.
--   Sync/Core: SimplestGameSync. Each nested loop of drain_ready_inputs is a function: `drain` for the
--     outer loop, `flush_all` and `flush` for the inner ones. Accept, Flush, FlushAll, Rounds, Stream,
--     Total and History hold its lemmas, from one chunk to a whole history of calls.
--   Sync/Cached: CachedGameSync; `resolve` and `convert` are the two halves of process_client_input.
--     Decode is the client's side, as the tests of the source have it.
--   Sync/Delayed: DelayedGameSync; `warm_up`, `catch_up` and `forward` are its three branches.
--   Protocol: make_packet and UDPPacketGenerator; Parse is parse_packet; RoundTrip, Redundancy and Sends
--     hold the lemmas.
--   Packet: the builders of payloads in src/packet_util.rs, and read_string_bytes of src/handlers/util.rs.
--     Format is a reader for the formats that the comments of the code give; RoundTrip compares the two.
--   Room, Room/Live: GameInfo of src/state.rs, and what the handlers of src/handlers/game.rs do to it
--     under its lock: `quit_room`, `kick_room`, `join_room`, `start_room` and `execute_drop_game`, each named for its
--     handler. Players, Owner, Invariant, Leaving, Dropping and Starting hold the lemmas.
--   State: AppState and ClientInfo of src/state.rs; operations keep their names. Lookup, Linked and
--     Clients hold the lemmas.
--   Play: handle_game_data and handle_game_cache of src/handlers/sync.rs; `process_input` is their closure
--     under the room's lock. Payload and Answers hold the lemmas.
--   Session: process_packet_in_session; the two variables it is passed are the SessionState. Order and
--     Packets hold the lemmas.
--   Server: what the handlers do besides: `Exec` is a change of the state that may fail, with the
--     datagrams that it puts in the channel `tx` and the sessions that it asks to close. MessageType holds
--     the constants of src/kaillera/message_types.rs; Status the payloads of src/handlers/util.rs, and Send
--     its send_packet and broadcasts; Leave, Lobby, Kick and Start the handlers of src/handlers/game.rs
--     around a room's lock, Start also the ready signal; Input the sends of src/handlers/sync.rs; User and
--     Chat src/handlers/user.rs and chat.rs, User also the end of a session; Sessions the session, cleanup
--     and login resend tasks of src/session_manager.rs, Endings its lemmas; Ack and Dispatch
--     src/handlers/mod.rs, Dispatch also process_packet_in_session of src/main.rs. Triple and Known are a
--     Hoare logic of `Exec`; Quiet, Rooms, Locked, Leaving, Dropping, Quitting, Inputs, Kicked, Kicking,
--     Users, Lobbies, Joining and Starts have its rules for each handler, Messages for all of them;
--     Mail says what an action sends; Targets, Welcome, Handshake, Relogin, Gone, Unready, Owners, Acks and
--     Alone hold the lemmas on who is told, on logins, on errors and on guards.
--   Config: expand_config_vars_with of src/main.rs. Expand and Template hold the lemmas.
--   The Tests modules apply the theorems to concrete inputs.
--
-- Conventions. A u8, u16 or usize is a native number, with the wrap-around written out where the
-- source can reach it: the indices of the cache, message numbers and lengths. Counts of queued
-- inputs, frames and delays are not wrapped. In make_packet the length wraps as in a release build.
-- Vectors of players are read with a default that a valid state never needs.
--
-- Fuel. `expand` has one round for each byte of the text, `flush` one more than there are entries in the
-- buffer, `drain` one more than there are queued inputs, the `drain` of a session as many as there are
-- waiting messages, and the split of an input as many as it has bytes. Each is enough, since a round takes
-- an entry away; a result of `loops` stands for a loop that runs for ever, as with a delay of 0.
--
-- Room. An address is a number. The delays that the code computes from pings in floating point are an
-- argument of `start_room`. A refusal of the engine in a quit or kick is ignored, as in the code.
--
-- Server. Handlers run one after the other, as the messages of one session do; the interleavings of
-- sessions at the awaits inside a handler are not modelled. What a handler takes from outside is in
-- `Env`, one reading for each call: clocks, a fresh UUID, configuration, the two results in floating
-- point, and the lines of the welcome. Channels stay open, and the walk over a hash map has the order of
-- its entries. A panic ends the task and is a result of its own; what was done before an error or a panic
-- stays done.
--
-- Not modelled: sockets, tasks, timers and the stall resend task of src/session_manager.rs; logs,
-- metrics and the fields that feed them; the TOML configuration, text encodings and the master list; the
-- unused PlayerInput and PlayerOutputState.
pub mod Prelude
pub mod Dict
pub mod Sync
pub mod Protocol
pub mod Packet
pub mod Session
pub mod Room
pub mod State
pub mod Play
pub mod Server
pub mod Config
