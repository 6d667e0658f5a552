-- ===== src/Session.antt =====
-- `process_packet_in_session` of src/main.rs: the messages of a session, put in order. The call of
-- `handle_message` is the message that is handed over; its effects do not reach this state.
pub mod Order
pub mod Packets
mod Tests
use direlera_rs.Prelude.{
  ℕ, zero, suc, ◌+◌, ◌-◌, ◌%◌, Bool, true, false, not, ◌&&◌, Option, none, some, List, [], ◌∷◌,
  ◌++◌, Bytes, length, ltb, ◌==◌, if◌then◌else◌, nat_eq,
}
use direlera_rs.Dict.{Dict, lookup, insert, remove}
use direlera_rs.Protocol.{ParsedMessage}
use direlera_rs.Protocol.Parse.{Parsed, ok, err, parse_packet}

abbrev pub max_pending_session_messages : ℕ
max_pending_session_messages = 256

-- `packet_counter` and `pending_messages`.
pub record SessionState : Type 0 where
  pub packet_counter : ℕ
  pub pending : Dict ℕ ParsedMessage

-- `wrapping_add(1)` and `wrapping_sub` of `u16`.
abbrev pub next : ℕ → ℕ
next n = (n + 1) % 65536

abbrev pub distance : ℕ → ℕ → ℕ
distance message_number expected = (message_number + 65536 - expected) % 65536

unfoldable pub is_future_message : ℕ → ℕ → Bool
is_future_message message_number expected =
    not (distance message_number expected == 0) && ltb (distance message_number expected) 32767

-- The counter moves on before the message is handled.
abbrev pub advance : SessionState → SessionState
advance s = record s { packet_counter = next s.packet_counter }

-- `while let Some(message) = pending_messages.remove(packet_counter)`, with the messages handed
-- over. Each round takes an entry away, so as many rounds as there are entries are enough.
unfoldable pub drain : ℕ → SessionState → List ParsedMessage × SessionState
unfolding lookup remove
drain zero s = ([], s)
drain (suc f) s = elim (lookup s.packet_counter s.pending) [
  | none ↦ ([], s)
  | some m ↦
      let (ms, s') = drain f (advance (record s { pending = remove s.packet_counter s.pending })) in
      (m ∷ ms, s')
]

abbrev pub has_room : SessionState → Bool
has_room s = ltb (length s.pending) max_pending_session_messages

-- `entry(..).or_insert(..)`
abbrev pub or_insert :
    ParsedMessage → Option ParsedMessage → Dict ℕ ParsedMessage → Dict ℕ ParsedMessage
or_insert m (some old) pending = pending
or_insert m none pending = insert m.message_number m pending

unfoldable pub park : SessionState → ParsedMessage → SessionState
unfolding lookup insert is_future_message
park s m =
    if is_future_message m.message_number s.packet_counter && has_room s
    then record s { pending = or_insert m (lookup m.message_number s.pending) s.pending }
    else s

-- One message: it is handed over with those that waited for it, kept for later, or ignored.
unfoldable pub process_message : SessionState → ParsedMessage → List ParsedMessage × SessionState
unfolding drain park
process_message s m =
    if m.message_number == s.packet_counter
    then (let (ms, s') = drain (length s.pending) (advance s) in (m ∷ ms, s'))
    else ([], park s m)

unfoldable pub process_messages :
    SessionState → List ParsedMessage → List ParsedMessage × SessionState
unfolding process_message
process_messages s [] = ([], s)
process_messages s (m ∷ ms) =
    let (xs, s') = process_message s m in let (ys, s'') = process_messages s' ms in (xs ++ ys, s'')

-- A lone message number 0 before any message was handled starts a new sequence.
abbrev pub restarts : SessionState → List ParsedMessage → Bool
restarts s (m ∷ []) = m.message_number == 0 && s.packet_counter == 0
restarts s [] = false
restarts s (m ∷ n ∷ ms) = false

abbrev pub restarted : SessionState → List ParsedMessage → SessionState
restarted s ms = if restarts s ms then record { packet_counter = 0; pending = [] } else s

abbrev pub process_parsed :
    SessionState → Parsed (List ParsedMessage) → List ParsedMessage × SessionState
process_parsed s (ok ms) = process_messages (restarted s ms) ms
process_parsed s (err e) = ([], s)

-- A packet that does not parse is ignored.
unfoldable pub process_packet : SessionState → Bytes → List ParsedMessage × SessionState
unfolding process_messages
process_packet s bytes = process_parsed s (parse_packet bytes)
