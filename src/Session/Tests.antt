-- ===== src/Session/Tests.antt =====
-- `process_packet_in_session` of src/main.rs on concrete inputs.
use direlera_rs.Prelude.{
  some, get_elem?, ◌≤◌, ◌≡◌, refl, List, [], ◌∷◌, Bytes, arith, length, nat_eq,
}
use direlera_rs.Dict.{lookup}
use direlera_rs.Protocol.Redundancy.{message}
use direlera_rs.Protocol.Parse.{parse_packet, parse_message}
use direlera_rs.Session.{SessionState, process_message, process_packet, drain}
use direlera_rs.Session.Order.{IsOrdered, IsSettled, InOrder, numbers, count_from}
use direlera_rs.Session.Packets.{
  start, process_packet-InOrder, process_packets, process_packets-numbers, stale_ignored,
}

-- A packet of message 1, then one of message 0 with payload 9.
abbrev ahead_packet : Bytes
ahead_packet = 1 ∷ 1 ∷ 0 ∷ 1 ∷ 0 ∷ 5 ∷ []

abbrev due_packet : Bytes
due_packet = 1 ∷ 0 ∷ 0 ∷ 2 ∷ 0 ∷ 5 ∷ 9 ∷ []

-- Message 1 waits for message 0.
abbrev waiting : SessionState
waiting = record { packet_counter = 0; pending = (1, message 1 5 []) ∷ [] }

waiting-then-due :
    process_message waiting (message 0 5 (9 ∷ []))
    ≡ (message 0 5 (9 ∷ []) ∷ message 1 5 [] ∷ [], record { packet_counter = 2; pending = [] })
unfolding process_message drain
waiting-then-due = refl

waiting-IsOrdered : IsOrdered waiting
unfolding lookup
waiting-IsOrdered = record {
  keyed = λ j m e. ground arith;
  small = omega arith;
  room = omega arith;
}

waiting-IsSettled : IsSettled waiting
unfolding lookup
waiting-IsSettled = refl

process_packet-InOrder_example :
    InOrder waiting (process_packet waiting due_packet)
    × IsSettled (process_packet waiting due_packet).1
process_packet-InOrder_example =
    process_packet-InOrder waiting due_packet waiting-IsOrdered waiting-IsSettled

abbrev received : List Bytes
received = ahead_packet ∷ due_packet ∷ ahead_packet ∷ []

process_packets-numbers_example :
    (numbers (process_packets start received).0
      ≡ count_from 0 (length (process_packets start received).0))
    × (length (process_packets start received).1.pending ≤ 256)
    × IsSettled (process_packets start received).1
process_packets-numbers_example = process_packets-numbers received

two_received : length (process_packets start received).0 ≡ 2
unfolding process_packets parse_packet parse_message
two_received = refl

first_is_0 : get_elem? (numbers (process_packets start received).0) 0 ≡ some 0
unfolding process_packets parse_packet parse_message
first_is_0 = refl

-- Message 0 comes again.
stale_ignored_example :
    process_message (process_packets start received).1 (message 0 5 [])
    ≡ ([], (process_packets start received).1)
stale_ignored_example =
    stale_ignored received 0 (message 0 5 []) (omega (arith, two_received))
      (omega (arith, two_received)) first_is_0
