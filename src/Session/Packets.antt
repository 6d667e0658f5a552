-- ===== src/Session/Packets.antt =====
-- What one packet, and a sequence of packets, does in `process_packet_in_session` of src/main.rs.
use direlera_rs.Prelude.{
  ℕ, zero, suc, some, get_elem?, ap, sym, ◌∙◌, ◌+◌, ◌-◌, ◌%◌, ◌≤◌, ◌<◌, ◌≡◌, refl, true, none, List,
  [], ◌∷◌, ◌++◌, Bytes, length, ltb, ◌==◌, nat_eq, arith, Bool-cases, Option-cases, inl, inr, ◌⊎◌,
  ==_iff, length-append,
}
use direlera_rs.Dict.{lookup, insert, lookup-insert, length-insert}
use direlera_rs.Protocol.{ParsedMessage}
use direlera_rs.Protocol.Parse.{Parsed, ok, err, parse_packet}
use direlera_rs.Session.{
  SessionState, is_future_message, advance, drain, has_room, park, process_message,
  process_messages, restarts, restarted, process_parsed, process_packet,
}
use direlera_rs.Session.Order.{
  Keyed-insert, IsOrdered, IsSettled, numbers, count_from, count_from-append, numbers-append,
  InOrder, none-InOrder, advance-IsOrdered, cons-InOrder, drain-InOrder,
}

-- A message is kept only where it is ahead, none waits under its number, and there is room.
pub park-cases :
    (s : SessionState) (m : ParsedMessage)
    → (park s m ≡ s)
      ⊎ ((is_future_message m.message_number s.packet_counter ≡ true)
          × (lookup m.message_number s.pending ≡ none)
          × (length s.pending < 256)
          × (park s m ≡ record s { pending = insert m.message_number m s.pending }))
unfolding park
park-cases s m = elim (Bool-cases (is_future_message m.message_number s.packet_counter)) [
  | inr past ↦ inl (rw (past, park) refl)
  | inl ahead ↦ elim (Bool-cases (has_room s)) [
    | inr full ↦ inl (rw (ahead, full, park) refl)
    | inl room ↦ elim (Option-cases (lookup m.message_number s.pending)) [
      | inl free ↦ inr (
        ahead,
        free,
        (let r : ltb (length s.pending) 256 ≡ true = room in ground arith),
        rw (ahead, room, free, park) refl,
      )
      | inr (old, taken) ↦ inl (rw (ahead, room, taken, park) refl)
    ]
  ]
]

ahead-IsSettled :
    (s : SessionState) (m : ParsedMessage)
    → is_future_message m.message_number s.packet_counter ≡ true
    → IsSettled s
    → IsSettled (record s { pending = insert m.message_number m s.pending })
unfolding is_future_message
ahead-IsSettled s m h e =
    ground (arith, lookup-insert m.message_number s.packet_counter m s.pending)

park-InOrder : (s : SessionState) (m : ParsedMessage) → IsOrdered s → InOrder s ([], park s m)
park-InOrder s m v = elim (park-cases s m) [
  | inl e ↦ rw e (none-InOrder s s refl v (λ x. x))
  | inr (ahead, free, room, e) ↦ rw e (
      none-InOrder s _ refl
        record {
          keyed = Keyed-insert m s.pending v.keyed;
          small = v.small;
          room = omega (arith, room, length-insert m.message_number m s.pending);
        }
        (λ x. ahead-IsSettled s m ahead x))
]

process_message-InOrder :
    (s : SessionState) (m : ParsedMessage) → IsOrdered s → InOrder s (process_message s m)
unfolding process_message
process_message-InOrder s m v = elim (Bool-cases (m.message_number == s.packet_counter)) [
  | inl due ↦
      let (k, z) =
        drain-InOrder (length s.pending) (advance s) (advance-IsOrdered s v) (omega arith) in
      rw due (
        cons-InOrder s (advance s) m (drain (length s.pending) (advance s))
          ((==_iff m.message_number s.packet_counter).0 due) refl k z)
  | inr other ↦ rw other (park-InOrder s m v)
]

append-InOrder :
    (s : SessionState) (a r : List ParsedMessage × SessionState)
    → s.packet_counter < 65536
    → InOrder s a
    → InOrder a.1 r
    → InOrder s (a.0 ++ r.0, r.1)
append-InOrder s a r h v w = record {
  consecutive =
      rw (numbers-append a.0 r.0, length-append a.0 r.0, v.consecutive, w.consecutive, v.counter)
        (count_from-append s.packet_counter (length a.0) (length r.0) h);
  counter = omega (arith, v.counter, w.counter, length-append a.0 r.0);
  ordered = w.ordered;
  settled = λ x. w.settled (v.settled x);
}

process_messages-InOrder :
    (s : SessionState) (ms : List ParsedMessage) → IsOrdered s → InOrder s (process_messages s ms)
unfolding process_messages
process_messages-InOrder s [] v = none-InOrder s s refl v (λ x. x)
process_messages-InOrder s (m ∷ ms) v =
    let k = process_message-InOrder s m v in
    append-InOrder s (process_message s m) (process_messages (process_message s m).1 ms) v.small k
      (process_messages-InOrder (process_message s m).1 ms k.ordered)

restarts-zero :
    (s : SessionState) (ms : List ParsedMessage) → restarts s ms ≡ true → s.packet_counter ≡ 0
restarts-zero s [] h = cc
restarts-zero s (m ∷ []) h = ground arith
restarts-zero s (m ∷ n ∷ ms) h = cc

restarted-InOrder :
    (s : SessionState) (ms : List ParsedMessage) → IsOrdered s → InOrder s ([], restarted s ms)
unfolding lookup
restarted-InOrder s ms v = elim (Bool-cases (restarts s ms)) [
  | inr same ↦ rw same (none-InOrder s s refl v (λ x. x))
  | inl restart ↦ rw restart (
      none-InOrder s _ (restarts-zero s ms restart)
        record { keyed = λ k m e. cc; small = omega arith; room = omega arith } (λ x. refl))
]

packet-InOrder :
    (s : SessionState) (bytes : Bytes) → IsOrdered s → InOrder s (process_packet s bytes)
unfolding process_packet
packet-InOrder s bytes v = go (parse_packet bytes)
  where
    go : (p : Parsed (List ParsedMessage)) → InOrder s (process_parsed s p)
    go (err e) = none-InOrder s s refl v (λ x. x)
    go (ok ms) =
        let k = restarted-InOrder s ms v in
        append-InOrder s ([], restarted s ms) (process_messages (restarted s ms) ms) v.small k
          (process_messages-InOrder (restarted s ms) ms k.ordered)

-- In a session where at most 256 messages wait, each under its own number, and the expected number is not
-- among them, a packet hands over messages with the numbers from the counter on, modulo 65536, none
-- skipped and none twice; the counter moves past them; and then again at most 256 messages wait, each
-- under its own number, and the expected number is not among them.
pub process_packet-InOrder :
    (s : SessionState) (bytes : Bytes)
    → IsOrdered s
    → IsSettled s
    → InOrder s (process_packet s bytes) × IsSettled (process_packet s bytes).1
process_packet-InOrder s bytes v e = let k = packet-InOrder s bytes v in (k, k.settled e)

abbrev pub start : SessionState
start = record { packet_counter = 0; pending = [] }

start-IsOrdered : IsOrdered start
unfolding lookup
start-IsOrdered = record { keyed = λ j m e. cc; small = omega arith; room = omega arith }

unfoldable pub process_packets : SessionState → List Bytes → List ParsedMessage × SessionState
unfolding process_packet
process_packets s [] = ([], s)
process_packets s (p ∷ ps) =
    let (xs, s') = process_packet s p in let (ys, s'') = process_packets s' ps in (xs ++ ys, s'')

process_packets-InOrder :
    (s : SessionState) (ps : List Bytes) → IsOrdered s → InOrder s (process_packets s ps)
unfolding process_packets
process_packets-InOrder s [] v = none-InOrder s s refl v (λ x. x)
process_packets-InOrder s (p ∷ ps) v =
    let k = packet-InOrder s p v in
    append-InOrder s (process_packet s p) (process_packets (process_packet s p).1 ps) v.small k
      (process_packets-InOrder (process_packet s p).1 ps k.ordered)

-- Whatever packets a session receives, the numbers of the messages it hands over are 0, 1, 2, ...
-- modulo 65536, in this order; never more than 256 messages wait, and the next one is not among them.
pub process_packets-numbers :
    (ps : List Bytes)
    → (numbers (process_packets start ps).0 ≡ count_from 0 (length (process_packets start ps).0))
      × (length (process_packets start ps).1.pending ≤ 256)
      × IsSettled (process_packets start ps).1
unfolding lookup
process_packets-numbers ps =
    let k = process_packets-InOrder start ps start-IsOrdered in
    (k.consecutive, k.ordered.room, k.settled refl)

get_elem?-count_from :
    (k n i : ℕ) → k < 65536 → i < n → get_elem? (count_from k n) i ≡ some ((k + i) % 65536)
get_elem?-count_from k zero i h l = absurd (omega arith)
get_elem?-count_from k (suc n) zero h l = ap some (omega arith)
get_elem?-count_from k (suc n) (suc i) h l =
    get_elem?-count_from ((k + 1) % 65536) n i (omega arith) (omega arith) ∙ ap some (omega arith)

-- Only a number fewer than 32767 ahead of the expected one, or the expected one, has an effect.
far-ignored :
    (s : SessionState) (m : ParsedMessage)
    → 32767 ≤ (m.message_number + 65536 - s.packet_counter) % 65536
    → s.packet_counter < 65536
    → process_message s m ≡ ([], s)
unfolding process_message park is_future_message
far-ignored s m h k = ground arith

-- After any packets, a message with the number of one that was handed over already changes nothing and
-- hands over nothing, where that one is among the last 32769 that were handed over.
pub stale_ignored :
    (ps : List Bytes) (i : ℕ) (m : ParsedMessage)
    → let r = process_packets start ps in
      i < length r.0
      → length r.0 ≤ i + 32769
      → get_elem? (numbers r.0) i ≡ some m.message_number
      → process_message r.1 m ≡ ([], r.1)
stale_ignored ps i m h k e =
    let r = process_packets start ps in
    let v = process_packets-InOrder start ps start-IsOrdered in
    let z : some ((0 + i) % 65536) ≡ some m.message_number =
      sym (get_elem?-count_from 0 (length r.0) i (omega arith) h)
      ∙ ap (λ ns. get_elem? ns i) (sym v.consecutive)
      ∙ e in
    let n : (0 + i) % 65536 ≡ m.message_number = cc in
    let c = v.counter in far-ignored r.1 m (omega arith) (omega arith)
