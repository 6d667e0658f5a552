-- ===== src/Protocol/Redundancy.antt =====
-- What the packets of `UDPPacketGenerator` of src/kaillera/protocol.rs carry.
use mathlib.Core.List.{reverse}
use direlera_rs.Prelude.{
  ℕ, suc, ◌+◌, ◌%◌, ◌≤◌, ◌<◌, ◌≡◌, refl, some, List, [], ◌∷◌, ◌++◌, Bytes, arith, length, drop, leb,
  if◌then◌else◌, map, concat, All, append-nil, ap, sym, ◌∙◌,
}
use direlera_rs.Protocol.{ParsedMessage, UdpPacketGenerator, make_send_packet, remember, bundle}
use direlera_rs.Protocol.Parse.{ok, parse_messages, parse_packet}
use direlera_rs.Protocol.RoundTrip.{IsMessage, encode, parse_messages-encode}

-- The message that `make_send_packet` makes.
abbrev pub message : ℕ → ℕ → Bytes → ParsedMessage
message number message_type payload = record {
  message_number = number;
  message_length = length payload + 1;
  message_type = message_type;
  payload = payload;
}

-- `remember` for messages in place of packets.
abbrev pub remember_message : List ParsedMessage → ParsedMessage → List ParsedMessage
remember_message ms m = (if leb 3 (length ms) then drop 1 ms else ms) ++ m ∷ []

-- The generator holds the packets of the messages `ms`.
pub record Tracks (g : UdpPacketGenerator) (ms : List ParsedMessage) : Type 0 where
  pub packets : g.recent_packets ≡ map encode ms
  pub messages : All IsMessage ms
  pub few : length ms ≤ 3
  pub count : g.send_count < 65536

length_of_map : (ms : List ParsedMessage) → length (map encode ms) ≡ length ms
length_of_map [] = refl
length_of_map (m ∷ ms) = ap suc (length_of_map ms)

encode-remember :
    (ms : List ParsedMessage) (m : ParsedMessage)
    → length ms ≤ 3
    → remember (map encode ms) (encode m) ≡ map encode (remember_message ms m)
encode-remember [] m h = refl
encode-remember (a ∷ []) m h = refl
encode-remember (a ∷ b ∷ []) m h = refl
encode-remember (a ∷ b ∷ c ∷ []) m h = refl
encode-remember (a ∷ b ∷ c ∷ d ∷ ms) m h = absurd (omega arith)

remember-messages :
    (ms : List ParsedMessage) (m : ParsedMessage)
    → All IsMessage ms
    → IsMessage m
    → length ms ≤ 3
    → All IsMessage (remember_message ms m)
      × (length (remember_message ms m) ≤ 3)
      × (0 < length (remember_message ms m))
remember-messages [] m v w h = ((w, tt), omega arith, omega arith)
remember-messages (a ∷ []) m v w h = ((v.0, (w, tt)), omega arith, omega arith)
remember-messages (a ∷ b ∷ []) m v w h = ((v.0, (v.1.0, (w, tt))), omega arith, omega arith)
remember-messages (a ∷ b ∷ c ∷ []) m v w h = ((v.1.0, (v.1.1.0, (w, tt))), omega arith, omega arith)
remember-messages (a ∷ b ∷ c ∷ d ∷ ms) m v w h = absurd (omega arith)

newest_first :
    (ms : List ParsedMessage)
    → All IsMessage ms
    → parse_messages (length ms) 0 (concat (map encode ms)) ≡ ok ms
newest_first ms v =
    ap (parse_messages (length ms) 0) (sym (append-nil (concat (map encode ms))))
    ∙ parse_messages-encode 0 ms [] v

-- A bundle parses to its messages, the newest first.
parse_packet-bundle :
    (ms : List ParsedMessage)
    → All IsMessage ms
    → length ms ≤ 3
    → 0 < length ms
    → parse_packet (bundle (map encode ms)) ≡ ok (reverse ms)
unfolding parse_packet
parse_packet-bundle [] v h k = absurd (omega arith)
parse_packet-bundle (a ∷ []) v h k = newest_first (a ∷ []) v
parse_packet-bundle (a ∷ b ∷ []) v h k = newest_first (b ∷ a ∷ []) (v.1.0, (v.0, tt))
parse_packet-bundle (a ∷ b ∷ c ∷ []) v h k =
    newest_first (c ∷ b ∷ a ∷ []) (v.1.1.0, (v.1.0, (v.0, tt)))
parse_packet-bundle (a ∷ b ∷ c ∷ d ∷ ms) v h k = absurd (omega arith)

-- A payload of at most 65534 bytes makes a packet that parses to the new message and the two
-- before it, newest first; the generator then holds these, and keeps the packet for a resend.
pub make_send_packet-parses :
    (g : UdpPacketGenerator) (ms : List ParsedMessage) (message_type : ℕ) (payload : Bytes)
    → Tracks g ms
    → length payload < 65535
    → let r = make_send_packet g message_type payload in
      let ms' = remember_message ms (message g.send_count message_type payload) in
      (parse_packet r.0 ≡ ok (reverse ms'))
      × Tracks r.1 ms'
      × (r.1.send_count ≡ (g.send_count + 1) % 65536)
      × (r.1.last_sent ≡ some r.0)
unfolding make_send_packet
make_send_packet-parses g ms t payload v h =
    let m = message g.send_count t payload in
    let w : IsMessage m = record { number = v.count; fits = h; size = refl } in
    let (all, few, some_there) = remember-messages ms m v.messages w v.few in
    let e : remember g.recent_packets (encode m) ≡ map encode (remember_message ms m) =
      rw v.packets (encode-remember ms m v.few) in
    (
      rw e (parse_packet-bundle (remember_message ms m) all few some_there),
      record { packets = e; messages = all; few = few; count = omega arith },
      refl,
      refl,
    )
