-- ===== src/Protocol.antt =====
-- src/kaillera/protocol.rs: the packets of the Kaillera protocol. A `u8`, `u16` or `u32` is a number
-- below its modulus.
pub mod Parse
pub mod RoundTrip
pub mod Redundancy
pub mod Sends
mod Tests
use mathlib.Core.List.{reverse}
use direlera_rs.Prelude.{
  ℕ, suc, ◌+◌, ◌*◌, ◌/◌, ◌%◌, ◌^◌, min, Option, none, some, List, [], ◌∷◌, ◌++◌, Bytes, length,
  drop, concat, leb, if◌then◌else◌,
}

pub record ParsedMessage : Type 0 where
  pub message_number : ℕ
  pub message_length : ℕ
  pub message_type : ℕ
  pub payload : Bytes

-- `to_le_bytes` of a `u16`, and the `u16` of its two bytes.
abbrev pub le16 : ℕ → Bytes
le16 n = n % 256 ∷ (n / 256) % 256 ∷ []

-- `put_u32_le`
abbrev pub le32 : ℕ → Bytes
le32 n = n % 256 ∷ (n / 256) % 256 ∷ (n / 65536) % 256 ∷ (n / 16777216) % 256 ∷ []

-- `data.len() as u16 + 1`, which wraps.
abbrev pub wire_length : Bytes → ℕ
wire_length payload = (length payload % 65536 + 1) % 65536

unfoldable pub make_packet : ℕ → ℕ → Bytes → Bytes
make_packet message_type seq payload =
    le16 seq ++ (le16 (wire_length payload) ++ (message_type ∷ payload))

pub record UdpPacketGenerator : Type 0 where
  pub recent_packets : List Bytes
  pub send_count : ℕ
  pub last_sent : Option Bytes

unfoldable pub new : UdpPacketGenerator
new = record { recent_packets = []; send_count = 0; last_sent = none }

abbrev pub max_recent_packets : ℕ
max_recent_packets = 3

-- The last packets, the oldest first, after a new one.
abbrev pub remember : List Bytes → Bytes → List Bytes
remember recent packet =
    (if leb max_recent_packets (length recent) then drop 1 recent else recent) ++ packet ∷ []

-- The count, then the packets with the newest first.
abbrev pub bundle : List Bytes → Bytes
bundle recent = (min max_recent_packets (length recent) % 256) ∷ concat (reverse recent)

unfoldable pub make_send_packet : UdpPacketGenerator → ℕ → Bytes → Bytes × UdpPacketGenerator
make_send_packet g message_type payload =
    let recent = remember g.recent_packets (make_packet message_type g.send_count payload) in
    (
      bundle recent,
      record {
        recent_packets = recent;
        send_count = (g.send_count + 1) % 65536;
        last_sent = some (bundle recent);
      },
    )
