-- ===== src/Packet/RoundTrip.antt =====
-- The builders of src/packet_util.rs against the formats that the comments of the code give.
use direlera_rs.Prelude.{
  ℕ, ◌+◌, ◌*◌, ◌<◌, ◌≡◌, refl, some, ap, ◌/◌, ◌%◌, List, [], ◌∷◌, ◌++◌, Bytes, arith, length,
  append_assoc,
}
use direlera_rs.Packet.{
  read_string_bytes, build_start_game_packet, build_user_quit_packet,
  build_connection_rejected_packet, build_quit_game_packet, build_game_chat_packet,
  build_global_chat_packet, build_close_game_packet, build_drop_game_packet, build_game_data_packet,
  build_game_cache_packet, build_server_to_client_ack_packet, build_ready_to_play_packet,
}
use direlera_rs.Protocol.{le16, le32}
use direlera_rs.Packet.Format.{Kind, byte, word, long, Field, read_field, read_fields, IsText}

-- A text that was put with its zero is read back, with what follows it.
pub read_string_bytes-put :
    (s rest : Bytes) → IsText s → read_string_bytes (s ++ 0 ∷ rest) ≡ (s, rest)
unfolding read_string_bytes
read_string_bytes-put [] rest h = refl
read_string_bytes-put (b ∷ s) rest h =
    let z = h.0 in ground (arith, read_string_bytes-put s rest h.1)

next_field :
    (k : Kind) (ks : List Kind) (buf rest : Bytes) (x : Field) (fs : List Field) (left : Bytes)
    → read_field k buf ≡ some (x, rest)
    → read_fields ks rest ≡ some (fs, left)
    → read_fields (k ∷ ks) buf ≡ some (x ∷ fs, left)
unfolding read_fields
next_field k ks buf rest x fs left e f = rw (e, read_fields) (rw f refl)

text_field :
    (s rest : Bytes) → IsText s → read_field Kind.text (s ++ 0 ∷ rest) ≡ some (Field.text s, rest)
text_field s rest h = ap (λ r. some (Field.text r.0, r.1)) (read_string_bytes-put s rest h)

byte_field : (n : ℕ) (rest : Bytes) → read_field byte (n ∷ rest) ≡ some (Field.number n, rest)
byte_field n rest = ground arith

word_field :
    (n : ℕ) (rest : Bytes)
    → n < 65536
    → read_field word (le16 n ++ rest) ≡ some (Field.number n, rest)
word_field n rest h =
    let e : n % 256 + 256 * ((n / 256) % 256) ≡ n = omega arith in rw e (ground arith)

long_field :
    (n : ℕ) (rest : Bytes)
    → n < 4294967296
    → read_field long (le32 n ++ rest) ≡ some (Field.number n, rest)
long_field n rest h =
    let e : n % 256
          + 256 * ((n / 256) % 256)
          + 65536 * ((n / 65536) % 256)
          + 16777216 * ((n / 16777216) % 256)
        ≡ n =
      omega arith in
    rw e (ground arith)

module _ (ks : List Kind) (rest : Bytes) {fs : List Field} {left : Bytes}
    (e : read_fields ks rest ≡ some (fs, left)) where
  text_then :
      (s : Bytes)
      → IsText s
      → read_fields (Kind.text ∷ ks) (s ++ 0 ∷ rest) ≡ some (Field.text s ∷ fs, left)
  text_then s h =
      next_field Kind.text ks (s ++ 0 ∷ rest) rest (Field.text s) fs left (text_field s rest h) e

  byte_then : (n : ℕ) → read_fields (byte ∷ ks) (n ∷ rest) ≡ some (Field.number n ∷ fs, left)
  byte_then n = next_field byte ks (n ∷ rest) rest (Field.number n) fs left (byte_field n rest) e

  word_then :
      (n : ℕ)
      → n < 65536
      → read_fields (word ∷ ks) (le16 n ++ rest) ≡ some (Field.number n ∷ fs, left)
  word_then n h =
      next_field word ks (le16 n ++ rest) rest (Field.number n) fs left (word_field n rest h) e

  long_then :
      (n : ℕ)
      → n < 4294967296
      → read_fields (long ∷ ks) (le32 n ++ rest) ≡ some (Field.number n ∷ fs, left)
  long_then n h =
      next_field long ks (le32 n ++ rest) rest (Field.number n) fs left (long_field n rest h) e

no_fields : (left : Bytes) → read_fields [] left ≡ some ([], left)
unfolding read_fields
no_fields left = refl

-- A name, a number of two bytes and a text, as `put` writes them.
named-read :
    (username : Bytes) (n : ℕ) (message : Bytes)
    → IsText username
    → n < 65536
    → IsText message
    → read_fields
        (Kind.text ∷ word ∷ Kind.text ∷ [])
        ((((username ++ 0 ∷ []) ++ le16 n) ++ message) ++ 0 ∷ [])
      ≡ some (Field.text username ∷ Field.number n ∷ Field.text message ∷ [], [])
named-read username n message h k l =
    simp append_assoc
      (text_then _ _ (word_then _ _ (text_then _ _ (no_fields []) message l) n k) username h)

chat-read :
    (username message : Bytes)
    → IsText username
    → IsText message
    → read_fields (Kind.text ∷ Kind.text ∷ []) (((username ++ 0 ∷ []) ++ message) ++ 0 ∷ [])
      ≡ some (Field.text username ∷ Field.text message ∷ [], [])
chat-read username message h l =
    simp append_assoc (text_then _ _ (text_then _ _ (no_fields []) message l) username h)

-- The payloads about a user decode, by the formats that the comments of the code give, to the name, the
-- number (a slot, of one byte, for a drop) and the text that they were built from, and nothing is left
-- over, where the texts have no zero byte and the number is below 65536.
pub user_packets-read :
    (username : Bytes) (n slot : ℕ) (message : Bytes)
    → IsText username
    → n < 65536
    → IsText message
    → (read_fields (Kind.text ∷ word ∷ Kind.text ∷ []) (build_user_quit_packet username n message)
        ≡ some (Field.text username ∷ Field.number n ∷ Field.text message ∷ [], []))
      × (read_fields
            (Kind.text ∷ word ∷ Kind.text ∷ [])
            (build_connection_rejected_packet username n message)
          ≡ some (Field.text username ∷ Field.number n ∷ Field.text message ∷ [], []))
      × (read_fields (Kind.text ∷ word ∷ []) (build_quit_game_packet username n)
          ≡ some (Field.text username ∷ Field.number n ∷ [], []))
      × (read_fields (Kind.text ∷ byte ∷ []) (build_drop_game_packet username slot)
          ≡ some (Field.text username ∷ Field.number slot ∷ [], []))
      × (read_fields (Kind.text ∷ Kind.text ∷ []) (build_game_chat_packet username message)
          ≡ some (Field.text username ∷ Field.text message ∷ [], []))
      × (read_fields (Kind.text ∷ Kind.text ∷ []) (build_global_chat_packet username message)
          ≡ some (Field.text username ∷ Field.text message ∷ [], []))
unfolding build_user_quit_packet build_connection_rejected_packet build_quit_game_packet
    build_drop_game_packet build_game_chat_packet build_global_chat_packet
user_packets-read username n slot message h k l = (
  named-read username n message h k l,
  named-read username n message h k l,
  simp append_assoc (text_then _ _ (word_then _ _ (no_fields []) n k) username h),
  simp append_assoc (text_then _ _ (byte_then _ _ (no_fields []) slot) username h),
  chat-read username message h l,
  chat-read username message h l,
)

-- The payloads of a running game decode, by the formats that the comments of the code give, to what they
-- were built from; behind the length of game data stands the game data itself. The frame delay and that length are
-- below 65536, and the game's id is below 2^32.
pub game_packets-read :
    (frame_delay player_number total_players game_id position : ℕ) (game_data : Bytes)
    → frame_delay < 65536
    → game_id < 4294967296
    → length game_data < 65536
    → (read_fields
          (Kind.text ∷ word ∷ byte ∷ byte ∷ [])
          (build_start_game_packet frame_delay player_number total_players)
        ≡ some (
          Field.text []
              ∷ Field.number frame_delay
              ∷ Field.number player_number
              ∷ Field.number total_players
              ∷ [],
          [],
        ))
      × (read_fields (Kind.text ∷ long ∷ []) (build_close_game_packet game_id)
          ≡ some (Field.text [] ∷ Field.number game_id ∷ [], []))
      × (read_fields (Kind.text ∷ word ∷ []) (build_game_data_packet game_data)
          ≡ some (Field.text [] ∷ Field.number (length game_data) ∷ [], game_data))
      × (read_fields (Kind.text ∷ byte ∷ []) (build_game_cache_packet position)
          ≡ some (Field.text [] ∷ Field.number position ∷ [], []))
      × (read_fields (Kind.text ∷ long ∷ long ∷ long ∷ long ∷ []) build_server_to_client_ack_packet
          ≡ some (
            Field.text [] ∷ Field.number 0 ∷ Field.number 1 ∷ Field.number 2 ∷ Field.number 3 ∷ [],
            [],
          ))
      × (read_fields (Kind.text ∷ []) build_ready_to_play_packet ≡ some (Field.text [] ∷ [], []))
unfolding build_start_game_packet build_close_game_packet build_game_data_packet
    build_game_cache_packet build_server_to_client_ack_packet build_ready_to_play_packet
game_packets-read frame_delay player_number total_players game_id position game_data h k l = (
  text_then _ _
      (word_then _ _ (byte_then _ _ (byte_then _ _ (no_fields []) total_players) player_number)
        frame_delay h)
      [] tt,
  text_then _ _ (long_then _ _ (no_fields []) game_id k) [] tt,
  (let e : length game_data % 65536 ≡ length game_data = omega arith in
      rw e (text_then _ _ (word_then _ _ (no_fields game_data) (length game_data) l) [] tt)),
  text_then _ _ (byte_then _ _ (no_fields []) position) [] tt,
  text_then _ _
      (long_then _ _
        (long_then _ _
          (long_then _ _ (long_then _ _ (no_fields []) 3 (omega arith)) 2 (omega arith)) 1
          (omega arith))
        0 (omega arith))
      [] tt,
  text_then _ _ (no_fields []) [] tt,
)
