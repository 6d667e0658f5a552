-- ===== src/Server/Chat.antt =====
-- src/handlers/chat.rs.
use direlera_rs.Prelude.{
  ℕ, Bool, true, false, not, Option, none, some, [], ◌∷◌, Bytes, ◌==◌, if◌then◌else◌,
}
use direlera_rs.Packet.{read_string_bytes, build_game_chat_packet, build_global_chat_packet}
use direlera_rs.Room.{is_member}
use direlera_rs.State.{ClientInfo, get_client}
use direlera_rs.Server.{Exec, ◌>>=◌, pure, gets, client, game, or_fail, not_in_a_game}
use direlera_rs.Server.MessageType.{global_chat, game_chat}
use direlera_rs.Server.Status.{codes}
use direlera_rs.Server.Send.{broadcast_packet, broadcast_packet_to_game}

-- The text after the empty string.
abbrev pub chat_text : Bytes → Bytes
chat_text payload = let (_, buf) = read_string_bytes payload in (read_string_bytes buf).0

abbrev name_of : Option ClientInfo → Bytes
name_of none = codes "Unknown"
name_of (some c) = c.username

unfoldable pub handle_global_chat : Bytes → ℕ → Exec (Unit {0})
handle_global_chat payload src = do
  c ← gets (λ s. get_client s src)
  broadcast_packet global_chat (build_global_chat_packet (name_of c) (chat_text payload))

abbrev pub contains : ℕ → Bytes → Bool
contains b [] = false
contains b (x ∷ xs) = if x == b then true else contains b xs

-- Only a listed player's text without the byte 0x11 goes to the room.
unfoldable pub handle_game_chat : Bytes → ℕ → Exec (Unit {0})
handle_game_chat payload src = do
  c ← client src
  game_id ← or_fail not_in_a_game c.game_id
  g ← game game_id
  if not (is_member src g.players)
      then pure tt
      else if contains 17 (chat_text payload)
      then pure tt
      else broadcast_packet_to_game game_id game_chat
          (build_game_chat_packet c.username (chat_text payload))
