-- ===== src/Server/Send.antt =====
-- `send_packet`, `broadcast_packet` and `broadcast_packet_to_game` of src/handlers/util.rs: every packet
-- comes from the generator of the client that it is sent to.
use direlera_rs.Prelude.{ℕ, Bool, false, Option, none, some, Bytes, map, ◌==◌, if◌then◌else◌}
use direlera_rs.Protocol.{make_send_packet}
use direlera_rs.Room.{GamePlayerInfo}
use direlera_rs.State.{ClientInfo, get_client, get_all_client_addrs}
use direlera_rs.Server.{
  Env, Exec, ◌>>=◌, ◌>>◌, pure, gets, client, game, with_client_mut, emit, for_each,
}
use direlera_rs.Server.MessageType.{server_to_client_ack}
use direlera_rs.Server.Status.{is_logged_in}

-- The client's next packet.
unfoldable pub deliver : ℕ → ℕ → Bytes → (ClientInfo → ClientInfo) → Exec (Unit {0})
deliver addr packet_type payload f = do
  c ← client addr
  let (bytes, g) = make_send_packet c.packet_generator packet_type payload
  with_client_mut addr (λ c. record (f c) { packet_generator = g })
  emit addr bytes

-- The time of an ACK is kept, for the round trip.
abbrev pub stamped : Env → ℕ → ClientInfo → ClientInfo
stamped env packet_type c = record c {
  last_ping_time = if packet_type == server_to_client_ack then some env.now else c.last_ping_time;
}

unfoldable pub send_packet : Env → ℕ → ℕ → Bytes → Exec (Unit {0})
send_packet env addr packet_type payload =
    deliver addr packet_type payload (stamped env packet_type)

-- A client that is not there or does not pass the test is left out.
abbrev pub offer_to : (ClientInfo → Bool) → ℕ → ℕ → Bytes → Option ClientInfo → Exec (Unit {0})
offer_to test packet_type addr payload none = pure tt
offer_to test packet_type addr payload (some c) =
    if test c then deliver addr packet_type payload (λ c. c) else pure tt

unfoldable pub offer : (ClientInfo → Bool) → ℕ → Bytes → ℕ → Exec (Unit {0})
offer test packet_type payload addr = do
  c ← gets (λ s. get_client s addr)
  offer_to test packet_type addr payload c

-- To every client whose handshake is done.
unfoldable pub broadcast_packet : ℕ → Bytes → Exec (Unit {0})
broadcast_packet packet_type payload = do
  addrs ← gets get_all_client_addrs
  for_each (offer is_logged_in packet_type payload) addrs

abbrev same_game : ℕ → Option ℕ → Bool
same_game game_id none = false
same_game game_id (some id) = id == game_id

abbrev pub is_in_game : ℕ → ClientInfo → Bool
is_in_game game_id c = same_game game_id c.game_id

-- To every listed player whose client is in the game.
unfoldable pub broadcast_packet_to_game : ℕ → ℕ → Bytes → Exec (Unit {0})
broadcast_packet_to_game game_id packet_type payload = do
  g ← game game_id
  for_each (offer (is_in_game game_id) packet_type payload)
      (map (λ (p : GamePlayerInfo). p.addr) g.players)
