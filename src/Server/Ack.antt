-- ===== src/Server/Ack.antt =====
-- `handle_client_to_server_ack` of src/handlers/mod.rs: the handshake that measures the ping.
use direlera_rs.Prelude.{ℕ, ◌+◌, ◌-◌, ◌%◌, Option, none, some, ltb, ◌==◌, if◌then◌else◌}
use direlera_rs.Packet.{build_server_to_client_ack_packet}
use direlera_rs.State.{ClientInfo}
use direlera_rs.Server.{
  Env, panics, Exec, ◌>>=◌, ◌>>◌, pure, gets, client, with_client_mut, for_each,
}
use direlera_rs.Server.MessageType.{
  server_status, user_joined, server_information, server_to_client_ack,
}
use direlera_rs.Server.Status.{
  num_acks_for_speed_test, make_server_status, make_user_joined, make_server_information,
}
use direlera_rs.Server.Send.{send_packet, broadcast_packet}

-- The count is a `u16`; `now - sent` is `elapsed`, which does not go below 0.
abbrev pub counted : Env → ℕ → ClientInfo → ClientInfo
counted env sent c = record c {
  ping_total = c.ping_total + (env.now - sent);
  ack_count = (c.ack_count + 1) % 65536;
}

abbrev pub acked : Env → ℕ → ClientInfo → ClientInfo
acked env sent c =
    let d = counted env sent c in record d { ping = env.mean_ping d.ping_total d.ack_count }

-- The mean of no round trips is a division by 0, after the total and the count are changed.
abbrev pub measure : Env → ℕ → ClientInfo → Option ℕ → Exec ℕ
measure env src c none = pure c.ack_count
measure env src c (some sent) =
    if (counted env sent c).ack_count == 0
    then (with_client_mut src (counted env sent) >> (λ w. (panics, w)))
    else (do with_client_mut src (acked env sent); pure (acked env sent c).ack_count)

unfoldable pub welcome : Env → ℕ → Exec (Unit {0})
welcome env src = do
  status ← gets (λ s. make_server_status s src)
  send_packet env src server_status status
  c ← client src
  broadcast_packet user_joined (make_user_joined c)
  for_each (send_packet env src server_information) (make_server_information env.welcome_lines)

unfoldable pub handle_client_to_server_ack : Env → ℕ → Exec (Unit {0})
handle_client_to_server_ack env src = do
  c ← client src
  count ← measure env src c c.last_ping_time
  if ltb num_acks_for_speed_test count
      then welcome env src
      else send_packet env src server_to_client_ack build_server_to_client_ack_packet
