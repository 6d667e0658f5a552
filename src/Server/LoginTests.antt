-- ===== src/Server/LoginTests.antt =====
-- Logins, sessions and the server as a whole on concrete inputs.
use direlera_rs.Prelude.{
  ◌≡◌, ◌≢◌, refl, false, none, some, [], ◌∷◌, ◌++◌, Bytes, arith, nat_eq, length,
}
use direlera_rs.Protocol.{make_send_packet}
use direlera_rs.Protocol
use direlera_rs.Dict
use direlera_rs.Dict.{lookup, insert}
use direlera_rs.Packet.{read_string_bytes}
use direlera_rs.Protocol.Parse.{get_u16_le}
use direlera_rs.State.{
  new, get_client, update_client, find_client_by_username, next_user_id, add_client,
  get_all_client_addrs,
}
use direlera_rs.Server.{World, Env, ok, err, panics, client_not_found}
use direlera_rs.Server
use direlera_rs.Server.{with_client_mut, ◌>>◌}
use direlera_rs.Server.Status.{codes}
use direlera_rs.Server.MessageType
use direlera_rs.Server.Send.{deliver, offer, send_packet, broadcast_packet}
use direlera_rs.Server.User.{handle_user_login, login, register, end_session}
use direlera_rs.Server.Chat.{handle_global_chat}
use direlera_rs.Server.Handshake.{acks, IsSeen, Greeted, login_welcomed}
use direlera_rs.Server.Dispatch.{handle_message}
use direlera_rs.Server.Rooms.{IsServer, new-IsServer}
use direlera_rs.Server.Kicking.{IsOther}
use direlera_rs.Server.Starts.{AcksLeft}
use direlera_rs.Server.Messages.{
  Returns, handle_message-IsServer, empty_world, Reach, message, started, Reach-IsServer,
}
use direlera_rs.Server.Sessions.{
  Session, received, closed, receive, handle_session, time_out, login_resend_task,
}
use direlera_rs.Session.{process_packet, process_messages, process_message, drain}
use direlera_rs.Protocol.Parse.{parse_packet, parse_message}
use direlera_rs.Server.Dispatch.{process_packet_in_session, process_ordered_message}
use direlera_rs.State.{remove_client, update_client_activity}
use direlera_rs.Protocol.{make_packet}
use direlera_rs.Server.Endings.{Ends, end_of_session}
use direlera_rs.Server.Tests.{env}
use direlera_rs.Server.Relogin.{Stranded, login_name, login_conn_type, relogin_orphan}
use direlera_rs.State.Tests.{ann, with_ann, with_ann-IsLinked, at_five, of_session}

-- "A", an emulator "E", from a LAN.
abbrev login_payload : Bytes
login_payload = 65 ∷ 0 ∷ 69 ∷ 0 ∷ 1 ∷ []

not_kick : 3 ≡ MessageType.kick_user → IsOther new (get_u16_le (69 ∷ 0 ∷ 1 ∷ [])) 5
not_kick e = absurd (omega arith)

not_ack : 3 ≡ MessageType.client_to_server_ack → AcksLeft new 5
not_ack e = absurd (omega arith)

handle_message-IsServer_example :
    Returns (handle_message env 3 login_payload 5 empty_world).0
    × IsServer (handle_message env 3 login_payload 5 empty_world).1.app
unfolding read_string_bytes
handle_message-IsServer_example =
    handle_message-IsServer env 3 login_payload 5 empty_world refl not_kick not_ack new-IsServer

-- A login and the end of its session.
abbrev logged_in : World
logged_in = (handle_message env 3 login_payload 5 empty_world).1

run : Reach (end_session env (codes "timeout") 5 logged_in).1
unfolding read_string_bytes
run =
    Reach.closed (message started env 3 login_payload 5 refl not_kick not_ack) env (codes "timeout")
      5

Reach-IsServer_example : IsServer (end_session env (codes "timeout") 5 logged_in).1.app
Reach-IsServer_example = Reach-IsServer run

logged_in-IsServer : IsServer logged_in.app
unfolding read_string_bytes
logged_in-IsServer =
    (handle_message-IsServer env 3 login_payload 5 empty_world refl not_kick not_ack new-IsServer).1

end_of_session_example :
    Ends 5 (end_session env (codes "disconnected") 5 logged_in)
    × Ends 5 (time_out env 5 (some (65 ∷ [], 1)) logged_in)
end_of_session_example =
    end_of_session env (codes "disconnected") 5 (some (65 ∷ [], 1)) logged_in logged_in-IsServer

free_name : find_client_by_username new (65 ∷ []) ≡ none
unfolding find_client_by_username new
free_name = refl

login_welcomed_example :
    let r = (login env 5 (65 ∷ []) (69 ∷ []) 1 >> acks 5 (env ∷ env ∷ env ∷ [])) empty_world in
    (r.0 ≡ ok tt) × IsSeen 5 false r.1 × Greeted env 5 r.1
login_welcomed_example =
    login_welcomed env (env ∷ env ∷ env ∷ []) env 5 (65 ∷ []) (69 ∷ []) 1 empty_world free_name refl

-- The login is answered with one packet, from the client's own generator.
login_answered : length logged_in.sent ≡ 1
unfolding handle_message handle_user_login login register deliver send_packet with_client_mut
    update_client read_string_bytes Server.◌>>=◌ find_client_by_username next_user_id add_client
    get_client new insert lookup
login_answered = refl

-- A client that is not logged in is told nothing of a global chat.
chat_unheard : (handle_message env 7 (0 ∷ 65 ∷ 0 ∷ []) 5 logged_in).1.sent ≡ logged_in.sent
unfolding handle_message handle_user_login login register deliver send_packet with_client_mut
    update_client read_string_bytes Server.◌>>=◌ find_client_by_username next_user_id add_client
    get_client new insert lookup handle_global_chat broadcast_packet get_all_client_addrs offer
chat_unheard = refl

-- The answer to a login is sent again as it was, until the handshake is done.
resent : (login_resend_task logged_in).1.sent ≡ logged_in.sent ++ logged_in.sent
unfolding login_resend_task handle_message handle_user_login login register deliver send_packet
    with_client_mut update_client read_string_bytes Server.◌>>=◌ find_client_by_username
    next_user_id add_client get_client new insert lookup make_send_packet
resent = refl

abbrev login_packet : Bytes
login_packet = (make_send_packet Protocol.new 3 login_payload).0

abbrev session : Session
session = record { packets = record { packet_counter = 0; pending = [] }; cached_identity = none }

abbrev closing : World
closing =
    (handle_session 5 session ((env, received login_packet) ∷ (env, closed) ∷ []) empty_world).1

-- A login in a session that is closed then leaves no client.
session_closed : get_all_client_addrs closing.app ≡ []
unfolding handle_session receive process_packet_in_session process_packet process_messages
    process_message process_ordered_message drain parse_packet parse_message end_session
    remove_client update_client_activity broadcast_packet offer get_all_client_addrs handle_message
    handle_user_login login register deliver send_packet with_client_mut update_client
    read_string_bytes Server.◌>>=◌ find_client_by_username next_user_id add_client get_client new
    insert lookup make_send_packet make_packet Protocol.new Server.attempt Dict.remove
session_closed = refl

-- Ann of session 100 is at address 5; then "B" logs in from there, under session 101.
abbrev relogin_payload : Bytes
relogin_payload = 66 ∷ 0 ∷ 69 ∷ 0 ∷ 1 ∷ []

abbrev next_env : Env
next_env = record env { new_session_id = 101 }

abbrev ann_world : World
ann_world = record empty_world { app = with_ann }

b_is_lan : login_conn_type relogin_payload ≡ 1
unfolding read_string_bytes
b_is_lan = refl

b_is_free : find_client_by_username ann_world.app (login_name relogin_payload) ≡ none
unfolding find_client_by_username read_string_bytes add_client new insert
b_is_free = refl

not_session_100 : next_env.new_session_id ≢ 100
not_session_100 e = omega arith

relogin_orphan_example :
    ((handle_user_login next_env relogin_payload 5 ann_world).0 ≡ ok tt)
    × Stranded 100 ann (handle_user_login next_env relogin_payload 5 ann_world).1.app
relogin_orphan_example =
    relogin_orphan next_env relogin_payload 5 100 ann ann_world b_is_lan b_is_free with_ann-IsLinked
      at_five of_session not_session_100
