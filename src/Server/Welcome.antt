-- ===== src/Server/Welcome.antt =====
-- `welcome` of the handshake in src/handlers/mod.rs: what a client is sent when it is logged in.
use direlera_rs.Prelude.{
  ℕ, ◌≡◌, refl, sym, subst, ap, ◌∙◌, false, some, List, [], ◌∷◌, ◌++◌, map, Bytes, ◌==◌,
}
use direlera_rs.State.{ClientInfo, AppState, get_client, get_all_client_addrs}
use direlera_rs.Server.{World, Env, ◌>>=◌, for_each}
use direlera_rs.Server.MessageType.{
  server_status, user_joined, server_information, server_to_client_ack,
}
use direlera_rs.Server.Status.{
  is_logged_in, make_server_status, make_user_joined, make_server_information,
}
use direlera_rs.Server.Send.{stamped, send_packet, broadcast_packet}
use direlera_rs.Server.Ack.{welcome}
use direlera_rs.Server.Mail.{
  Mail, mail, bare, Alike, Alike-known, Sends, nothing-Sends, then-Sends, deliver-Sends,
}
use direlera_rs.Server.Targets.{lobby_mail, targets-Alike, broadcast_packet-Sends}

send_packet-Sends :
    (env : Env) (w : World) (a packet_type : ℕ) (payload : Bytes) (c : ClientInfo)
    → (packet_type == server_to_client_ack) ≡ false
    → get_client w.app a ≡ some c
    → Sends w (send_packet env a packet_type payload w) (mail a packet_type payload ∷ [])
unfolding send_packet
send_packet-Sends env w a packet_type payload c h k =
    deliver-Sends w a packet_type payload (stamped env packet_type) c k (λ c. rw h refl)

send_lines-Sends :
    (env : Env) (a : ℕ) (payloads : List Bytes) (w : World) (c : ClientInfo)
    → get_client w.app a ≡ some c
    → Sends w
        (for_each (send_packet env a server_information) payloads w)
        (map (mail a server_information) payloads)
unfolding ◌>>=◌
send_lines-Sends env a [] w c k = nothing-Sends w
send_lines-Sends env a (payload ∷ payloads) w c k =
    let r = send_packet env a server_information payload w in
    let first = send_packet-Sends env w a server_information payload c refl k in
    let (d, l, _) = Alike-known w.app r.1.app a c first.2 k in
    then-Sends w r (for_each (send_packet env a server_information) payloads) _ _ first
      (send_lines-Sends env a payloads r.1 d l)

-- The status of the server, to the client; the client's arrival, to all that are seen; the lines of the
-- welcome, to the client.
abbrev pub welcome_mail : Env → ℕ → AppState → ClientInfo → List Mail
welcome_mail env src s c =
    mail src server_status (make_server_status s src) ∷ []
    ++ (lobby_mail user_joined (make_user_joined c) s
        ++ map (mail src server_information) (make_server_information env.welcome_lines))

lobby_mail-Alike :
    (packet_type : ℕ) (payload : Bytes) (s s' : AppState)
    → Alike s s'
    → lobby_mail packet_type payload s' ≡ lobby_mail packet_type payload s
lobby_mail-Alike packet_type payload s s' h =
    rw (h.1, targets-Alike is_logged_in (λ c g. refl) s s' (get_all_client_addrs s) h) refl

bare-joined : (c : ClientInfo) → make_user_joined (bare c) ≡ make_user_joined c
unfolding make_user_joined
bare-joined c = refl

joined-bare : (d c : ClientInfo) → bare d ≡ bare c → make_user_joined d ≡ make_user_joined c
joined-bare d c h = sym (bare-joined d) ∙ (ap make_user_joined h ∙ bare-joined c)

pub welcome-Sends :
    (env : Env) (src : ℕ) (w : World) (c : ClientInfo)
    → get_client w.app src ≡ some c
    → Sends w (welcome env src w) (welcome_mail env src w.app c)
unfolding ◌>>=◌ welcome
welcome-Sends env src w c k =
    let status = make_server_status w.app src in
    let r = send_packet env src server_status status w in
    let first = send_packet-Sends env w src server_status status c refl k in
    let (d, l, same) = Alike-known w.app r.1.app src c first.2 k in
    let arrival : make_user_joined d ≡ make_user_joined c = joined-bare d c same in
    let q = broadcast_packet user_joined (make_user_joined c) r.1 in
    let second =
      subst (Sends r.1 q) (lobby_mail-Alike user_joined (make_user_joined c) w.app r.1.app first.2)
        (broadcast_packet-Sends user_joined (make_user_joined c) r.1) in
    let (e, l', _) = Alike-known r.1.app q.1.app src d second.2 l in
    then-Sends w r _ _ _ first (
      rw (l, arrival)
        (then-Sends r.1 q _ _ _ second
          (send_lines-Sends env src (make_server_information env.welcome_lines) q.1 e l')))
