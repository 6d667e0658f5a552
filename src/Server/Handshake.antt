-- ===== src/Server/Handshake.antt =====
-- The handshake of src/handlers/mod.rs: how a client that logged in comes to be seen in the lobby.
use direlera_rs.Prelude.{
  ℕ, ◌+◌, ◌%◌, ◌<◌, ◌≤◌, length, ◌≡◌, refl, subst, sym, ap, Option-cases, inl, inr, Bool, true,
  false, Option, none, some, List, [], ◌∷◌, Bytes, arith, ltb, ◌==◌, nat_eq,
}
use direlera_rs.Protocol.{make_send_packet}
use direlera_rs.Packet.{build_server_to_client_ack_packet}
use direlera_rs.State.{
  ClientInfo, AppState, get_client, update_client, add_client, next_user_id,
  find_client_by_username,
}
use direlera_rs.State.Lookup.{lookup-insert_self}
use direlera_rs.Server.User.{login, register, new_client}
use direlera_rs.Server.Status.{is_logged_in}
use direlera_rs.Server.{
  World, Env, Result, ok, Exec, continue, ◌>>=◌, ◌>>◌, updated, with_client_mut, for_each,
}
use direlera_rs.Server.MessageType.{server_to_client_ack}
use direlera_rs.Server.Send.{deliver, stamped, send_packet}
use direlera_rs.Server.Ack.{acked, welcome, handle_client_to_server_ack}
use direlera_rs.Server.Quiet.{update_client-ne-none}
use direlera_rs.Server.Joining.{get_client-update}
use direlera_rs.Server.Mail.{Alike-known, Sends}
use direlera_rs.Server.Welcome.{welcome_mail, welcome-Sends}

-- A change of a client that is there.
abbrev pub Changed : World → ℕ → ClientInfo → Result (Unit {0}) × World → Type 0
Changed w a c r = (r.0 ≡ ok tt) × (get_client r.1.app a ≡ some c)

pub change_known :
    (w : World) (a : ℕ) (f : ClientInfo → ClientInfo) (c : ClientInfo)
    → get_client w.app a ≡ some c
    → Changed w a (f c) (with_client_mut a f w)
unfolding with_client_mut
change_known w a f c k = at (update_client w.app a f) refl
  where
    at : (o : Option AppState) → update_client w.app a f ≡ o → Changed w a (f c) (updated w o)
    at none e = absurd (update_client-ne-none w.app a f c k e)
    at (some s) e = (refl, get_client-update w.app s a f c e k)

then_known :
    (w : World) (a : ℕ) (c d : ClientInfo) (r : Result (Unit {0}) × World) (k : Exec (Unit {0}))
    → Changed w a c r
    → ((w : World) → get_client w.app a ≡ some c → Changed w a d (k w))
    → Changed w a d (continue r.0 (λ _. k) r.1)
then_known w a c d r k (e, l) h = rw e (h r.1 l)

deliver_known :
    (w : World) (a packet_type : ℕ) (payload : Bytes) (f : ClientInfo → ClientInfo) (c : ClientInfo)
    → get_client w.app a ≡ some c
    → Changed w a
        (record (f c) {
          packet_generator = (make_send_packet c.packet_generator packet_type payload).1;
        })
        (deliver a packet_type payload f w)
unfolding ◌>>=◌ deliver
deliver_known w a packet_type payload f c k =
    rw k (then_known w a _ _ (with_client_mut a _ w) _ (change_known w a _ c k) (λ w l. (refl, l)))

-- The client of the address has sent `n` acknowledgements and is asked for another.
abbrev AwaitsAck : ℕ → ℕ → World → Type 0
AwaitsAck src n w =
    (c : ClientInfo) × (sent : ℕ) × (get_client w.app src ≡ some c)
    × (c.ack_count ≡ n)
    × (c.last_ping_time ≡ some sent)

one_more :
    (env : Env) (src n : ℕ) (w : World)
    → n < 3
    → AwaitsAck src n w
    → ((handle_client_to_server_ack env src w).0 ≡ ok tt)
      × AwaitsAck src (n + 1) (handle_client_to_server_ack env src w).1
unfolding ◌>>=◌ handle_client_to_server_ack send_packet
one_more env src n w h (c, sent, k, count, l) =
    let counted : (c.ack_count + 1) % 65536 ≡ n + 1 = omega arith in
    let some_one : ((c.ack_count + 1) % 65536 == 0) ≡ false = ground arith in
    let not_yet : ltb 3 ((c.ack_count + 1) % 65536) ≡ false = ground arith in
    let c1 : ClientInfo = acked env sent c in
    let r : Result (Unit {0}) × World = with_client_mut src (acked env sent) w in
    let (e1, k1) = change_known w src (acked env sent) c k in
    let (e2, k2) =
      deliver_known r.1 src server_to_client_ack build_server_to_client_ack_packet
        (stamped env server_to_client_ack) c1 k1 in
    rw (k, l, some_one, e1, not_yet) (e2, (_, env.now, k2, counted, refl))

changed_state :
    (s : AppState) (a : ℕ) (f : ClientInfo → ClientInfo) (c : ClientInfo)
    → get_client s a ≡ some c
    → (s' : AppState) × (update_client s a f ≡ some s') × (get_client s' a ≡ some (f c))
changed_state s a f c k = elim (Option-cases (update_client s a f)) [
  | inl e ↦ absurd (update_client-ne-none s a f c k e)
  | inr (s', e) ↦ (s', e, get_client-update s s' a f c e k)
]

fourth :
    (env : Env) (src sent : ℕ) (w : World) (c : ClientInfo) (s : AppState)
    → get_client w.app src ≡ some c
    → c.last_ping_time ≡ some sent
    → (c.ack_count + 1) % 65536 ≡ 4
    → update_client w.app src (acked env sent) ≡ some s
    → handle_client_to_server_ack env src w ≡ welcome env src (record w { app = s })
unfolding ◌>>=◌ handle_client_to_server_ack with_client_mut
fourth env src sent w c s k l four e = rw (k, l, four, e) refl

get_client-added :
    (s : AppState) (addr : ℕ) (c : ClientInfo) → get_client (add_client s addr c) addr ≡ some c
unfolding get_client add_client
get_client-added s addr c =
    rw (lookup-insert_self addr c.session_id s.clients_by_addr)
      (lookup-insert_self c.session_id c s.clients_by_id)

pub registered :
    (env : Env) (src : ℕ) (username emulator_name : Bytes) (conn_type : ℕ) (w : World)
    → find_client_by_username w.app username ≡ none
    → ((login env src username emulator_name conn_type w).0 ≡ ok tt)
      × AwaitsAck src 0 (login env src username emulator_name conn_type w).1
unfolding ◌>>=◌ login register send_packet
registered env src username emulator_name conn_type w free =
    let (user_id, s) = next_user_id w.app in
    let c : ClientInfo = new_client env username emulator_name conn_type user_id in
    let (e, k) =
      deliver_known (record w { app = add_client s src c }) src server_to_client_ack
        build_server_to_client_ack_packet (stamped env server_to_client_ack) c
        (get_client-added s src c) in
    rw free (e, (_, env.now, k, refl, refl))

-- Acknowledgements, one after the other.
abbrev pub acks : ℕ → List Env → Exec (Unit {0})
acks src envs = for_each (λ env. handle_client_to_server_ack env src) envs

several_more :
    (envs : List Env) (src n m : ℕ) (r : Result (Unit {0}) × World)
    → n + length envs ≡ m
    → m ≤ 3
    → (r.0 ≡ ok tt) × AwaitsAck src n r.1
    → ((continue r.0 (λ _. acks src envs) r.1).0 ≡ ok tt)
      × AwaitsAck src m (continue r.0 (λ _. acks src envs) r.1).1
unfolding ◌>>=◌
several_more [] src n m r q h (e, v) =
    let z : n ≡ m = omega arith in rw e (refl, subst (λ (x : ℕ). AwaitsAck src x r.1) z v)
several_more (env ∷ envs) src n m r q h (e, v) = rw e (
    several_more envs src (n + 1) m (handle_client_to_server_ack env src r.1) (omega arith) h
      (one_more env src n r.1 (omega arith) v))

-- The client of the address, and whether broadcasts to the lobby reach it.
abbrev pub IsSeen : ℕ → Bool → World → Type 0
IsSeen src b w = (c : ClientInfo) × (get_client w.app src ≡ some c) × (is_logged_in c ≡ b)

-- The acknowledgement of the client of the address is counted, and the client is welcomed and seen.
abbrev pub Greeted : Env → ℕ → World → Type 0
Greeted env src w =
    (c : ClientInfo) × (sent : ℕ) × (s : AppState) × (get_client w.app src ≡ some c)
    × (c.last_ping_time ≡ some sent)
    × (update_client w.app src (acked env sent) ≡ some s)
    × Sends (record w { app = s }) (handle_client_to_server_ack env src w)
        (welcome_mail env src s (acked env sent c))
    × IsSeen src true (handle_client_to_server_ack env src w).1

-- With the fourth acknowledgement the client is logged in, and it is welcomed.
welcomed : (env : Env) (src : ℕ) (w : World) → AwaitsAck src 3 w → Greeted env src w
welcomed env src w (c, sent, k, count, l) =
    let four : (c.ack_count + 1) % 65536 ≡ 4 = omega arith in
    let (s, e, k') = changed_state w.app src (acked env sent) c k in
    let eq = fourth env src sent w c s k l four e in
    let sends =
      subst (λ r. Sends (record w { app = s }) r (welcome_mail env src s (acked env sent c)))
        (sym eq) (welcome-Sends env src (record w { app = s }) (acked env sent c) k') in
    let (d, k'', same) =
      Alike-known s (handle_client_to_server_ack env src w).1.app src (acked env sent c) sends.2
        k' in
    let count' : d.ack_count ≡ (c.ack_count + 1) % 65536 =
      ap (λ (x : ClientInfo). x.ack_count) same in
    (c, sent, s, k, l, e, sends, (d, k'', rw (count', four) refl))

-- A login with a name that is free, and then three acknowledgements with nothing between them, all come
-- back, and the client is not seen in the lobby yet. The fourth comes back too, the client is seen, and
-- the welcome is sent, in this order: the status of the server, to the client; the client's arrival, to
-- every address whose client has done the handshake by then; the lines of the welcome, to the client.
pub login_welcomed :
    (env : Env) (envs : List Env) (last : Env) (src : ℕ) (username emulator_name : Bytes)
    (conn_type : ℕ) (w : World)
    → find_client_by_username w.app username ≡ none
    → length envs ≡ 3
    → let r = (login env src username emulator_name conn_type >> acks src envs) w in
      (r.0 ≡ ok tt) × IsSeen src false r.1 × Greeted last src r.1
unfolding ◌>>=◌
login_welcomed env envs last src username emulator_name conn_type w free three =
    let r = (login env src username emulator_name conn_type >> acks src envs) w in
    let (e, v) =
      several_more envs src 0 3 (login env src username emulator_name conn_type w) (omega arith)
        (omega arith) (registered env src username emulator_name conn_type w free) in
    let (c, sent, k, count, l) = v in (e, (c, k, rw count refl), welcomed last src r.1 v)
