-- ===== src/Server/Relogin.antt =====
-- A second login from an address that has a client: `handle_user_login` of src/handlers/user.rs.
use direlera_rs.Prelude.{ℕ, ◌≡◌, ◌≢◌, ap, ◌∙◌, none, some, Bytes, get_or, take, nat_eq, inl, inr}
use direlera_rs.Dict.{lookup}
use direlera_rs.Packet.{read_string_bytes}
use direlera_rs.State.{ClientInfo, AppState, add_client, next_user_id, find_client_by_username}
use direlera_rs.State.Linked.{IsLinked}
use direlera_rs.State.Lookup.{lookup-insert_cases, lookup-insert_other}
use direlera_rs.Server.{World, Env, Result, ok, err, panics, loops, ◌>>=◌}
use direlera_rs.Server.MessageType.{server_to_client_ack}
use direlera_rs.Packet.{build_server_to_client_ack_packet}
use direlera_rs.Server.User.{new_client, register, login, handle_user_login}
use direlera_rs.Server.Send.{send_packet}
use direlera_rs.Server.Triple.{Cond, After}
use direlera_rs.Server.Quiet.{IsStable, Keeps-send_packet}
use direlera_rs.Server.Rooms.{update_client-cases}
use direlera_rs.Server.Handshake.{registered}

-- The session is still kept, and no address leads to it.
abbrev pub Stranded : ℕ → ClientInfo → Cond
Stranded id c s =
    (lookup id s.clients_by_id ≡ some c) × ((b : ℕ) → lookup b s.clients_by_addr ≢ some id)

-- No change of a client finds it.
Stranded-IsStable : (id : ℕ) (c : ClientInfo) → IsStable (Stranded id c)
Stranded-IsStable id c = record {
  keeps = λ s s' addr f h e v.
      let (other, d, q, l, m) = update_client-cases s s' addr f e in
      let differs : other ≢ id = λ z. v.1 addr (q ∙ ap some z) in
      rw m (lookup-insert_other other id (f d) s.clients_by_id differs ∙ v.0, v.1);
}

add_client-Stranded :
    (s : AppState) (addr old : ℕ) (first second : ClientInfo)
    → IsLinked s
    → lookup addr s.clients_by_addr ≡ some old
    → lookup old s.clients_by_id ≡ some first
    → second.session_id ≢ old
    → Stranded old first (add_client s addr second)
unfolding add_client
add_client-Stranded s addr old first second v there known new = (
  lookup-insert_other second.session_id old second s.clients_by_id new ∙ known,
  λ b e. elim (lookup-insert_cases addr b second.session_id old s.clients_by_addr e) [
    | inl (p, q) ↦ new q
    | inr (p, q) ↦ p (v.one_addr addr b old there q)
  ],
)

either_way : (P : Cond) (r : Result (Unit {0})) (s : AppState) → After P P r s → P s
either_way P (ok a) s v = v
either_way P (err e) s v = v
either_way P panics s v = absurd v
either_way P loops s v = absurd v

login-Stranded :
    (env : Env) (src old : ℕ) (username emulator_name : Bytes) (conn_type : ℕ) (first : ClientInfo)
    (w : World)
    → find_client_by_username w.app username ≡ none
    → IsLinked w.app
    → lookup src w.app.clients_by_addr ≡ some old
    → lookup old w.app.clients_by_id ≡ some first
    → env.new_session_id ≢ old
    → Stranded old first (login env src username emulator_name conn_type w).1.app
unfolding ◌>>=◌ login register next_user_id
login-Stranded env src old username emulator_name conn_type first w free v there known new =
    let (user_id, s) = next_user_id w.app in
    let c : ClientInfo = new_client env username emulator_name conn_type user_id in
    let w' : World = record w { app = add_client s src c } in
    let sent = send_packet env src server_to_client_ack build_server_to_client_ack_packet w' in
    rw free (
      either_way (Stranded old first) sent.0 sent.1.app (
        (Keeps-send_packet (Stranded-IsStable old first) env src server_to_client_ack
            build_server_to_client_ack_packet).at
          w'
          (add_client-Stranded s src old first c
            record { known = v.known; one_addr = v.one_addr; reached = v.reached } there known
            new)))

-- The name, the emulator and the connection type of a login.
abbrev pub login_name : Bytes → Bytes
login_name payload = take 31 (read_string_bytes payload).0

abbrev pub login_conn_type : Bytes → ℕ
login_conn_type payload = get_or (read_string_bytes (read_string_bytes payload).1).1 0 0

-- A client that logs in again from the same address with a name that no client has, as a LAN client and
-- under a new session, is let in (the login returns) and leaves its first record behind: it stays among
-- the sessions, and no address leads to it any more. Before the login the maps of addresses and sessions
-- agree.
pub relogin_orphan :
    (env : Env) (payload : Bytes) (src old : ℕ) (first : ClientInfo) (w : World)
    → login_conn_type payload ≡ 1
    → find_client_by_username w.app (login_name payload) ≡ none
    → IsLinked w.app
    → lookup src w.app.clients_by_addr ≡ some old
    → lookup old w.app.clients_by_id ≡ some first
    → env.new_session_id ≢ old
    → ((handle_user_login env payload src w).0 ≡ ok tt)
      × Stranded old first (handle_user_login env payload src w).1.app
unfolding handle_user_login
relogin_orphan env payload src old first w lan free v there known new =
    let emulator_name = (read_string_bytes (read_string_bytes payload).1).0 in
    rw lan (
      (registered env src (login_name payload) emulator_name 1 w free).0,
      login-Stranded env src old (login_name payload) emulator_name 1 first w free v there known
          new,
    )
