-- ===== src/Server/Users.antt =====
-- Logins, quits of users, ends of sessions and chat keep the rooms well formed.
use direlera_rs.Prelude.{
  ℕ, ◌≡◌, sym, ◌∙◌, ap, true, false, Option, none, some, Bytes, nat_eq, get_or, ◌==◌, ==_iff,
  Bool-cases, inl, inr, not,
}
use direlera_rs.Dict.{lookup}
use direlera_rs.Packet.{read_string_bytes}
use direlera_rs.Room.{is_member}
use direlera_rs.State.{
  ClientInfo, AppState, add_client, remove_client, remove_session, without,
  remove_client_by_username, evict, evict_at, find_by_username, find_addr, next_user_id,
}
use direlera_rs.State.Lookup.{lookup-insert_cases, lookup-remove_cases}
use direlera_rs.Server.{Env}
use direlera_rs.Server.User.{
  reject_login, change, say_quit, evicted, quit_if_in_game, is_alive, make_way, new_client,
  register, login, handle_user_login, quit_said, quit_user, handle_user_quit,
}
use direlera_rs.Server.Chat.{contains, chat_text, handle_global_chat, handle_game_chat}
use direlera_rs.Server.Triple.{
  Cond, Triple, Keeps, Keeps-bind, Keeps-pure, Keeps-gets, Keeps-or_fail, Keeps-if, Keeps-attempt,
  Keeps-emit, Keeps-close_session, Keeps-client, Keeps-game, Triple-modify,
}
use direlera_rs.Server.Quiet.{
  Keeps-send_packet, Keeps-broadcast_packet, Keeps-broadcast_packet_to_game,
}
use direlera_rs.Server.Rooms.{IsServer}
use direlera_rs.Server.Leaving.{IsServer-IsStable}
use direlera_rs.Server.Quitting.{handle_quit_game-IsServer}

pub Triple-change :
    {A : Type 0} {P Q E : Cond} (f : AppState → A × AppState)
    → ((s : AppState) → P s → Q (f s).1)
    → Triple P (change f) Q E
Triple-change f h = record { at = λ w p. h w.app p }

without-IsServer : (s : AppState) (addr id : ℕ) → IsServer s → IsServer (without s addr id)
without-IsServer s addr id v = record {
  each = v.each;
  lan = λ j c e. v.lan j c (lookup-remove_cases id j c s.clients_by_id e).1;
}

pub remove_client-IsServer :
    (addr : ℕ) (s : AppState) → IsServer s → IsServer (remove_client s addr).1
unfolding remove_client
remove_client-IsServer addr s v = at (lookup addr s.clients_by_addr)
  where
    at : (o : Option ℕ) → IsServer (remove_session s addr o).1
    at none = v
    at (some id) = without-IsServer s addr id v

evict-IsServer :
    (username : Bytes) (s : AppState)
    → IsServer s
    → IsServer (remove_client_by_username s username).1
unfolding remove_client_by_username
evict-IsServer username s v = at (find_by_username username s.clients_by_id)
  where
    there : (id : ℕ) (o : Option ℕ) → IsServer (evict_at s id o).1
    there id none = v
    there id (some addr) = without-IsServer s addr id v

    at : (o : Option (ℕ × ClientInfo)) → IsServer (evict s o).1
    at none = v
    at (some (id, c)) = there id (find_addr id s.clients_by_addr)

next_user_id-IsServer : (s : AppState) → IsServer s → IsServer (next_user_id s).1
unfolding next_user_id
next_user_id-IsServer s v = record { each = v.each; lan = v.lan }

add_client-IsServer :
    (src : ℕ) (c : ClientInfo)
    → c.conn_type ≡ 1
    → (s : AppState) → IsServer s
    → IsServer (add_client s src c)
unfolding add_client
add_client-IsServer src c h s v = record {
  each = v.each;
  lan = λ id d e. elim (lookup-insert_cases c.session_id id c d s.clients_by_id e) [
    | inl (same, z) ↦ ap (λ (x : ClientInfo). x.conn_type) (sym z) ∙ h
    | inr (other, z) ↦ v.lan id d z
  ];
}

say_quit-Keeps : (message : Bytes) (c : ClientInfo) → Keeps IsServer (say_quit message c)
say_quit-Keeps message c = Keeps-broadcast_packet IsServer-IsStable _ _

evicted-Keeps : (o : Option (ℕ × ClientInfo)) → Keeps IsServer (evicted o)
evicted-Keeps none = Keeps-pure tt
evicted-Keeps (some (addr, c)) = Keeps-bind _ _ (say_quit-Keeps _ c) (λ _. Keeps-close_session addr)

quit_if_in_game-Keeps :
    (env : Env) (addr : ℕ) (o : Option ℕ) → Keeps IsServer (quit_if_in_game env addr o)
quit_if_in_game-Keeps env addr none = Keeps-pure tt
quit_if_in_game-Keeps env addr (some game_id) = Keeps-attempt _ (handle_quit_game-IsServer env addr)

reject_login-Keeps : (src : ℕ) (message : Bytes) → Keeps IsServer (reject_login src message)
unfolding reject_login
reject_login-Keeps src message = Keeps-emit src _

make_way-Keeps :
    (env : Env) (src : ℕ) (username : Bytes) (o : Option (ℕ × ClientInfo))
    → Keeps IsServer (make_way env src username o)
make_way-Keeps env src username none = Keeps-pure true
make_way-Keeps env src username (some (addr, c)) =
    Keeps-if (is_alive env c) _ _
      (Keeps-bind _ _ (reject_login-Keeps src _) (λ _. Keeps-pure false))
      (Keeps-bind _ _ (quit_if_in_game-Keeps env addr c.game_id) λ _.
        Keeps-bind _ _ (Triple-change _ (evict-IsServer username))
          λ old. Keeps-bind _ _ (evicted-Keeps old) (λ _. Keeps-pure true))

register-Keeps :
    (env : Env) (src : ℕ) (username emulator_name : Bytes) (conn_type : ℕ)
    → conn_type ≡ 1
    → Keeps IsServer (register env src username emulator_name conn_type)
unfolding register
register-Keeps env src username emulator_name conn_type h =
    Keeps-bind _ _ (Triple-change _ next_user_id-IsServer) λ user_id.
      Keeps-bind _ _
        (Triple-modify _
          (add_client-IsServer src (new_client env username emulator_name conn_type user_id) h))
        (λ _. Keeps-send_packet IsServer-IsStable env src _ _)

-- A login, accepted or refused, leaves every room well formed, also where it puts out an old session.
pub handle_user_login-IsServer :
    (env : Env) (payload : Bytes) (src : ℕ) → Keeps IsServer (handle_user_login env payload src)
unfolding handle_user_login login
handle_user_login-IsServer env payload src =
    let rest = (read_string_bytes (read_string_bytes payload).1).1 in
    elim (Bool-cases (get_or rest 0 0 == 1)) [
      | inr other ↦ rw other (reject_login-Keeps src _)
      | inl lan ↦ rw lan (
          Keeps-bind _ _ (Keeps-gets _) λ old.
            Keeps-bind _ _ (make_way-Keeps env src _ old) λ goes_on.
              Keeps-if goes_on _ _
                (register-Keeps env src _ _ (get_or rest 0 0) ((==_iff _ 1).0 lan)) (Keeps-pure tt))
    ]

pub quit_said-Keeps :
    (message : Bytes) (o : Option ClientInfo) → Keeps IsServer (quit_said message o)
quit_said-Keeps message none = Keeps-pure tt
quit_said-Keeps message (some c) = say_quit-Keeps message c

pub handle_user_quit-IsServer :
    (env : Env) (payload : Bytes) (src : ℕ) → Keeps IsServer (handle_user_quit env payload src)
unfolding handle_user_quit quit_user
handle_user_quit-IsServer env payload src = Keeps-bind _ _ (handle_quit_game-IsServer env src) λ _.
    Keeps-bind _ _ (Triple-change _ (remove_client-IsServer src))
      λ c. Keeps-bind _ _ (quit_said-Keeps _ c) (λ _. Keeps-close_session src)

pub handle_global_chat-IsServer :
    (payload : Bytes) (src : ℕ) → Keeps IsServer (handle_global_chat payload src)
unfolding handle_global_chat
handle_global_chat-IsServer payload src =
    Keeps-bind _ _ (Keeps-gets _) (λ c. Keeps-broadcast_packet IsServer-IsStable _ _)

pub handle_game_chat-IsServer :
    (payload : Bytes) (src : ℕ) → Keeps IsServer (handle_game_chat payload src)
unfolding handle_game_chat
handle_game_chat-IsServer payload src = Keeps-bind _ _ (Keeps-client src) λ c.
    Keeps-bind _ _ (Keeps-or_fail _ c.game_id) λ game_id. Keeps-bind _ _ (Keeps-game game_id) λ g.
      Keeps-if (not (is_member src g.players)) _ _ (Keeps-pure tt) (
        Keeps-if (contains 17 (chat_text payload)) _ _ (Keeps-pure tt)
          (Keeps-broadcast_packet_to_game IsServer-IsStable _ _ _))
