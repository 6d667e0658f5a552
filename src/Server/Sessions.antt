-- ===== src/Server/Sessions.antt =====
-- The task of a session, the cleanup task and the login resend task of src/session_manager.rs, one round
-- of each loop; what a session receives, its end and its timeouts are events.
use direlera_rs.Prelude.{
  ℕ, ◌-◌, Option, none, some, List, [], ◌∷◌, ◌++◌, Bytes, leb, ltb, nat_eq, if◌then◌else◌,
}
use direlera_rs.Dict.{Dict, lookup, remove}
use direlera_rs.Packet.{build_global_chat_packet}
use direlera_rs.Session.{SessionState}
use direlera_rs.State.{ClientInfo, get_client, remove_client, update_client_activity}
use direlera_rs.Server.{
  World, Env, Result, ok, Exec, continue, ◌>>=◌, ◌>>◌, pure, gets, modify, attempt, emit, for_each,
}
use direlera_rs.Server.MessageType.{global_chat}
use direlera_rs.Server.Status.{codes, decimal, num_acks_for_speed_test}
use direlera_rs.Server.Send.{broadcast_packet}
use direlera_rs.Server.User.{ended, end_session}
use direlera_rs.Server.Dispatch.{process_packet_in_session}

abbrev session_timeout : ℕ
session_timeout = 120000000000

abbrev pre_login_timeout : ℕ
pre_login_timeout = 15000000000

-- The name for a notice, and the user's id.
abbrev pub Identity : Type 0
Identity = Bytes × ℕ

-- The variables of the task.
pub record Session : Type 0 where
  pub packets : SessionState
  pub cached_identity : Option Identity

abbrev recv_timeout : Session → ℕ
recv_timeout s = elim s.cached_identity [ none ↦ pre_login_timeout | some i ↦ session_timeout ]

abbrev pub cached : Env → Option Identity → Option ClientInfo → Option Identity
cached env (some i) c = some i
cached env none none = none
cached env none (some c) = some (env.bytes_for_log c.username, c.user_id)

-- A datagram: the activity is noted, its messages are handled, and who logged in is remembered.
unfoldable pub receive : Env → ℕ → Session → Bytes → World → (Result (Unit {0}) × World) × Session
receive env addr s bytes w =
    let seen : World = record w { app = update_client_activity env.now_secs w.app addr } in
    let (r, packets) = process_packet_in_session env addr s.packets bytes seen in
    (
      r,
      record {
        packets = packets;
        cached_identity = cached env s.cached_identity (get_client r.1.app addr);
      },
    )

unfoldable pub timeout_notice : Env → ℕ → Identity → Exec (Unit {0})
timeout_notice env addr (name, user_id) = attempt (
    broadcast_packet global_chat (
      build_global_chat_packet (codes "Server") (
        codes "[Server] "
        ++ (name
            ++ (codes " (#"
                ++ (decimal user_id
                    ++ (codes ", "
                        ++ (env.addr_text addr
                            ++ codes ") timed out (keepalive not received)"))))))))

-- Without a client the notice is for the identity that was cached, if there is one.
abbrev cached_notice : Env → ℕ → Option Identity → Exec (Unit {0})
cached_notice env addr none = pure tt
cached_notice env addr (some i) = timeout_notice env addr i

abbrev pub silent : Env → ℕ → Option Identity → Option ClientInfo → Exec (Unit {0})
silent env addr i none = cached_notice env addr i
silent env addr i (some c) =
    timeout_notice env addr (env.bytes_for_log c.username, c.user_id)
    >> ended env (codes "timeout") addr (some c)

unfoldable pub time_out : Env → ℕ → Option Identity → Exec (Unit {0})
time_out env addr i = do
  c ← gets (λ s. get_client s addr)
  silent env addr i c
  modify (λ s. (remove_client s addr).1)

pub data Event : Type 0 where
  received : Bytes → Event
  closed timed_out : Event

-- The events of a session in their order, each with what it takes from outside; after its end there is
-- none.
unfoldable pub handle_session : ℕ → Session → List (Env × Event) → Exec (Unit {0})
handle_session addr s [] w = (ok tt, w)
handle_session addr s ((env, received bytes) ∷ es) w =
    let ((r, w'), s') = receive env addr s bytes w in continue r (λ _. handle_session addr s' es) w'
handle_session addr s ((env, closed) ∷ es) w = end_session env (codes "disconnected") addr w
handle_session addr s ((env, timed_out) ∷ es) w = time_out env addr s.cached_identity w

-- The sessions that the cleanup finds silent; the map is that of the times when they were last seen.
abbrev expired : ℕ → Dict ℕ ℕ → List ℕ
expired now [] = []
expired now ((addr, last_seen) ∷ sessions) =
    if ltb session_timeout (now - last_seen)
    then addr ∷ expired now sessions
    else expired now sessions

abbrev without_all : Dict ℕ ℕ → List ℕ → Dict ℕ ℕ
without_all sessions [] = sessions
without_all sessions (addr ∷ addrs) = without_all (remove addr sessions) addrs

abbrev pub clean_client : Env → ℕ → Option ClientInfo → Exec (Unit {0})
clean_client env addr none = modify (λ s. (remove_client s addr).1)
clean_client env addr (some c) = ended env (codes "timeout") addr (some c)

unfoldable pub clean_up : Env → ℕ → Exec (Unit {0})
clean_up env addr = do c ← gets (λ s. get_client s addr); clean_client env addr c

unfoldable cleanup_task : Env → Dict ℕ ℕ → World → (Result (Unit {0}) × World) × Dict ℕ ℕ
cleanup_task env sessions w =
    let to_remove = expired env.now sessions in
    (for_each (clean_up env) to_remove w, without_all sessions to_remove)

-- The last packet of a client whose handshake is not done.
abbrev last_packet : ClientInfo → Option Bytes
last_packet c = elim c.game_id [
  | some id ↦ none
  | none ↦ if leb c.ack_count num_acks_for_speed_test then c.packet_generator.last_sent else none
]

abbrev pending_for : ℕ → Option ClientInfo → List (ℕ × Bytes)
pending_for addr none = []
pending_for addr (some c) = elim (last_packet c) [ none ↦ [] | some bytes ↦ (addr, bytes) ∷ [] ]

abbrev pending_in : Dict ℕ ClientInfo → Dict ℕ ℕ → List (ℕ × Bytes)
pending_in ids [] = []
pending_in ids ((addr, id) ∷ m) = pending_for addr (lookup id ids) ++ pending_in ids m

-- The packets are sent again as they were.
unfoldable pub login_resend_task : Exec (Unit {0})
login_resend_task = do
  pending ← gets (λ s. pending_in s.clients_by_id s.clients_by_addr)
  for_each (λ (p : ℕ × Bytes). emit p.0 p.1) pending
