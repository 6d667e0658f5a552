-- ===== src/Server/Messages.antt =====
-- `handle_message` of src/handlers/mod.rs on the whole server: whatever is sent to it, the rooms stay
-- well formed.
use direlera_rs.Prelude.{
  ℕ, ◌≡◌, refl, Bool, true, false, Option, none, [], Bytes, ◌==◌, ==_iff, inl, inr, ◌⊎◌,
  if◌then◌else◌,
}
use direlera_rs.Protocol.Parse.{get_u16_le}
use direlera_rs.Packet.{read_string_bytes}
use direlera_rs.State.{AppState, new, update_client_activity}
use direlera_rs.Server.{World, Env, Error, Result, ok, err, panics, loops, Exec}
use direlera_rs.Server.MessageType
use direlera_rs.Server.User.{end_session}
use direlera_rs.Server.Sessions.{Identity, time_out, clean_up}
use direlera_rs.Server.Endings.{end_of_session, cleaned_up, activity-IsServer}
use direlera_rs.Server.Dispatch.{handle_game_message, handle_room_message, handle_message}
use direlera_rs.Server.Triple.{Cond, After, Triple, Keeps, Keeps-pure, Keeps-if, weaken}
use direlera_rs.Server.Rooms.{IsServer, new-IsServer}
use direlera_rs.Server.Leaving.{IsServer-IsStable}
use direlera_rs.Server.Quitting.{handle_quit_game-IsServer}
use direlera_rs.Server.Inputs.{
  handle_drop_game-IsServer, handle_game_data-IsServer, handle_game_cache-IsServer,
}
use direlera_rs.Server.Kicking.{IsOther, handle_kick_user-IsServer}
use direlera_rs.Server.Users.{
  handle_user_login-IsServer, handle_user_quit-IsServer, handle_global_chat-IsServer,
  handle_game_chat-IsServer,
}
use direlera_rs.Server.Lobbies.{handle_create_game-IsServer}
use direlera_rs.Server.Joining.{handle_join_game-IsServer}
use direlera_rs.Server.Starts.{
  AcksLeft, handle_start_game-IsServer, handle_ready-IsServer, handle_ack-Keeps,
}

-- A call that came back, with a value or an error.
abbrev pub Returns : Result (Unit {0}) → Type 0
Returns r = (r ≡ ok tt) ⊎ ((e : Error) × (r ≡ err e))

-- Each branch of a test, with what the test tells.
by_test :
    {P S E : Cond} (b : Bool) (m n : Exec (Unit {0}))
    → (b ≡ true → Triple P m S E)
    → Triple P n S E
    → Triple P (if b then m else n) S E
by_test true m n h k = h refl
by_test false m n h k = k

module _ (env : Env) (t : ℕ) (payload : Bytes) (src : ℕ)
    (cached : env.disable_output_cache ≡ false) where
  game_message-Keeps : Keeps IsServer (handle_game_message env t payload src)
  game_message-Keeps =
      Keeps-if (t == MessageType.start_game) _ _ (handle_start_game-IsServer env payload src cached)
        (Keeps-if (t == MessageType.game_data) _ _ (handle_game_data-IsServer env payload src) (
          Keeps-if (t == MessageType.game_cache) _ _ (handle_game_cache-IsServer env payload src) (
            Keeps-if (t == MessageType.drop_game) _ _ (handle_drop_game-IsServer env src) (
              Keeps-if (t == MessageType.ready_to_play) _ _ (handle_ready-IsServer payload src)
                (Keeps-pure tt)))))

  abbrev Kick : Cond
  Kick s = t ≡ MessageType.kick_user → IsOther s (get_u16_le (read_string_bytes payload).1) src

  abbrev Ack : Cond
  Ack s = t ≡ MessageType.client_to_server_ack → AcksLeft s src

  quietly :
      (m : Exec (Unit {0}))
      → Keeps IsServer m
      → Triple (λ s. IsServer s × Kick s) m IsServer IsServer
  quietly m = weaken m (λ s p. p.0) (λ s p. p) (λ s p. p)

  room_message :
      Triple (λ s. IsServer s × Kick s) (handle_room_message env t payload src) IsServer IsServer
  room_message =
      by_test (t == MessageType.create_game) _ _
        (λ _. quietly _ (handle_create_game-IsServer env payload src))
        (by_test (t == MessageType.quit_game) _ _
          (λ _. quietly _ (handle_quit_game-IsServer env src))
          (by_test (t == MessageType.join_game) _ _
            (λ _. quietly _ (handle_join_game-IsServer env payload src))
            (by_test (t == MessageType.kick_user) _ _
              (λ e.
                weaken _ (λ s p. (p.0, p.1 ((==_iff t MessageType.kick_user).0 e))) (λ s p. p)
                  (λ s p. p) (handle_kick_user-IsServer env payload src))
              (quietly _ game_message-Keeps))))

  plainly :
      (m : Exec (Unit {0}))
      → Keeps IsServer m
      → Triple (λ s. (IsServer s × Kick s) × Ack s) m IsServer IsServer
  plainly m = weaken m (λ s p. p.0.0) (λ s p. p) (λ s p. p)

  any_message :
      Triple
        (λ s. (IsServer s × Kick s) × Ack s)
        (handle_message env t payload src)
        IsServer
        IsServer
  unfolding handle_message
  any_message =
      by_test (t == MessageType.user_quit) _ _
        (λ _. plainly _ (handle_user_quit-IsServer env payload src))
        (by_test (t == MessageType.user_login) _ _
          (λ _. plainly _ (handle_user_login-IsServer env payload src))
          (by_test (t == MessageType.client_to_server_ack) _ _
            (λ e.
              weaken _ (λ s p. (p.0.0, p.1 ((==_iff t MessageType.client_to_server_ack).0 e)))
                (λ s p. p) (λ s p. p) (handle_ack-Keeps IsServer-IsStable env src))
            (by_test (t == MessageType.global_chat) _ _
              (λ _. plainly _ (handle_global_chat-IsServer payload src))
              (by_test (t == MessageType.game_chat) _ _
                (λ _. plainly _ (handle_game_chat-IsServer payload src))
                (by_test (t == MessageType.client_keep_alive) _ _ (λ _. plainly _ (Keeps-pure tt))
                  (weaken _ (λ s p. p.0) (λ s p. p) (λ s p. p) room_message))))))

returned :
    (r : Result (Unit {0})) (s : AppState) → After IsServer IsServer r s → Returns r × IsServer s
returned (ok a) s v = (inl refl, v)
returned (err e) s v = (inr (e, refl), v)
returned panics s v = absurd v
returned loops s v = absurd v

-- Any message, of whatever type and payload, from any address, to a server in which every room is well
-- formed, not empty and listed under its number and every client has the connection type of a LAN, comes
-- back with a value or an error, and leaves the server so; the output cache has to be in use, a kick
-- has to be of a client at another address, and an acknowledgement must find its client's counter below
-- 65535.
pub handle_message-IsServer :
    (env : Env) (t : ℕ) (payload : Bytes) (src : ℕ) (w : World)
    → env.disable_output_cache ≡ false
    → (t ≡ MessageType.kick_user → IsOther w.app (get_u16_le (read_string_bytes payload).1) src)
    → (t ≡ MessageType.client_to_server_ack → AcksLeft w.app src)
    → IsServer w.app
    → Returns (handle_message env t payload src w).0
      × IsServer (handle_message env t payload src w).1.app
handle_message-IsServer env t payload src w cached kick ack v =
    let (r, w') = handle_message env t payload src w in
    returned r w'.app ((any_message env t payload src cached).at w ((v, kick), ack))

abbrev pub empty_world : World
empty_world = record { app = new; sent = []; closed = [] }

-- The states of a server with the output cache in use: messages are handled, activity is noted, and
-- sessions are closed, time out or are cleaned up, one after the other, in any order; no one kicks
-- their own address, and no counter of acknowledgements is at its end when one comes.
pub data Reach : World → Type 0 where
  started : Reach empty_world
  message :
      {w : World}
      → Reach w
      → (env : Env) (t : ℕ) (payload : Bytes) (src : ℕ) → env.disable_output_cache ≡ false
      → (t ≡ MessageType.kick_user → IsOther w.app (get_u16_le (read_string_bytes payload).1) src)
      → (t ≡ MessageType.client_to_server_ack → AcksLeft w.app src)
      → Reach (handle_message env t payload src w).1
  closed :
      {w : World}
      → Reach w
      → (env : Env) (reason : Bytes) (addr : ℕ) → Reach (end_session env reason addr w).1
  timed_out :
      {w : World}
      → Reach w
      → (env : Env) (addr : ℕ) (i : Option Identity) → Reach (time_out env addr i w).1
  cleaned : {w : World} → Reach w → (env : Env) (addr : ℕ) → Reach (clean_up env addr w).1
  active :
      {w : World}
      → Reach w
      → (now addr : ℕ) → Reach (record w { app = update_client_activity now w.app addr })

-- In every state that a server with the output cache in use comes to, by any messages, ends, timeouts
-- and cleanups of sessions, without a kick of one's own address and without an overflow of an
-- acknowledgement counter, every room is well formed, not empty and listed under its number, and every
-- client has the connection type of a LAN.
pub Reach-IsServer : {w : World} → Reach w → IsServer w.app
Reach-IsServer started = new-IsServer
Reach-IsServer (message {w} r env t payload src cached kick ack) =
    (handle_message-IsServer env t payload src w cached kick ack (Reach-IsServer r)).1
Reach-IsServer (closed {w} r env reason addr) =
    (end_of_session env reason addr none w (Reach-IsServer r)).0.2
Reach-IsServer (timed_out {w} r env addr i) =
    (end_of_session env [] addr i w (Reach-IsServer r)).1.2
Reach-IsServer (cleaned {w} r env addr) = (cleaned_up env addr w (Reach-IsServer r)).1
Reach-IsServer (active {w} r now addr) = activity-IsServer now addr w.app (Reach-IsServer r)
