-- ===== src/Server/Input.antt =====
-- `handle_game_data` and `handle_game_cache` of src/handlers/sync.rs, with the packets that they send;
-- what they do to the room is in Play.
use direlera_rs.Prelude.{ℕ, Bytes}
use direlera_rs.Sync.Outcome.{Outcome}
use direlera_rs.State.{AppState}
use direlera_rs.Play.{Send, Handled, ignored, done, failed}
use direlera_rs.Play
use direlera_rs.Server.{
  World, Env, Result, err, loops, Exec, ◌>>◌, pure, raise, for_each, game_sync_error,
}
use direlera_rs.Server.Send.{send_packet}

abbrev pub send : Env → Send → Exec (Unit {0})
send env s = send_packet env s.addr s.message_type s.payload

-- A failure that is told to the client is still a failure.
abbrev pub answered : Env → Handled → Exec (Unit {0})
answered env ignored = pure tt
answered env (done sends) = for_each (send env) sends
answered env (failed sends) = for_each (send env) sends >> raise game_sync_error

abbrev pub after : Env → World → Outcome (Handled × AppState) → Result (Unit {0}) × World
after env w (Outcome.ok (h, s)) = answered env h (record w { app = s })
after env w (Outcome.err e) = (err game_sync_error, w)
after env w Outcome.loops = (loops, w)

unfoldable pub handle_game_data : Env → Bytes → ℕ → Exec (Unit {0})
handle_game_data env payload src w = after env w (Play.handle_game_data w.app src payload)

unfoldable pub handle_game_cache : Env → Bytes → ℕ → Exec (Unit {0})
handle_game_cache env payload src w = after env w (Play.handle_game_cache w.app src payload)
