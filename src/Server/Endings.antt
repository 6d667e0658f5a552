-- ===== src/Server/Endings.antt =====
-- The end of a session in src/session_manager.rs: nothing fails, and the client is gone.
use direlera_rs.Prelude.{ℕ, ◌≡◌, refl, Option, none, some, Option-cases, Bytes, nat_eq, inl, inr}
use direlera_rs.Dict.{lookup}
use direlera_rs.State.{
  ClientInfo, AppState, get_client, remove_client, update_client, update_client_activity, or_same,
}
use direlera_rs.State.Lookup.{lookup-remove_self}
use direlera_rs.Server.{World, Env, Result, ok, err, panics, loops, Exec, pure, gets, modify}
use direlera_rs.Server.Status.{codes}
use direlera_rs.Server.User.{quit_if_in_game, ended, end_session}
use direlera_rs.Server.Sessions.{Identity, timeout_notice, silent, time_out, clean_client, clean_up}
use direlera_rs.Server.Triple.{Cond, After, Triple, Triple-bind, Triple-modify, Triple-attempt}
use direlera_rs.Server.Quiet.{Keeps-broadcast_packet}
use direlera_rs.Server.Rooms.{IsServer}
use direlera_rs.Server.Leaving.{IsServer-IsStable}
use direlera_rs.Server.Quitting.{handle_quit_game-IsServer}
use direlera_rs.Server.Users.{Triple-change, remove_client-IsServer, quit_said-Keeps}

abbrev Never : Cond
Never s = ⊥

-- From a well-formed server to a well-formed server, without an error.
abbrev Safe : {A : Type 0} → Exec A → Type 0
Safe m = Triple IsServer m IsServer Never

Safe-pure : {A : Type 0} (a : A) → Safe (pure a)
Safe-pure a = record { at = λ w v. v }

Safe-gets : {A : Type 0} (f : AppState → A) → Safe (gets f)
Safe-gets f = record { at = λ w v. v }

quit_if_in_game-Safe :
    (env : Env) (addr : ℕ) (game_id : Option ℕ) → Safe (quit_if_in_game env addr game_id)
quit_if_in_game-Safe env addr none = Safe-pure tt
quit_if_in_game-Safe env addr (some game_id) = Triple-attempt _ (handle_quit_game-IsServer env addr)

ended-Safe :
    (env : Env) (reason : Bytes) (addr : ℕ) (o : Option ClientInfo) → Safe (ended env reason addr o)
ended-Safe env reason addr none = Safe-pure tt
ended-Safe env reason addr (some c) = Triple-bind _ _ (quit_if_in_game-Safe env addr c.game_id) λ _.
    Triple-bind _ _ (Triple-change _ (remove_client-IsServer addr))
      λ gone. Triple-attempt _ (quit_said-Keeps reason gone)

notice-Safe : (env : Env) (addr : ℕ) (i : Identity) → Safe (timeout_notice env addr i)
unfolding timeout_notice
notice-Safe env addr (name, user_id) =
    Triple-attempt _ (Keeps-broadcast_packet IsServer-IsStable _ _)

silent-Safe :
    (env : Env) (addr : ℕ) (i : Option Identity) (o : Option ClientInfo)
    → Safe (silent env addr i o)
silent-Safe env addr none none = Safe-pure tt
silent-Safe env addr (some i) none = notice-Safe env addr i
silent-Safe env addr i (some c) =
    Triple-bind _ _ (notice-Safe env addr _) (λ _. ended-Safe env (codes "timeout") addr (some c))

-- A client that is removed is not found.
get_client-removed : (s : AppState) (addr : ℕ) → get_client (remove_client s addr).1 addr ≡ none
unfolding get_client remove_client
get_client-removed s addr = elim (Option-cases (lookup addr s.clients_by_addr)) [
  | inl no_one ↦ rw (no_one, no_one) refl
  | inr (id, there) ↦ rw (there, lookup-remove_self addr s.clients_by_addr) refl
]

-- No client of the address is left.
abbrev Left : ℕ → Cond
Left addr s = (get_client s addr ≡ none) × IsServer s

removed : (addr : ℕ) → Triple IsServer (modify (λ s. (remove_client s addr).1)) (Left addr) Never
removed addr = Triple-modify _ (λ s v. (get_client-removed s addr, remove_client-IsServer addr s v))

end_session-Left :
    (env : Env) (reason : Bytes) (addr : ℕ)
    → Triple IsServer (end_session env reason addr) (Left addr) Never
unfolding end_session
end_session-Left env reason addr =
    Triple-bind _ _ (Safe-gets _)
      λ c. Triple-bind _ _ (ended-Safe env reason addr c) λ _. removed addr

time_out-Left :
    (env : Env) (addr : ℕ) (i : Option Identity)
    → Triple IsServer (time_out env addr i) (Left addr) Never
unfolding time_out
time_out-Left env addr i =
    Triple-bind _ _ (Safe-gets _) λ c. Triple-bind _ _ (silent-Safe env addr i c) λ _. removed addr

clean_up-Safe : (env : Env) (addr : ℕ) → Safe (clean_up env addr)
unfolding clean_up
clean_up-Safe env addr = Triple-bind _ _ (Safe-gets _) at
  where
    at : (o : Option ClientInfo) → Safe (clean_client env addr o)
    at none = Triple-modify _ (remove_client-IsServer addr)
    at (some c) = ended-Safe env (codes "timeout") addr (some c)

pub activity-IsServer :
    (now addr : ℕ) (s : AppState) → IsServer s → IsServer (update_client_activity now s addr)
unfolding update_client_activity
activity-IsServer now addr s v = at (update_client s addr _) refl
  where
    at :
        (o : Option AppState)
        → update_client s addr (λ c. record c { last_activity_secs = now }) ≡ o
        → IsServer (or_same s o)
    at none e = v
    at (some s') e = IsServer-IsStable.keeps s s' addr _ (λ c. refl) e v

-- What a session leaves behind when it ends.
abbrev pub Ends : ℕ → Result (Unit {0}) × World → Type 0
Ends addr r = (r.0 ≡ ok tt) × (get_client r.1.app addr ≡ none) × IsServer r.1.app

ends :
    (addr : ℕ) (r : Result (Unit {0}) × World) → After (Left addr) Never r.0 r.1.app → Ends addr r
ends addr (ok a, w) (h, v) = (refl, h, v)
ends addr (err e, w) h = absurd h
ends addr (panics, w) h = absurd h
ends addr (loops, w) h = absurd h

safely :
    (r : Result (Unit {0})) (s : AppState) → After IsServer Never r s → (r ≡ ok tt) × IsServer s
safely (ok tt) s v = (refl, v)
safely (err e) s v = absurd v
safely panics s v = absurd v
safely loops s v = absurd v

pub cleaned_up :
    (env : Env) (addr : ℕ) (w : World)
    → IsServer w.app
    → ((clean_up env addr w).0 ≡ ok tt) × IsServer (clean_up env addr w).1.app
cleaned_up env addr w v =
    safely (clean_up env addr w).0 (clean_up env addr w).1.app ((clean_up-Safe env addr).at w v)

-- From every state of the server in which the rooms are well formed, the end of a session, whether it was
-- closed or timed out, comes to its end without an error, in whatever game the client was; no client of
-- its address is left, and the rooms stay well formed.
pub end_of_session :
    (env : Env) (reason : Bytes) (addr : ℕ) (i : Option Identity) (w : World)
    → IsServer w.app
    → Ends addr (end_session env reason addr w) × Ends addr (time_out env addr i w)
end_of_session env reason addr i w v = (
  ends addr (end_session env reason addr w) ((end_session-Left env reason addr).at w v),
  ends addr (time_out env addr i w) ((time_out-Left env addr i).at w v),
)
