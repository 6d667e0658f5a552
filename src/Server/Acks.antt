-- ===== src/Server/Acks.antt =====
-- The counter of `handle_client_to_server_ack` in src/handlers/mod.rs at its bound.
use direlera_rs.Prelude.{ℕ, ◌<◌, ◌+◌, ◌-◌, ◌%◌, ◌≡◌, refl, sym, ◌∙◌, some, arith, inl, inr, ◌⊎◌}
use native.Mathlib.Decide.{dec_lt}
use direlera_rs.State.{ClientInfo, AppState, get_client}
use direlera_rs.Server.{World, Env, Result, ok, err, panics, loops, ◌>>=◌}
use direlera_rs.Server.Ack.{counted, handle_client_to_server_ack}
use direlera_rs.Server.Triple.{Cond, After}
use direlera_rs.Server.Quiet.{IsStable}
use direlera_rs.Server.Starts.{handle_ack-Keeps}
use direlera_rs.Server.Messages.{Returns}
use direlera_rs.Server.Handshake.{change_known}

abbrev anything : Cond
anything s = Unit

anything-IsStable : IsStable anything
anything-IsStable = record { keeps = λ s s' addr f h e v. tt }

returned : (r : Result (Unit {0})) (s : AppState) → After anything anything r s → Returns r
returned (ok a) s v = inl refl
returned (err e) s v = inr (e, refl)
returned panics s v = absurd v
returned loops s v = absurd v

-- The client of the address, with the count at 0 and the round trip in the total.
abbrev pub IsWrapped : Env → ℕ → ℕ → ClientInfo → World → Type 0
IsWrapped env src sent c w =
    (d : ClientInfo) × (get_client w.app src ≡ some d)
    × (d.ack_count ≡ 0)
    × (d.ping_total ≡ c.ping_total + (env.now - sent))

wraps :
    (env : Env) (src sent : ℕ) (w : World) (c : ClientInfo)
    → get_client w.app src ≡ some c
    → c.last_ping_time ≡ some sent
    → c.ack_count ≡ 65535
    → let r = handle_client_to_server_ack env src w in (r.0 ≡ panics) × IsWrapped env src sent c r.1
unfolding ◌>>=◌ handle_client_to_server_ack
wraps env src sent w c k l full =
    let at_0 : (c.ack_count + 1) % 65536 ≡ 0 = omega arith in
    let (e, q) = change_known w src (counted env sent) c k in
    rw (k, l, at_0, e) (refl, (counted env sent c, q, at_0, refl))

-- An acknowledgement of a client whose last packet time is known comes back where the client's counter
-- is below 65535. At 65535, the only other value of a `u16`, the counter wraps to 0, and the mean round
-- trip is a division by it, which ends the task with a panic; the client is left with the count 0 and the
-- raised total.
pub ack_bound :
    (env : Env) (src sent : ℕ) (w : World) (c : ClientInfo)
    → get_client w.app src ≡ some c
    → c.last_ping_time ≡ some sent
    → c.ack_count < 65536
    → let r = handle_client_to_server_ack env src w in
      ((c.ack_count < 65535) × Returns r.0)
      ⊎ ((c.ack_count ≡ 65535) × (r.0 ≡ panics) × IsWrapped env src sent c r.1)
ack_bound env src sent w c k l h = elim (dec_lt c.ack_count 65535) [
  | yes below ↦ inl (
    below,
    returned (handle_client_to_server_ack env src w).0 (handle_client_to_server_ack env src w).1.app
        ((handle_ack-Keeps anything-IsStable env src).at w (
          tt,
          (λ d q. let z : some c ≡ some d = sym k ∙ q in let y : c ≡ d = cc in rw y at below),
        )),
  )
  | no above ↦
      let full : c.ack_count ≡ 65535 = omega arith in
      let z = wraps env src sent w c k l full in inr (full, z.0, z.1)
]
