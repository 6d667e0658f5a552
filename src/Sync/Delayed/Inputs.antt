-- ===== src/Sync/Delayed/Inputs.antt =====
-- What an input to `DelayedGameSync` does to the players: who is answered, and who is dropped.
use direlera_rs.Prelude.{
  ℕ, ◌<◌, ◌≡◌, List, [], ◌∷◌, Bytes, arith, length, All, Bool-cases, inl, inr, leb, subst, ap,
  get_or, set,
}
use direlera_rs.Sync.Outcome.{ok, >>=-eq-ok}
use direlera_rs.Sync.Cached.{
  CachedGameSync, CachedPlayerOutput, ClientInput, ServerResponse, Reply, resolve,
  make_cached_output,
}
use direlera_rs.Sync.Cached
use direlera_rs.Sync.Cached.Calls
use direlera_rs.Sync.Core
use direlera_rs.Sync.Cached.Ids.{
  IsAddressed, process_client_input-IsAddressed, process_client_input-flags,
}
use direlera_rs.Sync.Cached.Invariant.{make_cached_output-Stored}
use direlera_rs.Sync.Delayed.{
  DelayedGameSync, process_client_input, deliver, warm_up, catch_up, forward, noted, warming,
  zero_frame,
}
use direlera_rs.Sync.Delayed.Calls.{IsValid, delays}

-- The answers are for players that exist, and no one is dropped or brought back.
abbrev pub IsQuiet : CachedGameSync → Reply × DelayedGameSync → Type 0
IsQuiet c r =
    All (IsAddressed (length c.sync.player_delays)) r.0.0
    × (r.1.inner.sync.dropped_players ≡ c.sync.dropped_players)

forward-IsQuiet :
    (d : DelayedGameSync) (i : ℕ) (bytes : Bytes) (r : Reply × DelayedGameSync)
    → Cached.Calls.IsValid d.inner
    → forward d i bytes ≡ ok r
    → IsQuiet d.inner r
unfolding forward
forward-IsQuiet d i bytes r v e =
    let (a, p, q) =
      >>=-eq-ok (Cached.process_client_input d.inner i (ClientInput.game_data bytes)) _ e in
    let z : (a.0, record d { inner = a.1 }) ≡ r = cc in
    subst (IsQuiet d.inner) z (
      process_client_input-IsAddressed d.inner i (ClientInput.game_data bytes) a v p,
      process_client_input-flags d.inner i (ClientInput.game_data bytes) a v p,
    )

catch_up-IsQuiet :
    (d : DelayedGameSync) (i : ℕ) (bytes : Bytes) (saved : List Bytes) (r : Reply × DelayedGameSync)
    → Cached.Calls.IsValid d.inner
    → catch_up d i bytes saved ≡ ok r
    → IsQuiet d.inner r
unfolding catch_up
catch_up-IsQuiet d i bytes [] r v e = forward-IsQuiet d i bytes r v e
catch_up-IsQuiet d i bytes (due ∷ rest) r v e =
    forward-IsQuiet (record d { queues = set d.queues i rest }) i due r v e

warm_up-IsQuiet :
    (d : DelayedGameSync) (i : ℕ) (bytes : Bytes)
    → Cached.Calls.IsValid d.inner
    → i < length (delays d)
    → IsQuiet d.inner (warm_up d i bytes)
unfolding warm_up
warm_up-IsQuiet d i bytes v h =
    let s = make_cached_output-Stored d.inner i (zero_frame d) v.output_valid v.mode in
    ((h, tt), ap (λ (y : Core.SimplestGameSync). y.dropped_players) s.engine)

deliver-IsQuiet :
    (d : DelayedGameSync) (i : ℕ) (bytes : Bytes) (r : Reply × DelayedGameSync)
    → Cached.Calls.IsValid d.inner
    → i < length (delays d)
    → deliver d i bytes ≡ ok r
    → IsQuiet d.inner r
unfolding deliver
deliver-IsQuiet d i bytes r v h e = elim (Bool-cases (warming d i)) [
  | inl early ↦
      let w : ok (warm_up d i bytes) ≡ ok r = rw (early, deliver) at e in
      let z : warm_up d i bytes ≡ r = cc in
      subst (IsQuiet d.inner) z (warm_up-IsQuiet d i bytes v h)
  | inr late ↦ catch_up-IsQuiet d i bytes (get_or d.queues i []) r v (rw (late, deliver) at e)
]

-- An input of whatever kind answers only players that exist, and drops no one.
pub process_client_input-IsQuiet :
    (d : DelayedGameSync) (i : ℕ) (input : ClientInput) (r : Reply × DelayedGameSync)
    → IsValid d
    → process_client_input d i input ≡ ok r
    → IsQuiet d.inner r
unfolding process_client_input
process_client_input-IsQuiet d i input r v e = elim (Bool-cases (leb d.player_count i)) [
  | inl out ↦ let z = rw (out, process_client_input) at e in cc
  | inr inside ↦
      let (a, p, e₁) =
        >>=-eq-ok (resolve d.input_caches i input) _ (rw (inside, process_client_input) at e) in
      deliver-IsQuiet (noted d a.1 a.0) i a.0 r v.inner (let c = v.count in ground arith) e₁
]
