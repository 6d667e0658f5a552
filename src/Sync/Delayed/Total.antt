-- ===== src/Sync/Delayed/Total.antt =====
-- Which calls on `DelayedGameSync` return, and which errors the others give.
use direlera_rs.Prelude.{
  ℕ, ◌≤◌, ◌<◌, ◌≡◌, refl, none, some, List, [], ◌∷◌, Bytes, arith, length, get_or, set, Bool-cases,
  Option-cases, inl, inr, ◌⊎◌, leb, leb→le,
}
use direlera_rs.Sync.Outcome.{invalid_player_id, cache_position_not_found, Outcome, ok, err}
use direlera_rs.Sync.Cache.{InputCache, get, push}
use direlera_rs.Sync.Cached.{CachedPlayerOutput, ClientInput, Reply, cache, resolve}
use direlera_rs.Sync.Cached.Calls
use direlera_rs.Sync.Delayed.{
  DelayedGameSync, noted, warm_up, warming, forward, catch_up, deliver, process_client_input,
  cleared, mark_player_dropped,
}
use direlera_rs.Sync.Delayed.Calls.{delays, IsValid}

forward-total :
    (d : DelayedGameSync) (i : ℕ) (bytes : Bytes)
    → Calls.IsValid d.inner
    → i < length (delays d)
    → (r : Reply × DelayedGameSync) × (forward d i bytes ≡ ok r)
unfolding forward
forward-total d i bytes v h =
    let (a, e) = Calls.process_client_input-serves d.inner i bytes v h in
    ((a.0, record d { inner = a.1 }), rw e refl)

catch_up-total :
    (d : DelayedGameSync) (i : ℕ) (bytes : Bytes) (saved : List Bytes)
    → Calls.IsValid d.inner
    → i < length (delays d)
    → (r : Reply × DelayedGameSync) × (catch_up d i bytes saved ≡ ok r)
unfolding catch_up
catch_up-total d i bytes [] v h = forward-total d i bytes v h
catch_up-total d i bytes (due ∷ rest) v h =
    forward-total (record d { queues = set d.queues i rest }) i due v h

deliver-total :
    (d : DelayedGameSync) (i : ℕ) (bytes : Bytes)
    → Calls.IsValid d.inner
    → i < length (delays d)
    → (r : Reply × DelayedGameSync) × (deliver d i bytes ≡ ok r)
unfolding deliver
deliver-total d i bytes v h = elim (Bool-cases (warming d i)) [
  | inl w ↦ (warm_up d i bytes, rw (w, deliver))
  | inr done ↦
      let (r, e) = catch_up-total d i bytes (get_or d.queues i []) v h in (r, rw (done, deliver) e)
]

-- The three ways in which a call can end.
abbrev pub Ends : DelayedGameSync → ℕ → ClientInput → Outcome (Reply × DelayedGameSync) → Type 0
Ends d i input o =
    ((d.player_count ≤ i) × (o ≡ err (invalid_player_id i d.player_count)))
    ⊎ ((pos : ℕ) × (input ≡ ClientInput.game_cache pos)
        × (get (cache d.input_caches i) pos ≡ none)
        × (o ≡ err (cache_position_not_found i pos)))
    ⊎ ((r : Reply × DelayedGameSync) × (o ≡ ok r))

resolve_data :
    (cs : List InputCache) (i : ℕ) (bytes : Bytes)
    → resolve cs i (ClientInput.game_data bytes) ≡ ok (bytes, set cs i (push (cache cs i) bytes).0)
unfolding resolve
resolve_data cs i bytes = refl

resolve_missing :
    (cs : List InputCache) (i pos : ℕ)
    → get (cache cs i) pos ≡ none
    → resolve cs i (ClientInput.game_cache pos) ≡ err (cache_position_not_found i pos)
unfolding resolve
resolve_missing cs i pos e = rw (e, resolve)

resolve_found :
    (cs : List InputCache) (i pos : ℕ) (bytes : Bytes)
    → get (cache cs i) pos ≡ some bytes
    → resolve cs i (ClientInput.game_cache pos) ≡ ok (bytes, cs)
unfolding resolve
resolve_found cs i pos bytes e = rw (e, resolve)

-- In a valid state a call is refused only for a player that is out of range, or for a cache
-- position that the player's input cache does not hold; every other call returns.
pub process_client_input-Ends :
    (d : DelayedGameSync) (i : ℕ) (input : ClientInput)
    → IsValid d
    → Ends d i input (process_client_input d i input)
unfolding process_client_input
process_client_input-Ends d i (ClientInput.game_data bytes) v =
    elim (Bool-cases (leb d.player_count i)) [
      | inl out ↦ inl (leb→le d.player_count i out, rw out)
      | inr inside ↦
          let caches = set d.input_caches i (push (cache d.input_caches i) bytes).0 in
          let (r, e) =
            deliver-total (noted d caches bytes) i bytes v.inner
              (let c = v.count in ground arith) in
          inr (inr (r, rw inside (rw (resolve_data d.input_caches i bytes) e)))
    ]
process_client_input-Ends d i (ClientInput.game_cache pos) v =
    elim (Bool-cases (leb d.player_count i)) [
      | inl out ↦ inl (leb→le d.player_count i out, rw out)
      | inr inside ↦ elim (Option-cases (get (cache d.input_caches i) pos)) [
        | inl missing ↦ inr (
            inl (
              pos,
              refl,
              missing,
              rw inside (rw (resolve_missing d.input_caches i pos missing) refl),
            ))
        | inr (bytes, found) ↦
            let (r, e) =
              deliver-total (noted d d.input_caches bytes) i bytes v.inner
                (let c = v.count in ground arith) in
            inr (inr (r, rw inside (rw (resolve_found d.input_caches i pos bytes found) e)))
      ]
    ]

-- The drop of a player that is in range always returns.
pub mark_player_dropped-total :
    (d : DelayedGameSync) (i : ℕ)
    → IsValid d
    → i < length (delays d)
    → (r : List CachedPlayerOutput × DelayedGameSync) × (mark_player_dropped d i ≡ ok r)
unfolding mark_player_dropped
mark_player_dropped-total d i v h =
    let (a, e) = Calls.mark_player_dropped-serves d.inner i v.inner h in
    ((a.0, record (cleared d i) { inner = a.1 }), rw e refl)
