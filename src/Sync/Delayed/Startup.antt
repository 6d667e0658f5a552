-- ===== src/Sync/Delayed/Startup.antt =====
-- Which input `DelayedGameSync` hands to the engine, by the number of the player's inputs before it.
use direlera_rs.Prelude.{
  ℕ, ◌-◌, ◌*◌, ◌<◌, ◌≤◌, ◌≡◌, ◌⊎◌, false, none, List, [], ◌∷◌, ◌++◌, Bytes, length, get_or, take,
  drop, replicate, min, ltb, if◌then◌else◌,
}
use direlera_rs.Sync.Outcome.{ok, ◌>>=◌}
use direlera_rs.Sync.Cached.{CachedGameSync, ClientInput, Reply, make_cached_output}
use direlera_rs.Sync.Cached
use direlera_rs.Sync.Delayed.{DelayedGameSync, deliver}

-- A player with `total` startup frames who gave the inputs `given`: it was sent a startup frame for each
-- of the first `total`, and those of them that were not handed over yet are saved.
pub record Gave (d : DelayedGameSync) (i total : ℕ) (given : List Bytes) : Type 0 where
  pub delay : get_or d.total_delays i 0 ≡ total
  pub counted : get_or d.warmup_sent i 0 ≡ min (length given) total
  pub saved : get_or d.queues i [] ≡ drop (length given - total) (take total given)
  pub has_queue : i < length d.queues
  pub has_count : i < length d.warmup_sent

-- The input that is due when a further one comes: a saved one while there is any, then that one.
abbrev pub due : ℕ → List Bytes → Bytes → Bytes
due total given bytes =
    if ltb (length given) (2 * total) then get_or given (length given - total) [] else bytes

-- The outcome of an input after those given.
abbrev pub Delivers : DelayedGameSync → ℕ → ℕ → List Bytes → Bytes → Type 0
Delivers d i total given bytes =
    ((length given < total)
      × ((d' : DelayedGameSync) × (let answer =
              make_cached_output d.inner i (replicate (d.player_count * d.frame_size) 0) in
            (deliver d i bytes
              ≡ ok ((record { player_id = i; response = answer.0.0 } ∷ [], false, none), d'))
            × (d'.inner ≡ answer.1))
          × Gave d' i total (given ++ bytes ∷ [])))
    ⊎ ((total ≤ length given)
        × ((qs : List (List Bytes)) × (deliver d i bytes ≡ (
              Cached.process_client_input d.inner i (ClientInput.game_data (due total given bytes))
              >>= λ (reply, inner'). ok (reply, record d { queues = qs; inner = inner' })))
            × Gave (record d { queues = qs }) i total (given ++ bytes ∷ [])))

abbrev first_of : List Bytes → Bytes → Bytes
first_of [] bytes = bytes
first_of (b ∷ bs) bytes = b
