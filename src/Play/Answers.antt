-- ===== src/Play/Answers.antt =====
-- What an input of src/handlers/sync.rs does to a live room, and who is answered.
use direlera_rs.Prelude.{
  ℕ, zero, suc, ◌<◌, ◌≡◌, refl, Option, none, some, List, [], ◌∷◌, arith, length, map, get_elem?,
  All, inl, inr, ◌⊎◌, ap, sym, ◌∙◌, subst,
}
use direlera_rs.Sync.Outcome.{cache_position_not_found, ok}
use direlera_rs.Sync.Cache.{get}
use direlera_rs.Sync.Core.{all_true}
use direlera_rs.Sync.Core
use direlera_rs.Sync.Cached.{ClientInput, ServerResponse, CachedPlayerOutput, Reply, cache}
use direlera_rs.Sync.Cached.Ids.{IsAddressed}
use direlera_rs.Sync.Delayed.{DelayedGameSync, all_players_dropped}
use direlera_rs.Sync.Delayed
use direlera_rs.Sync.Delayed.Steps.{Serves, process_client_input-Serves}
use direlera_rs.Sync.Delayed.Total.{process_client_input-Ends}
use direlera_rs.Sync.Delayed.Inputs.{process_client_input-IsQuiet}
use direlera_rs.Room.{GamePlayerInfo, GameInfo, position}
use direlera_rs.Room.Players.{position-lt}
use direlera_rs.Room.Invariant.{Live, IsRoom}
use direlera_rs.Room.Leaving.{sync_manager-Mode}
use direlera_rs.Play.{target_outputs, Processed, targets, refused, in_sync, process_input}

get_elem?-lt {ℓ} :
    {A : Type ℓ} (xs : List A) (i : ℕ) → i < length xs → (x : A) × (get_elem? xs i ≡ some x)
get_elem?-lt [] i h = absurd (omega arith)
get_elem?-lt (x ∷ xs) zero h = (x, refl)
get_elem?-lt (x ∷ xs) (suc i) h = get_elem?-lt xs i (omega arith)

-- The address of the player that an answer is for.
abbrev pub address_of : Option GamePlayerInfo → Option ℕ
address_of none = none
address_of (some p) = some p.addr

-- One answer for each output, in order: to the address of its player, with its response.
abbrev pub AreFor :
    List GamePlayerInfo → List CachedPlayerOutput → List (ℕ × ServerResponse) → Type 0
AreFor players os ts =
    (map (λ (t : ℕ × ServerResponse). some t.0) ts
      ≡ map (λ (o : CachedPlayerOutput). address_of (get_elem? players o.player_id)) os)
    × (map (λ (t : ℕ × ServerResponse). t.1) ts ≡ map (λ (o : CachedPlayerOutput). o.response) os)

-- Answers to listed players all get an address, and none is lost or changed.
target_outputs_total :
    (players : List GamePlayerInfo) (os : List CachedPlayerOutput)
    → All (IsAddressed (length players)) os
    → (ts : List (ℕ × ServerResponse)) × (target_outputs players os ≡ some ts)
      × AreFor players os ts
target_outputs_total players [] h = ([], refl, (refl, refl))
target_outputs_total players (o ∷ os) h =
    let (p, e) = get_elem?-lt players o.player_id h.0 in
    let (ts, q, m) = target_outputs_total players os h.1 in
    ((p.addr, o.response) ∷ ts, rw (e, q) refl, (rw (e, m.0) refl, ap (◌∷◌ o.response) m.1))

-- The engine's answers, in order, each to the address of its player; or the refusal of a cache position that the
-- player's input cache does not hold.
abbrev pub Answered : List GamePlayerInfo → DelayedGameSync → ℕ → ClientInput → Processed → Type 0
Answered players d i input p =
    ((out : Reply × DelayedGameSync) × (ts : List (ℕ × ServerResponse))
      × (Delayed.process_client_input d i input ≡ ok out)
      × (p ≡ targets ts)
      × AreFor players out.0.0 ts)
    ⊎ ((pos : ℕ) × (input ≡ ClientInput.game_cache pos)
        × (get (cache d.input_caches i) pos ≡ none)
        × (p ≡ refused (cache_position_not_found i pos)))

input-Live :
    (g : GameInfo) (d d' : DelayedGameSync) (rs : List CachedPlayerOutput)
    → Live g.game_status g.players none d
    → Serves d rs d'
    → d'.inner.sync.dropped_players ≡ d.inner.sync.dropped_players
    → Live g.game_status g.players none d'
unfolding all_players_dropped Core.all_players_dropped
input-Live g d d' rs v (zs, es, os, added, s) flags = record {
  playing = v.playing;
  valid = s.valid;
  slots = ap length s.same_delays ∙ v.slots;
  left = λ j h. elim (v.left j h) [ inl gone ↦ inl (rw flags gone) | inr e ↦ cc ];
  going = ap all_true flags ∙ v.going;
}

served :
    (g : GameInfo) (i : ℕ) (input : ClientInput) (d : DelayedGameSync)
    (out : Reply × DelayedGameSync)
    → IsRoom g
    → Live g.game_status g.players none d
    → Delayed.process_client_input d i input ≡ ok out
    → (r : Processed × GameInfo) × (in_sync g i input (some d) ≡ ok r)
      × IsRoom r.1
      × Answered g.players d i input r.0
served g i input d out v w e =
    let (addressed, flags) = process_client_input-IsQuiet d i input out w.valid e in
    let (ts, q, m) = target_outputs_total g.players out.0.0 (rw w.slots at addressed) in
    (
      (targets ts, record g { sync_manager = some out.1 }),
      rw (e, q) refl,
      record {
        counted = v.counted;
        fits = v.fits;
        small = v.small;
        positive = v.positive;
        owner = v.owner;
        mode =
            input-Live g d out.1 out.0.0 w (process_client_input-Serves d i input out w.valid e)
              flags;
      },
      inl (out, ts, e, refl, m),
    )

input_in_sync :
    (g : GameInfo) (addr i : ℕ) (input : ClientInput) (d : DelayedGameSync)
    → IsRoom g
    → Live g.game_status g.players none d
    → position addr g.players ≡ some i
    → (r : Processed × GameInfo) × (in_sync g i input (some d) ≡ ok r)
      × IsRoom r.1
      × Answered g.players d i input r.0
input_in_sync g addr i input d v w p = elim (process_client_input-Ends d i input w.valid) [
  | inl (out, e) ↦
      let n = position-lt addr g.players i p in
      let s = w.slots in let c = w.valid.count in absurd (omega arith)
  | inr (inl (pos, k, m, e)) ↦
      ((refused (cache_position_not_found i pos), g), rw e refl, v, inr (pos, k, m, refl))
  | inr (inr (out, e)) ↦ served g i input d out v w e
]

-- An input, of whatever kind, from a player of a live, well-formed room returns and leaves the room well
-- formed. Every answer of the engine goes out, in order, to the address of the listed player that it is
-- for; the only refusal is that of a cache position which the player's input cache does not hold.
pub process_input-Answered :
    (g : GameInfo) (addr i : ℕ) (input : ClientInput) (d : DelayedGameSync)
    → IsRoom g
    → g.sync_manager ≡ some d
    → position addr g.players ≡ some i
    → (r : Processed × GameInfo) × (process_input g i input ≡ ok r)
      × IsRoom r.1
      × Answered g.players d i input r.0
unfolding process_input
process_input-Answered g addr i input d v e p =
    subst
      (λ s.
        (r : Processed × GameInfo) × (in_sync g i input s ≡ ok r)
        × IsRoom r.1
        × Answered g.players d i input r.0)
      (sym e) (input_in_sync g addr i input d v (sync_manager-Mode none g (some d) e v) p)
