-- ===== src/Sync/Delayed/Drops.antt =====
-- What `mark_player_dropped` does to the flags of the players, through the layers.
use direlera_rs.Prelude.{
  ℕ, ◌≡◌, true, false, List, length, set, Bool-cases, inl, inr, leb, ◌∙◌, ap, none, subst,
}
use direlera_rs.Sync.Outcome.{ok, >>=-eq-ok}
use direlera_rs.Sync.Core.{SimplestGameSync, PlayerOutput}
use direlera_rs.Sync.Core
use direlera_rs.Sync.Core.Stream.{drain_ready_inputs-Drained}
use direlera_rs.Sync.Cached.{CachedGameSync, CachedPlayerOutput, convert}
use direlera_rs.Sync.Cached
use direlera_rs.Sync.Cached.Coherence.{convert-Converted}
use direlera_rs.Sync.Cached.Calls
use direlera_rs.Sync.Delayed.{DelayedGameSync, mark_player_dropped, cleared}
use direlera_rs.Sync.Delayed.Calls.{IsValid}

core-drops :
    (s : SimplestGameSync) (i : ℕ) (r : List PlayerOutput × SimplestGameSync)
    → Core.mark_player_dropped s i ≡ ok r
    → r.1.dropped_players ≡ set s.dropped_players i true
unfolding Core.mark_player_dropped
core-drops s i r e = elim (Bool-cases (leb (length s.dropped_players) i)) [
  | inl out ↦ let z = rw out at e in cc
  | inr inside ↦
      (drain_ready_inputs-Drained (record s { dropped_players = set s.dropped_players i true }) r
        (rw inside at e)).1.drops
]

cached-drops :
    (c : CachedGameSync) (i : ℕ) (a : List CachedPlayerOutput × CachedGameSync)
    → Cached.Calls.IsValid c
    → Cached.mark_player_dropped c i ≡ ok a
    → a.1.sync.dropped_players ≡ set c.sync.dropped_players i true
unfolding Cached.mark_player_dropped
cached-drops c i a v e =
    let (raw, q, e₁) = >>=-eq-ok (Core.mark_player_dropped c.sync i) _ e in
    let d : CachedGameSync = record c { sync = raw.1 } in
    let x = convert-Converted d false none raw.0 v.output_valid v.mode in
    let z : ((convert d false none raw.0).0.0, (convert d false none raw.0).1) ≡ a = cc in
    subst
      (λ (y : List CachedPlayerOutput × CachedGameSync).
        y.1.sync.dropped_players ≡ set c.sync.dropped_players i true)
      z (ap (λ (y : SimplestGameSync). y.dropped_players) x.engine ∙ core-drops c.sync i raw q)

-- Exactly the flag of the player is set.
pub drops_after :
    (d : DelayedGameSync) (i : ℕ) (r : List CachedPlayerOutput × DelayedGameSync)
    → IsValid d
    → mark_player_dropped d i ≡ ok r
    → r.1.inner.sync.dropped_players ≡ set d.inner.sync.dropped_players i true
unfolding mark_player_dropped
drops_after d i r v e =
    let (a, q, e₁) = >>=-eq-ok (Cached.mark_player_dropped d.inner i) _ e in
    let z : (a.0, record (cleared d i) { inner = a.1 }) ≡ r = cc in
    subst
      (λ (y : List CachedPlayerOutput × DelayedGameSync).
        y.1.inner.sync.dropped_players ≡ set d.inner.sync.dropped_players i true)
      z (cached-drops d.inner i a v.inner q)
