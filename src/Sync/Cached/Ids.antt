-- ===== src/Sync/Cached/Ids.antt =====
-- Which players the responses of `CachedGameSync` are for, and who is dropped.
use direlera_rs.Prelude.{
  ℕ, ◌<◌, ◌≡◌, Bool, Option, none, false, List, [], ◌∷◌, length, All, Bool-cases, inl, inr, leb,
  subst, ap, ◌∙◌,
}
use direlera_rs.Sync.Outcome.{ok, >>=-eq-ok}
use direlera_rs.Sync.Core.{PlayerOutput}
use direlera_rs.Sync.Core
use direlera_rs.Sync.Core.Ids.{IsFor, process_client_input-IsFor, process_client_input-drops}
use direlera_rs.Sync.Cached.Coherence.{convert-Converted}
use direlera_rs.Sync.Cached.{
  CachedGameSync, CachedPlayerOutput, ClientInput, Reply, convert, resolve, make_cached_output,
  process_client_input, or_earlier,
}
use direlera_rs.Sync.Cached
use direlera_rs.Sync.Cached.Calls.{IsValid}

abbrev pub IsAddressed : ℕ → CachedPlayerOutput → Type 0
IsAddressed n o = o.player_id < n

pub convert-IsAddressed :
    (n : ℕ) (c : CachedGameSync) (overflowed : Bool) (crossed : Option ℕ) (os : List PlayerOutput)
    → All (IsFor n) os
    → All (IsAddressed n) (convert c overflowed crossed os).0.0
unfolding convert
convert-IsAddressed n c overflowed crossed [] h = tt
convert-IsAddressed n c overflowed crossed (o ∷ os) h =
    (h.0, convert-IsAddressed n (make_cached_output c o.player_id o.output).1 _ _ os h.1)

pub process_client_input-IsAddressed :
    (c : CachedGameSync) (i : ℕ) (input : ClientInput) (r : Reply × CachedGameSync)
    → IsValid c
    → process_client_input c i input ≡ ok r
    → All (IsAddressed (length c.sync.player_delays)) r.0.0
unfolding process_client_input
process_client_input-IsAddressed c i input r v e =
    elim (Bool-cases (leb (Cached.player_count c) i)) [
      | inl out ↦ let z = rw out at e in cc
      | inr inside ↦
          let (a, p, e₁) = >>=-eq-ok (resolve c.input_caches i input) _ (rw inside at e) in
          let (b, q, e₂) = >>=-eq-ok (Core.process_client_input c.sync i a.0) _ e₁ in
          let d : CachedGameSync = record c { sync = b.1; input_caches = a.1 } in
          let z : convert d false none b.0 ≡ r = cc in
          let w = process_client_input-IsFor c.sync i a.0 b q in
          subst
            (λ (x : Reply × CachedGameSync). All (IsAddressed (length c.sync.player_delays)) x.0.0)
            z
            (convert-IsAddressed (length c.sync.player_delays) d false none b.0
              (rw v.engine.buffers at w))
    ]

pub process_client_input-flags :
    (c : CachedGameSync) (i : ℕ) (input : ClientInput) (r : Reply × CachedGameSync)
    → IsValid c
    → process_client_input c i input ≡ ok r
    → r.1.sync.dropped_players ≡ c.sync.dropped_players
unfolding process_client_input
process_client_input-flags c i input r v e = elim (Bool-cases (leb (Cached.player_count c) i)) [
  | inl out ↦ let z = rw out at e in cc
  | inr inside ↦
      let (a, p, e₁) = >>=-eq-ok (resolve c.input_caches i input) _ (rw inside at e) in
      let (b, q, e₂) = >>=-eq-ok (Core.process_client_input c.sync i a.0) _ e₁ in
      let d : CachedGameSync = record c { sync = b.1; input_caches = a.1 } in
      let x = convert-Converted d false none b.0 v.output_valid v.mode in
      let z : convert d false none b.0 ≡ r = cc in
      subst (λ (y : Reply × CachedGameSync). y.1.sync.dropped_players ≡ c.sync.dropped_players) z
        (ap (λ (y : Core.SimplestGameSync). y.dropped_players) x.engine
          ∙ process_client_input-drops c.sync i a.0 b q)
]
