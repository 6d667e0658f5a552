-- ===== src/Sync/Core/Ids.antt =====
-- Which players the outputs of `SimplestGameSync` are for, and who is dropped.
use direlera_rs.Prelude.{
  ℕ, zero, suc, ◌+◌, ◌*◌, ◌<◌, ◌≤◌, ◌≡◌, refl, false, List, [], ◌∷◌, ◌++◌, Bytes, arith, length,
  get_or, All, Bool-cases, inl, inr, leb, subst, drop, take, concat, map, length-map, ◌∙◌,
}
use direlera_rs.Sync.Outcome.{ok, >>=-eq-ok}
use direlera_rs.Sync.Core.{
  SimplestGameSync, PlayerOutput, OneInput, flush, flush_all, round, drain, drain_ready_inputs,
  ready, process_client_input, queue_input, extract_inputs, extend_all,
}
use direlera_rs.Sync.Core.Invariant.{queue_input_keeps}
use direlera_rs.Sync.Core.Stream.{drain_ready_inputs-Drained}

-- Every output is for a player below `n`.
abbrev pub IsFor : ℕ → PlayerOutput → Type 0
IsFor n o = o.player_id < n

pub All-append-IsFor :
    (n : ℕ) (xs ys : List PlayerOutput)
    → All (IsFor n) xs
    → All (IsFor n) ys
    → All (IsFor n) (xs ++ ys)
All-append-IsFor n [] ys h k = k
All-append-IsFor n (x ∷ xs) ys h k = (h.0, All-append-IsFor n xs ys h.1 k)

flush-IsFor :
    (f require_len pid n : ℕ) (buffer : List OneInput) (r : List PlayerOutput × List OneInput)
    → pid < n
    → flush f require_len pid buffer ≡ ok r
    → All (IsFor n) r.0
unfolding flush
flush-IsFor zero require_len pid n buffer r h e = cc
flush-IsFor (suc f) require_len pid n buffer r h e =
    elim (Bool-cases (leb require_len (length buffer))) [
      | inl full ↦
          let (a, p, q) =
            >>=-eq-ok (flush f require_len pid (drop require_len buffer)) _ (rw full at e) in
          let z : (record { player_id = pid; output = concat (take require_len buffer) } ∷ a.0, a.1)
              ≡ r =
            cc in
          subst (λ (x : List PlayerOutput × List OneInput). All (IsFor n) x.0) z
            (h, flush-IsFor f require_len pid n (drop require_len buffer) a h p)
      | inr short ↦
          let w : ok ([], buffer) ≡ ok r = rw short at e in
          let z : ([], buffer) ≡ r = cc in
          subst (λ (x : List PlayerOutput × List OneInput). All (IsFor n) x.0) z tt
    ]

flush_all-IsFor :
    (pid n players : ℕ) (delays : List ℕ) (bs : List (List OneInput))
    (r : List PlayerOutput × List (List OneInput))
    → pid + length bs ≤ n
    → flush_all pid delays players bs ≡ ok r
    → All (IsFor n) r.0
unfolding flush_all
flush_all-IsFor pid n players delays [] r h e =
    let z : ([], []) ≡ r = cc in
    subst (λ (x : List PlayerOutput × List (List OneInput)). All (IsFor n) x.0) z tt
flush_all-IsFor pid n players delays (b ∷ bs) r h e =
    let (a, p, q) = >>=-eq-ok (flush (suc (length b)) (get_or delays pid 0 * players) pid b) _ e in
    let (c, p', q') = >>=-eq-ok (flush_all (suc pid) delays players bs) _ q in
    let z : (a.0 ++ c.0, a.1 ∷ c.1) ≡ r = cc in
    subst (λ (x : List PlayerOutput × List (List OneInput)). All (IsFor n) x.0) z
      (All-append-IsFor n a.0 c.0
        (flush-IsFor (suc (length b)) (get_or delays pid 0 * players) pid n b a (omega arith) p)
        (flush_all-IsFor (suc pid) n players delays bs c (omega arith) p'))

flush_all-length :
    (pid players : ℕ) (delays : List ℕ) (bs : List (List OneInput))
    (r : List PlayerOutput × List (List OneInput))
    → flush_all pid delays players bs ≡ ok r
    → length r.1 ≡ length bs
unfolding flush_all
flush_all-length pid players delays [] r e =
    let z : ([], []) ≡ r = cc in
    subst (λ (x : List PlayerOutput × List (List OneInput)). length x.1 ≡ 0) z refl
flush_all-length pid players delays (b ∷ bs) r e =
    let (a, p, q) = >>=-eq-ok (flush (suc (length b)) (get_or delays pid 0 * players) pid b) _ e in
    let (c, p', q') = >>=-eq-ok (flush_all (suc pid) delays players bs) _ q in
    let z : (a.0 ++ c.0, a.1 ∷ c.1) ≡ r = cc in
    subst (λ (x : List PlayerOutput × List (List OneInput)). length x.1 ≡ suc (length bs)) z
      (omega (arith, flush_all-length (suc pid) players delays bs c p'))

round-IsFor :
    (s : SimplestGameSync) (r : List PlayerOutput × SimplestGameSync)
    → round s ≡ ok r
    → All (IsFor (length s.sender_buffer)) r.0 × (length r.1.sender_buffer ≡ length s.sender_buffer)
unfolding round
round-IsFor s r e =
    let bs =
      extend_all (extract_inputs 0 s.dropped_players s.game_data_size s.player_input)
        s.sender_buffer in
    let (a, p, q) = >>=-eq-ok (flush_all 0 s.player_delays (length s.player_delays) bs) _ e in
    let z : (a.0, record s { player_input = map (drop 1) s.player_input; sender_buffer = a.1 })
        ≡ r =
      cc in
    let n : length bs ≡ length s.sender_buffer = length-map _ s.sender_buffer in
    subst
      (λ (x : List PlayerOutput × SimplestGameSync).
        All (IsFor (length s.sender_buffer)) x.0
        × (length x.1.sender_buffer ≡ length s.sender_buffer))
      z
      (
        flush_all-IsFor 0 (length s.sender_buffer) (length s.player_delays) s.player_delays bs a
            (omega arith) p,
        omega (arith, flush_all-length 0 (length s.player_delays) s.player_delays bs a p),
      )

drain-IsFor :
    (f : ℕ) (s : SimplestGameSync) (r : List PlayerOutput × SimplestGameSync)
    → drain f s ≡ ok r
    → All (IsFor (length s.sender_buffer)) r.0
unfolding drain
drain-IsFor zero s r e = cc
drain-IsFor (suc f) s r e = elim (Bool-cases (ready s)) [
  | inr blocked ↦
      let w : ok ([], s) ≡ ok r = rw (blocked, drain) at e in
      let z : ([], s) ≡ r = cc in
      subst (λ (x : List PlayerOutput × SimplestGameSync). All (IsFor (length s.sender_buffer)) x.0)
        z tt
  | inl go ↦
      let (a, p, q) = >>=-eq-ok (round s) _ (rw (go, drain) at e) in
      let (c, p', q') = >>=-eq-ok (drain f a.1) _ q in
      let (x, n) = round-IsFor s a p in
      let z : (a.0 ++ c.0, c.1) ≡ r = cc in
      subst (λ (x : List PlayerOutput × SimplestGameSync). All (IsFor (length s.sender_buffer)) x.0)
        z (All-append-IsFor (length s.sender_buffer) a.0 c.0 x (rw n at (drain-IsFor f a.1 c p')))
]

-- So are the outputs of an input.
pub process_client_input-IsFor :
    (s : SimplestGameSync) (i : ℕ) (bytes : Bytes) (r : List PlayerOutput × SimplestGameSync)
    → process_client_input s i bytes ≡ ok r
    → All (IsFor (length s.sender_buffer)) r.0
unfolding process_client_input drain_ready_inputs
process_client_input-IsFor s i bytes r e = elim (Bool-cases (leb (length s.player_input) i)) [
  | inl out ↦ let z = rw out at e in cc
  | inr inside ↦ elim (Bool-cases (get_or s.dropped_players i false)) [
    | inl gone ↦
        let w : ok ([], s) ≡ ok r = rw (inside, gone) at e in
        let z : ([], s) ≡ r = cc in
        subst
          (λ (x : List PlayerOutput × SimplestGameSync). All (IsFor (length s.sender_buffer)) x.0) z
          tt
    | inr live ↦
        let k = queue_input_keeps s i bytes in
        let w = drain-IsFor _ (queue_input s i bytes) r (rw (inside, live) at e) in rw k.0 at w
  ]
]

-- An input drops no one and brings no one back.
pub process_client_input-drops :
    (s : SimplestGameSync) (i : ℕ) (bytes : Bytes) (r : List PlayerOutput × SimplestGameSync)
    → process_client_input s i bytes ≡ ok r
    → r.1.dropped_players ≡ s.dropped_players
unfolding process_client_input
process_client_input-drops s i bytes r e = elim (Bool-cases (leb (length s.player_input) i)) [
  | inl out ↦ let z = rw out at e in cc
  | inr inside ↦ elim (Bool-cases (get_or s.dropped_players i false)) [
    | inl gone ↦
        let w : ok ([], s) ≡ ok r = rw (inside, gone) at e in
        let z : ([], s) ≡ r = cc in
        subst
          (λ (x : List PlayerOutput × SimplestGameSync). x.1.dropped_players ≡ s.dropped_players) z
          refl
    | inr live ↦
        let k = queue_input_keeps s i bytes in
        let (n, d) =
          drain_ready_inputs-Drained (queue_input s i bytes) r (rw (inside, live) at e) in
        d.drops ∙ k.2
  ]
]
