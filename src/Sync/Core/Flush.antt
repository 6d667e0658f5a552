-- ===== src/Sync/Core/Flush.antt =====
-- The inner loop of `drain_ready_inputs`: from a player's buffer to that player's outputs.
use direlera_rs.Prelude.{
  ℕ, zero, suc, ◌<◌, ◌≡◌, ◌≢◌, refl, List, [], ◌∷◌, ◌++◌, Bytes, arith, length, take, drop, concat,
  take-append-drop, length-drop, ap, sym, ◌∙◌, append_assoc, leb, ◌==◌, Bool-cases, if◌then◌else◌,
  inl, inr, leb→le, leb→lt, subst, ◌⊎◌, ==_iff, concat-append, true,
}
use direlera_rs.Sync.Outcome.{ok, loops, >>=-eq-ok}
use direlera_rs.Sync.Core.{OneInput, PlayerOutput, flush}

-- All that player `p` is sent by a list of outputs, in order.
abbrev pub output_of : ℕ → List PlayerOutput → Bytes
output_of p [] = []
output_of p (o ∷ os) = if o.player_id == p then o.output ++ output_of p os else output_of p os

pub output_of-append :
    (p : ℕ) (xs ys : List PlayerOutput) → output_of p (xs ++ ys) ≡ output_of p xs ++ output_of p ys
output_of-append p [] ys = refl
output_of-append p (x ∷ xs) ys =
    ground
      (arith, output_of-append p xs ys, append_assoc x.output (output_of p xs) (output_of p ys))

pub take-drop-concat :
    (n : ℕ) (xs : List OneInput) → concat (take n xs) ++ concat (drop n xs) ≡ concat xs
take-drop-concat n xs =
    sym (concat-append (take n xs) (drop n xs)) ∙ ap concat (take-append-drop n xs)

-- What a finished `flush` has done.
pub record Flushed (require_len pid : ℕ) (buffer : List OneInput)
    (r : List PlayerOutput × List OneInput) : Type 0 where
  pub own : output_of pid r.0 ++ concat r.1 ≡ concat buffer
  pub others : (p : ℕ) → p ≢ pid → output_of p r.0 ≡ []
  pub short : length r.1 < require_len

stop-Flushed :
    (n pid : ℕ) (buffer : List OneInput) → length buffer < n → Flushed n pid buffer ([], buffer)
stop-Flushed n pid buffer h = record { own = refl; others = λ p ne. refl; short = h }

more-Flushed :
    (n pid : ℕ) (buffer : List OneInput) (r : List PlayerOutput × List OneInput)
    → Flushed n pid (drop n buffer) r
    → Flushed n pid buffer (record { player_id = pid; output = concat (take n buffer) } ∷ r.0, r.1)
more-Flushed n pid buffer r v = record {
  own = rw ((==_iff pid pid).1 refl) (
      append_assoc (concat (take n buffer)) (output_of pid r.0) (concat r.1)
      ∙ ap (◌++◌ (concat (take n buffer))) v.own
      ∙ take-drop-concat n buffer);
  others = λ p ne. let o = v.others p ne in ground (arith, ==_iff pid p);
  short = v.short;
}

pub flush-Flushed :
    (f require_len pid : ℕ) (buffer : List OneInput) (r : List PlayerOutput × List OneInput)
    → flush f require_len pid buffer ≡ ok r
    → Flushed require_len pid buffer r
unfolding flush
flush-Flushed zero n pid buffer r e = cc
flush-Flushed (suc f) n pid buffer r e = elim (Bool-cases (leb n (length buffer))) [
  | inr fewer ↦
      let s : ok ([], buffer) ≡ ok r = rw fewer at e in
      let q : ([], buffer) ≡ r = cc in
      subst (Flushed n pid buffer) q (stop-Flushed n pid buffer (leb→lt n (length buffer) fewer))
  | inl more ↦
      let (a, p, s) = >>=-eq-ok (flush f n pid (drop n buffer)) _ (rw more at e) in
      let q : (record { player_id = pid; output = concat (take n buffer) } ∷ a.0, a.1) ≡ r = cc in
      subst (Flushed n pid buffer) q
        (more-Flushed n pid buffer a (flush-Flushed f n pid (drop n buffer) a p))
]

-- With a positive length the loop ends within as many rounds as there are inputs.
pub flush-total :
    (f require_len pid : ℕ) (buffer : List OneInput)
    → 0 < require_len
    → length buffer < f
    → (r : List PlayerOutput × List OneInput) × (flush f require_len pid buffer ≡ ok r)
unfolding flush
flush-total zero n pid buffer h k = absurd (omega arith)
flush-total (suc f) n pid buffer h k = elim (Bool-cases (leb n (length buffer))) [
  | inr fewer ↦ (([], buffer), rw fewer)
  | inl more ↦
      let (r, e) =
        flush-total f n pid (drop n buffer) h
          (omega (arith, length-drop n buffer, leb→le n (length buffer) more)) in
      ((record { player_id = pid; output = concat (take n buffer) } ∷ r.0, r.1), rw (more, e))
]

-- With length 0 it never ends.
pub flush-zero-loops : (f pid : ℕ) (buffer : List OneInput) → flush f 0 pid buffer ≡ loops
unfolding flush
flush-zero-loops zero pid buffer = refl
flush-zero-loops (suc f) pid buffer = rw (zero_leb (length buffer), flush-zero-loops f pid buffer)
  where
    zero_leb : (n : ℕ) → leb 0 n ≡ true
    zero_leb n = ground arith

-- A flush never fails.
pub flush-ok-or-loops :
    (f require_len pid : ℕ) (buffer : List OneInput)
    → ((r : List PlayerOutput × List OneInput) × (flush f require_len pid buffer ≡ ok r))
      ⊎ (flush f require_len pid buffer ≡ loops)
unfolding flush
flush-ok-or-loops zero n pid buffer = inr refl
flush-ok-or-loops (suc f) n pid buffer = elim (Bool-cases (leb n (length buffer))) [
  | inr fewer ↦ inl (([], buffer), rw fewer)
  | inl more ↦ elim (flush-ok-or-loops f n pid (drop n buffer)) [
    | inl (r, e) ↦
        inl ((record { player_id = pid; output = concat (take n buffer) } ∷ r.0, r.1), rw (more, e))
    | inr l ↦ inr (rw (more, l))
  ]
]
