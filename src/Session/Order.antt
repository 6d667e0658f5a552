-- ===== src/Session/Order.antt =====
-- The order in which `process_packet_in_session` of src/main.rs hands messages over.
use direlera_rs.Prelude.{
  ℕ, zero, suc, ◌+◌, ◌%◌, ◌≤◌, ◌<◌, ◌≡◌, refl, none, some, List, [], ◌∷◌, ◌++◌, length, ◌==◌,
  nat_eq, arith, map, Bool-cases, Option-cases, inl, inr, ==_iff, ap, sym, ◌∙◌,
}
use direlera_rs.Dict.{
  Dict, lookup, insert, remove, lookup-insert, lookup-remove, length-remove, length-remove-some,
}
use direlera_rs.Protocol.{ParsedMessage}
use direlera_rs.Session.{SessionState, next, advance, drain}

-- Messages wait under their own number.
abbrev pub Keyed : Dict ℕ ParsedMessage → Type 0
Keyed d = (k : ℕ) (m : ParsedMessage) → lookup k d ≡ some m → m.message_number ≡ k

pub record IsOrdered (s : SessionState) : Type 0 where
  pub keyed : Keyed s.pending
  pub small : s.packet_counter < 65536
  pub room : length s.pending ≤ 256

-- The message that is expected is not among those that wait.
abbrev pub IsSettled : SessionState → Type 0
IsSettled s = lookup s.packet_counter s.pending ≡ none

abbrev pub numbers : List ParsedMessage → List ℕ
numbers ms = map (λ (m : ParsedMessage). m.message_number) ms

-- `n` numbers from `k` on, modulo 65536.
abbrev pub count_from : ℕ → ℕ → List ℕ
count_from k zero = []
count_from k (suc n) = k ∷ count_from (next k) n

pub count_from-append :
    (k a b : ℕ)
    → k < 65536
    → count_from k a ++ count_from ((k + a) % 65536) b ≡ count_from k (a + b)
count_from-append k zero b h =
    let e : (k + 0) % 65536 ≡ k = omega arith in let z : 0 + b ≡ b = omega arith in rw (e, z) refl
count_from-append k (suc a) b h =
    let e : (k + suc a) % 65536 ≡ (next k + a) % 65536 = omega arith in
    let z : suc a + b ≡ suc (a + b) = omega arith in
    rw (e, z, count_from-append (next k) a b (omega arith)) refl

Keyed-remove : (k : ℕ) (d : Dict ℕ ParsedMessage) → Keyed d → Keyed (remove k d)
Keyed-remove k d v j m e = ground (arith, lookup-remove k j d, v j m)

pub Keyed-insert :
    (m : ParsedMessage) (d : Dict ℕ ParsedMessage) → Keyed d → Keyed (insert m.message_number m d)
Keyed-insert m d v j n e =
    let w = lookup-insert m.message_number j m d in
    elim (Bool-cases (m.message_number == j)) [
      | inl h ↦
          let z : some m ≡ some n = sym (rw h at w) ∙ e in
          let q : m ≡ n = cc in
          ap (λ (x : ParsedMessage). x.message_number) (sym q) ∙ (==_iff m.message_number j).0 h
      | inr h ↦ v j n (sym (rw h at w) ∙ e)
    ]

pub numbers-append : (xs ys : List ParsedMessage) → numbers (xs ++ ys) ≡ numbers xs ++ numbers ys
numbers-append [] ys = refl
numbers-append (x ∷ xs) ys = ap (◌∷◌ x.message_number) (numbers-append xs ys)

-- The messages handed over carry the numbers from the counter on, and the counter moves past them.
pub record InOrder (s : SessionState) (r : List ParsedMessage × SessionState) : Type 0 where
  pub consecutive : numbers r.0 ≡ count_from s.packet_counter (length r.0)
  pub counter : r.1.packet_counter ≡ (s.packet_counter + length r.0) % 65536
  pub ordered : IsOrdered r.1
  pub settled : IsSettled s → IsSettled r.1

pub none-InOrder :
    (s t : SessionState)
    → s.packet_counter ≡ t.packet_counter
    → IsOrdered t
    → (IsSettled s → IsSettled t)
    → InOrder s ([], t)
none-InOrder s t e v c = record {
  consecutive = refl;
  counter = omega (arith, v.small);
  ordered = v;
  settled = c;
}

pub advance-IsOrdered : (s : SessionState) → IsOrdered s → IsOrdered (advance s)
advance-IsOrdered s v = record { keyed = v.keyed; small = omega arith; room = v.room }

take-IsOrdered :
    (s : SessionState)
    → IsOrdered s
    → IsOrdered (record s { pending = remove s.packet_counter s.pending })
take-IsOrdered s v = record {
  keyed = Keyed-remove s.packet_counter s.pending v.keyed;
  small = v.small;
  room = omega (arith, v.room, length-remove s.packet_counter s.pending);
}

-- What is handed over first, then the rest.
first-consecutive :
    (s : SessionState) (m : ParsedMessage) (ms : List ParsedMessage)
    → m.message_number ≡ s.packet_counter
    → numbers ms ≡ count_from (next s.packet_counter) (length ms)
    → numbers (m ∷ ms) ≡ count_from s.packet_counter (length (m ∷ ms))
first-consecutive s m ms e h = rw (e, h) refl

lookup_short : (k : ℕ) (d : Dict ℕ ParsedMessage) → length d ≤ 0 → lookup k d ≡ none
unfolding lookup
lookup_short k [] h = refl
lookup_short k (x ∷ d) h = absurd (omega arith)

drain-none : (f : ℕ) (s : SessionState) → IsSettled s → drain f s ≡ ([], s)
unfolding drain
drain-none zero s e = refl
drain-none (suc f) s e = rw (e, drain) refl

abbrev taken : SessionState → SessionState
taken s = advance (record s { pending = remove s.packet_counter s.pending })

drain-some :
    (f : ℕ) (s : SessionState) (m : ParsedMessage)
    → lookup s.packet_counter s.pending ≡ some m
    → drain (suc f) s ≡ (m ∷ (drain f (taken s)).0, (drain f (taken s)).1)
unfolding drain
drain-some f s m e = rw (e, drain) refl

-- A message with the expected number, then the rest.
pub cons-InOrder :
    (s t : SessionState) (m : ParsedMessage) (r : List ParsedMessage × SessionState)
    → m.message_number ≡ s.packet_counter
    → t.packet_counter ≡ next s.packet_counter
    → InOrder t r
    → IsSettled r.1
    → InOrder s (m ∷ r.0, r.1)
cons-InOrder s t m r e n v z = record {
  consecutive = rw (e, ← n) (ap (◌∷◌ s.packet_counter) v.consecutive);
  counter = omega (arith, v.counter, n);
  ordered = v.ordered;
  settled = λ x. z;
}

-- As many rounds as there are entries empty the run of messages that waited.
pub drain-InOrder :
    (f : ℕ) (s : SessionState)
    → IsOrdered s
    → length s.pending ≤ f
    → InOrder s (drain f s) × IsSettled (drain f s).1
drain-InOrder zero s v h =
    let e = lookup_short s.packet_counter s.pending h in
    rw (drain-none zero s e) (none-InOrder s s refl v (λ x. x), e)
drain-InOrder (suc f) s v h = elim (Option-cases (lookup s.packet_counter s.pending)) [
  | inl e ↦ rw (drain-none (suc f) s e) (none-InOrder s s refl v (λ x. x), e)
  | inr (m, e) ↦
      let n = length-remove-some s.packet_counter m s.pending e in
      let (k, z) =
        drain-InOrder f (taken s) (advance-IsOrdered _ (take-IsOrdered s v))
          (omega (arith, h, n)) in
      rw (drain-some f s m e)
        (cons-InOrder s (taken s) m (drain f (taken s)) (v.keyed s.packet_counter m e) refl k z, z)
]
