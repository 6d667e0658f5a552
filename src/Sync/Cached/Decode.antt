-- ===== src/Sync/Cached/Decode.antt =====
-- The client's side of the output cache: a FIFO of the game data that it was sent, which
-- `GameCache` positions refer to (`decode_client_output` in the tests of
-- src/simplest_game_sync.rs).
use direlera_rs.Prelude.{
  ℕ, Option, none, some, List, [], ◌∷◌, Bytes, ◌==◌, if◌then◌else◌, get_elem?, concat, ◌≡◌, refl,
  ◌++◌, arith, Bool-cases, inl, inr, ap,
}
use direlera_rs.Sync.Cache.Find.{fifo_push}
use direlera_rs.Sync.Core.{PlayerOutput}
use direlera_rs.Sync.Core.Flush.{output_of}
use direlera_rs.Sync.Cached.{ServerResponse, CachedPlayerOutput}

-- The bytes that a response stands for, and the client's cache after it; `none` is a position that
-- the client does not have.
abbrev pub decode_client_output : List Bytes → ServerResponse → Option (Bytes × List Bytes)
decode_client_output slots (ServerResponse.game_data bytes) = some (bytes, fifo_push slots bytes)
decode_client_output slots (ServerResponse.game_cache pos) = elim (get_elem? slots pos) [
  | none ↦ none
  | some bytes ↦ some (bytes, slots)
]

abbrev prepend : Bytes → Option (List Bytes × List Bytes) → Option (List Bytes × List Bytes)
prepend b none = none
prepend b (some r) = some (b ∷ r.0, r.1)

abbrev rest_of :
    Option (Bytes × List Bytes)
    → (List Bytes → Option (List Bytes × List Bytes))
    → Option (List Bytes × List Bytes)
rest_of none f = none
rest_of (some (bytes, slots)) f = prepend bytes (f slots)

-- What player `p` reads from the responses that are addressed to it.
unfoldable pub received :
    ℕ → List Bytes → List CachedPlayerOutput → Option (List Bytes × List Bytes)
received p slots [] = some ([], slots)
received p slots (o ∷ os) =
    if o.player_id == p
    then rest_of (decode_client_output slots o.response) (λ slots'. received p slots' os)
    else received p slots os

-- The raw outputs of player `p`.
abbrev pub sent_to : ℕ → List PlayerOutput → List Bytes
sent_to p [] = []
sent_to p (o ∷ os) = if o.player_id == p then o.output ∷ sent_to p os else sent_to p os

pub concat-sent_to : (p : ℕ) (os : List PlayerOutput) → concat (sent_to p os) ≡ output_of p os
concat-sent_to p [] = refl
concat-sent_to p (o ∷ os) = ground (arith, concat-sent_to p os)

pub sent_to-append :
    (p : ℕ) (xs ys : List PlayerOutput) → sent_to p (xs ++ ys) ≡ sent_to p xs ++ sent_to p ys
sent_to-append p [] ys = refl
sent_to-append p (x ∷ xs) ys = ground (arith, sent_to-append p xs ys)

prepend-eq-some :
    (bytes : Bytes) (m : Option (List Bytes × List Bytes)) (a s : List Bytes)
    → prepend bytes m ≡ some (a, s)
    → (a' : List Bytes) × (m ≡ some (a', s)) × (a ≡ bytes ∷ a')
prepend-eq-some bytes none a s e = cc
prepend-eq-some bytes (some (a', s')) a s e =
    let n : s' ≡ s = cc in (a', ap (λ z. some (a', z)) n, cc)

rest_of-append :
    (d : Option (Bytes × List Bytes)) (f g : List Bytes → Option (List Bytes × List Bytes))
    (a b s t : List Bytes)
    → ((slots a' : List Bytes) → f slots ≡ some (a', s) → g slots ≡ some (a' ++ b, t))
    → rest_of d f ≡ some (a, s)
    → rest_of d g ≡ some (a ++ b, t)
rest_of-append none f g a b s t h e = cc
rest_of-append (some (bytes, slots)) f g a b s t h e =
    let (a', m, n) = prepend-eq-some bytes (f slots) a s e in
    rw n (ap (prepend bytes) (h slots a' m))

-- What a client reads from two lists of responses, one after the other.
pub received-append :
    (p : ℕ) (slots s t : List Bytes) (xs ys : List CachedPlayerOutput) (a b : List Bytes)
    → received p slots xs ≡ some (a, s)
    → received p s ys ≡ some (b, t)
    → received p slots (xs ++ ys) ≡ some (a ++ b, t)
unfolding received
received-append p slots s t [] ys a b e f =
    let n : a ≡ [] = cc in let m : slots ≡ s = cc in rw (n, m) f
received-append p slots s t (x ∷ xs) ys a b e f = elim (Bool-cases (x.player_id == p)) [
  | inr other ↦ rw other (received-append p slots s t xs ys a b (rw other at e) f)
  | inl own ↦ rw own (
      rest_of-append (decode_client_output slots x.response) (λ z. received p z xs)
        (λ z. received p z (xs ++ ys)) a b s t (λ z a' h. received-append p z s t xs ys a' b h f)
        (rw own at e))
]
