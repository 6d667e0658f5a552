-- ===== src/Sync/Cache.antt =====
-- `InputCache` of src/simplest_game_sync.rs: a FIFO of 256 byte strings with an index from
-- contents to positions. A `usize` is a number below 2^64 and its arithmetic wraps, as in a
-- release build.
pub mod Offsets
pub mod Invariant
pub mod Find
pub mod Pushes
mod Tests
use direlera_rs.Prelude.{
  ℕ, ◌+◌, ◌-◌, ◌%◌, ◌^◌, Bool, true, false, Option, none, some, List, [], ◌∷◌, ◌++◌, Bytes, length,
  get_elem?, last?, leb, if◌then◌else◌, bytes_Eq,
}
use direlera_rs.Dict.{Dict, lookup, insert, remove}

abbrev pub usize_mod : ℕ
usize_mod = 2 ^ 64

abbrev pub add_usize : ℕ → ℕ → ℕ
add_usize a b = (a + b) % 2 ^ 64

abbrev pub sub_usize : ℕ → ℕ → ℕ
sub_usize a b = (a + 2 ^ 64 - b) % 2 ^ 64

-- The number of slots.
abbrev pub capacity : ℕ
capacity = 256

pub record InputCache : Type 0 where
  pub slots : List Bytes
  pub index_map : Dict Bytes (List ℕ)
  pub abs_tail : ℕ

unfoldable pub empty : InputCache
empty = record { slots = []; index_map = []; abs_tail = 0 }

-- The absolute index of the oldest slot.
abbrev pub head : InputCache → ℕ
head c = sub_usize c.abs_tail (length c.slots)

-- `(abs_last - head) as u8`
abbrev pub position : InputCache → ℕ → ℕ
position c abs_last = sub_usize abs_last (head c) % 256

abbrev newest : InputCache → Option ℕ → Option ℕ
newest c none = none
newest c (some abs_last) = some (position c abs_last)

abbrev find_in : InputCache → Option (List ℕ) → Option ℕ
find_in c none = none
find_in c (some indices) = newest c (last? indices)

unfoldable pub find : InputCache → Bytes → Option ℕ
unfolding lookup
find c bytes = find_in c (lookup bytes c.index_map)

-- `indices.pop_front()`, and the removal of an entry that is left empty.
abbrev forget_front : Bytes → List ℕ → Dict Bytes (List ℕ) → Dict Bytes (List ℕ)
forget_front old [] m = remove old m
forget_front old (i ∷ []) m = remove old m
forget_front old (i ∷ j ∷ rest) m = insert old (j ∷ rest) m

abbrev forget : Bytes → Option (List ℕ) → Dict Bytes (List ℕ) → Dict Bytes (List ℕ)
forget old none m = m
forget old (some indices) m = forget_front old indices m

abbrev evict_front : List Bytes → InputCache → InputCache
evict_front [] c = c
evict_front (old ∷ rest) c = record c {
  slots = rest;
  index_map = forget old (lookup old c.index_map) c.index_map;
}

evict : InputCache → InputCache
unfolding lookup insert remove
evict c = evict_front c.slots c

abbrev or_default : Option (List ℕ) → List ℕ
or_default none = []
or_default (some indices) = indices

append : InputCache → Bytes → InputCache
unfolding lookup insert
append c bytes = record {
  slots = c.slots ++ bytes ∷ [];
  index_map = insert bytes (or_default (lookup bytes c.index_map) ++ c.abs_tail ∷ []) c.index_map;
  abs_tail = add_usize c.abs_tail 1;
}

abbrev pub is_full : InputCache → Bool
is_full c = leb capacity (length c.slots)

unfoldable pub push : InputCache → Bytes → InputCache × Bool
unfolding evict append
push c bytes = if is_full c then (append (evict c) bytes, true) else (append c bytes, false)

unfoldable pub get : InputCache → ℕ → Option Bytes
get c pos = get_elem? c.slots pos

unfoldable pub len : InputCache → ℕ
len c = length c.slots

unfoldable pub is_empty : InputCache → Bool
is_empty c = leb (length c.slots) 0
