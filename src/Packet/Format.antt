-- ===== src/Packet/Format.antt =====
-- The formats that the comments of src/packet_util.rs and protocol.txt give for payloads, and a reader
-- for them that is independent of the builders.
use direlera_rs.Prelude.{
  ℕ, ◌+◌, ◌*◌, ◌≢◌, Option, none, some, List, [], ◌∷◌, Bytes, All, drop, get_or, length, ltb,
  if◌then◌else◌,
}
use direlera_rs.Packet.{read_string_bytes}

-- `NB`, `1B`, `2B` and `4B` of the documents.
pub data Kind : Type 0 where
  text byte word long : Kind

pub data Field : Type 0 where
  text : Bytes → Field
  number : ℕ → Field

abbrev read_number : ℕ → ℕ → Bytes → Option (Field × Bytes)
read_number size n buf =
    if ltb (length buf) size then none else some (Field.number n, drop size buf)

abbrev pub read_field : Kind → Bytes → Option (Field × Bytes)
read_field Kind.text buf = let (s, rest) = read_string_bytes buf in some (Field.text s, rest)
read_field byte buf = read_number 1 (get_or buf 0 0) buf
read_field word buf = read_number 2 (get_or buf 0 0 + 256 * get_or buf 1 0) buf
read_field long buf =
    read_number 4
      (get_or buf 0 0 + 256 * get_or buf 1 0 + 65536 * get_or buf 2 0 + 16777216 * get_or buf 3 0)
      buf

abbrev with_rest :
    Option (Field × Bytes) → (Bytes → Option (List Field × Bytes)) → Option (List Field × Bytes)
with_rest none f = none
with_rest (some (x, rest)) f = elim (f rest) [ none ↦ none | some r ↦ some (x ∷ r.0, r.1) ]

-- The fields of a format, one after the other, and the bytes that follow.
unfoldable pub read_fields : List Kind → Bytes → Option (List Field × Bytes)
read_fields [] buf = some ([], buf)
read_fields (k ∷ ks) buf = with_rest (read_field k buf) (read_fields ks)

-- A text without a zero byte.
abbrev pub IsText : Bytes → Type 0
IsText = All (λ b. b ≢ 0)
