-- ===== src/Core/Intset/Blob.antt =====
-- src/core/intset.rs: the blob, its validation, its records and its builder. A blob is its list of
-- bytes.
pub mod Records
pub mod RoundTrip
use dragonflydb_rs.Common.{
  ℕ, zero, suc, ◌+◌, ◌-◌, ◌*◌, ◌%◌, ◌^◌, max, Bool, true, false, not, ◌&&◌, ◌||◌, List, [], ◌∷◌,
  ◌++◌, Option, none, some, length, take, drop, byte_at, ltb, ◌==◌, if◌then◌else◌,
}
use dragonflydb_rs.Common.Int.{ℤ, pos, negsuc, ltb_ℤ, leb_ℤ, to_signed, to_unsigned}
use dragonflydb_rs.Common.Le.{le_bytes, from_le}

abbrev pub header_size : ℕ
header_size = 8

unfoldable pub value_encoding : ℤ → ℕ
value_encoding v =
    if ltb_ℤ v (negsuc (2 ^ 31 - 1)) || ltb_ℤ (pos (2 ^ 31 - 1)) v
    then 8
    else if ltb_ℤ v (negsuc (2 ^ 15 - 1)) || ltb_ℤ (pos (2 ^ 15 - 1)) v
    then 4
    else 2

-- The bytes of a record read as a signed number of their width.
unfoldable pub signed_record : ℕ → ℕ → ℤ
signed_record enc u =
    if enc == 2
    then to_signed (2 ^ 15) u
    else if enc == 4
    then to_signed (2 ^ 31) u
    else to_signed (2 ^ 63) u

-- The slice is in the buffer wherever the code reads.
unfoldable pub read_value : List ℕ → ℕ → ℕ → ℤ
unfolding signed_record
read_value buf enc i = signed_record enc (from_le (take enc (drop (header_size + i * enc) buf)))

abbrev pub encoding_of : List ℕ → ℕ
encoding_of buf = from_le (byte_at buf 0 ∷ byte_at buf 1 ∷ byte_at buf 2 ∷ byte_at buf 3 ∷ [])

abbrev pub count_of : List ℕ → ℕ
count_of buf = from_le (byte_at buf 4 ∷ byte_at buf 5 ∷ byte_at buf 6 ∷ byte_at buf 7 ∷ [])

-- The loop of the deep check, with `n` records from `i` on to go.
unfoldable pub ascending : List ℕ → ℕ → ℤ → ℕ → ℕ → Bool
unfolding read_value
ascending buf enc prev i zero = true
ascending buf enc prev i (suc n) =
    let rest = ascending buf enc (read_value buf enc i) (i + 1) n in
    if leb_ℤ (read_value buf enc i) prev then false else rest

unfoldable pub validate_integrity : List ℕ → Bool → Bool
unfolding ascending
validate_integrity buf deep =
    if ltb (length buf) header_size
    then false
    else if not (encoding_of buf == 8 || encoding_of buf == 4 || encoding_of buf == 2)
    then false
    else if not (header_size + count_of buf * encoding_of buf == length buf)
    then false
    else if count_of buf == 0
    then false
    else if deep
    then ascending buf (encoding_of buf) (read_value buf (encoding_of buf) 0) 1 (count_of buf - 1)
    else true

-- `(0..count).map(..)`, with `n` records from `i` on to go.
unfoldable pub read_all : List ℕ → ℕ → ℕ → ℕ → List ℤ
unfolding read_value
read_all buf enc i zero = []
read_all buf enc i (suc n) = read_value buf enc i ∷ read_all buf enc (i + 1) n

unfoldable pub values : List ℕ → Option (List ℤ)
unfolding validate_integrity read_all
values buf =
    if not (validate_integrity buf true)
    then none
    else some (read_all buf (encoding_of buf) 0 (count_of buf))

-- `sort_unstable`; every sort of numbers gives this list.
unfoldable pub insert_sorted : ℤ → List ℤ → List ℤ
insert_sorted v [] = v ∷ []
insert_sorted v (x ∷ xs) =
    let rest = insert_sorted v xs in if leb_ℤ v x then v ∷ x ∷ xs else x ∷ rest

unfoldable pub sort_unstable : List ℤ → List ℤ
unfolding insert_sorted
sort_unstable [] = []
sort_unstable (v ∷ vs) = insert_sorted v (sort_unstable vs)

-- `max().unwrap_or(INTSET_ENC_INT16)`, which is the least encoding.
unfoldable pub widest : List ℤ → ℕ
unfolding value_encoding
widest [] = 2
widest (v ∷ vs) = max (value_encoding v) (widest vs)

unfoldable pub record_bytes : ℕ → ℤ → List ℕ
record_bytes enc v =
    if enc == 2
    then le_bytes 2 (to_unsigned (2 ^ 16) v)
    else if enc == 4
    then le_bytes 4 (to_unsigned (2 ^ 32) v)
    else le_bytes 8 (to_unsigned (2 ^ 64) v)

unfoldable pub records : ℕ → List ℤ → List ℕ
unfolding record_bytes
records enc [] = []
records enc (v ∷ vs) = record_bytes enc v ++ records enc vs

-- The header and the records of values that are in order.
unfoldable pub blob : ℕ → List ℤ → List ℕ
unfolding records
blob enc vals = le_bytes 4 (enc % 2 ^ 32) ++ (le_bytes 4 (length vals % 2 ^ 32) ++ records enc vals)

unfoldable pub build : List ℤ → List ℕ
unfolding sort_unstable widest blob
build vs = let vals = sort_unstable vs in blob (widest vals) vals

unfoldable pub record_count : List ℕ → Option ℕ
record_count buf = if ltb (length buf) header_size then none else some (count_of buf)
