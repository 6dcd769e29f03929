-- ===== src/Core/Cms.antt =====
-- src/core/cms.rs: the count-min sketch. The fingerprint of an item is a parameter, as it is a hash of a
-- library; `new_by_error`, which computes with floating point, is left out. Counters are `i64` and wrap; an
-- index outside of the counters, where the source panics, is `none`.
pub mod RoundTrip
pub mod Rows
mod Tests
use dragonflydb_rs.Common.{
  ℕ, zero, suc, ◌+◌, ◌-◌, ◌*◌, ◌%◌, ◌^◌, Bool, true, false, not, ◌&&◌, ◌||◌, List, [], ◌∷◌, ◌++◌,
  Option, none, some, length, take, drop, get_elem?, set, ltb, leb, ◌==◌, if◌then◌else◌, ◌>>=◌,
}
use dragonflydb_rs.Common.Int.{ℤ, pos, negsuc, ◌+ℤ◌, neg, ltb_ℤ, to_signed, to_unsigned}
use dragonflydb_rs.Common.Le.{le_bytes, from_le}

-- Two's complement of 64 bits.
abbrev pub wrapped : ℤ → ℤ
wrapped z = to_signed (2 ^ 63) (to_unsigned (2 ^ 64) z)

abbrev pub product : ℤ → ℤ → ℤ
product (pos a) (pos b) = pos (a * b)
product (pos a) (negsuc b) = neg (pos (a * suc b))
product (negsuc a) (pos b) = neg (pos (suc a * b))
product (negsuc a) (negsuc b) = pos (suc a * suc b)

abbrev pub min_ℤ : ℤ → ℤ → ℤ
min_ℤ a b = if ltb_ℤ b a then b else a

abbrev pub i64_max : ℤ
i64_max = pos (2 ^ 63 - 1)

unfoldable pub offset : ℕ → ℕ → ℕ → ℕ → ℕ
offset h1 h2 row width = row * width + (h1 + row * h2 % 2 ^ 64) % 2 ^ 64 % width

pub record Cms : Type 0 where
  pub width : ℕ
  pub depth : ℕ
  pub count : ℤ
  pub counters : List ℤ

abbrev pub zeros : ℕ → List ℤ
zeros zero = []
zeros (suc n) = pos 0 ∷ zeros n

abbrev pub new : ℕ → ℕ → Cms
new width depth = record {
  width = width;
  depth = depth;
  count = pos 0;
  counters = zeros (width * depth);
}

-- `for row in 0..self.depth`, with `n` rows to go.
unfoldable pub incr_rows : ℕ → ℕ → ℕ → ℤ → ℕ → ℕ → ℤ → List ℤ → Option (List ℤ × ℤ)
unfolding offset
incr_rows h1 h2 width increment row zero least counters = some (counters, least)
incr_rows h1 h2 width increment row (suc n) least counters = do
  c ← get_elem? counters (offset h1 h2 row width)
  incr_rows h1 h2 width increment (suc row) n (min_ℤ least (wrapped (c +ℤ increment)))
      (set counters (offset h1 h2 row width) (wrapped (c +ℤ increment)))

unfoldable pub query_rows : ℕ → ℕ → ℕ → ℕ → ℕ → ℤ → List ℤ → Option ℤ
unfolding offset
query_rows h1 h2 width row zero least counters = some least
query_rows h1 h2 width row (suc n) least counters = do
  c ← get_elem? counters (offset h1 h2 row width)
  query_rows h1 h2 width (suc row) n (min_ℤ least c) counters

module _ (hash_fp : List ℕ → ℕ × ℕ) where
  unfoldable pub incr_by : Cms → List ℕ → ℤ → Option (Cms × ℤ)
  unfolding incr_rows
  incr_by s item increment = do
    (counters, least) ←
        incr_rows (hash_fp item).0 (hash_fp item).1 s.width increment 0 s.depth i64_max s.counters
    some (record s { count = wrapped (s.count +ℤ increment); counters = counters }, least)

  unfoldable pub query : Cms → List ℕ → Option ℤ
  unfolding query_rows
  query s item = query_rows (hash_fp item).0 (hash_fp item).1 s.width 0 s.depth i64_max s.counters

-- `self.counters.iter_mut().zip(other.counters.iter())`
unfoldable pub merged : List ℤ → List ℤ → ℤ → List ℤ
merged [] bs weight = []
merged (a ∷ xs) [] weight = a ∷ xs
merged (a ∷ xs) (b ∷ bs) weight = wrapped (a +ℤ wrapped (product b weight)) ∷ merged xs bs weight

unfoldable pub merge_from : Cms → Cms → ℤ → Cms × Bool
unfolding merged
merge_from s other weight =
    if not (s.width == other.width) || not (s.depth == other.depth) then (s, false) else (
      record s {
        count = wrapped (s.count +ℤ wrapped (product other.count weight));
        counters = merged s.counters other.counters weight;
      },
      true,
    )

abbrev pub reset : Cms → Cms
reset s = record s { count = pos 0; counters = zeros (length s.counters) }

abbrev pub num_counters : Cms → ℕ
num_counters s = s.width * s.depth

abbrev pub malloc_used : Cms → ℕ
malloc_used s = num_counters s * 8

-- `copy_from_slice` panics unless the lengths agree.
abbrev pub load : Cms → ℤ → List ℤ → Option Cms
load s total values =
    if length values == length s.counters
    then some (record s { count = total; counters = values })
    else none

abbrev pub i64_bytes : ℤ → List ℕ
i64_bytes z = le_bytes 8 (to_unsigned (2 ^ 64) z)

abbrev pub counter_bytes : List ℤ → List ℕ
counter_bytes [] = []
counter_bytes (c ∷ cs) = i64_bytes c ++ counter_bytes cs

unfoldable pub serialize : Cms → List ℕ
serialize s =
    le_bytes 4 s.width ++ (le_bytes 4 s.depth ++ (i64_bytes s.count ++ counter_bytes s.counters))

abbrev pub read_i64 : List ℕ → ℤ
read_i64 bytes = to_signed (2 ^ 63) (from_le (take 8 bytes))

-- `chunks_exact(8)` of as many bytes as the counters take.
abbrev pub read_counters : ℕ → List ℕ → List ℤ
read_counters zero bytes = []
read_counters (suc n) bytes = read_i64 bytes ∷ read_counters n (drop 8 bytes)

-- The dimensions and what stands behind them; sizes that do not fit a `usize` are refused.
abbrev pub with_dimensions : List ℕ → ℕ → ℕ → Option Cms
with_dimensions bytes width depth =
    if leb (2 ^ 64) (16 + width * depth * 8)
    then none
    else if ltb (length bytes) (16 + width * depth * 8)
    then none
    else some (record {
      width = width;
      depth = depth;
      count = read_i64 (drop 8 bytes);
      counters = read_counters (width * depth) (drop 16 bytes);
    })

unfoldable pub deserialize : List ℕ → Option Cms
deserialize bytes =
    if ltb (length bytes) 16
    then none
    else with_dimensions bytes (from_le (take 4 bytes)) (from_le (take 4 (drop 4 bytes)))
