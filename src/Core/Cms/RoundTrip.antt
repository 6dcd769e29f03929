-- ===== src/Core/Cms/RoundTrip.antt =====
-- src/core/cms.rs: a sketch is read back from its bytes.
use dragonflydb_rs.Common.{
  ℕ, suc, ◌+◌, ◌*◌, ◌^◌, ◌<◌, ◌≡◌, refl, sym, ap, ◌∙◌, arith, false, List, [], ◌∷◌, ◌++◌, All, some,
  length, length-append, append_assoc, take, drop, take_front, drop_front, ltb, leb, le→ltb_false,
}
use dragonflydb_rs.Common.Int.{ℤ, IsI64, to_signed, to_unsigned}
use dragonflydb_rs.Common.Le.{le_bytes, from_le, length-le_bytes, from_le-le_bytes}
use dragonflydb_rs.Core.Cms.{
  Cms, i64_bytes, counter_bytes, serialize, read_i64, read_counters, with_dimensions, deserialize,
}

-- Dimensions of 32 bits, numbers of 64 bits, one counter for each place, and no more bytes than a `usize`
-- counts.
pub record IsValid (s : Cms) : Type 0 where
  pub narrow : s.width < 2 ^ 32
  pub flat : s.depth < 2 ^ 32
  pub counted : IsI64 s.count
  pub each : All IsI64 s.counters
  pub filled : length s.counters ≡ s.width * s.depth
  pub sized : 16 + s.width * s.depth * 8 < 2 ^ 64

length-i64_bytes : (z : ℤ) → length (i64_bytes z) ≡ 8
length-i64_bytes z = length-le_bytes 8 (to_unsigned (2 ^ 64) z)

back_to_signed : (z : ℤ) → IsI64 z → to_signed (2 ^ 63) (to_unsigned (2 ^ 64) z) ≡ z
back_to_signed z range = ground arith

in_64_bits : (z : ℤ) → to_unsigned (2 ^ 64) z < 256 ^ 8
in_64_bits z = ground arith

take_sized {ℓ} : {A : Type ℓ} (n : ℕ) (xs ys : List A) → length xs ≡ n → take n (xs ++ ys) ≡ xs
take_sized n xs ys size = rw (sym size) (take_front xs ys)

drop_sized {ℓ} : {A : Type ℓ} (n : ℕ) (xs ys : List A) → length xs ≡ n → drop n (xs ++ ys) ≡ ys
drop_sized n xs ys size = rw (sym size) (drop_front xs ys)

read_i64-i64_bytes : (z : ℤ) (rest : List ℕ) → IsI64 z → read_i64 (i64_bytes z ++ rest) ≡ z
read_i64-i64_bytes z rest range =
    ap (λ b. to_signed (2 ^ 63) (from_le b)) (take_sized 8 (i64_bytes z) rest (length-i64_bytes z))
    ∙ ap (to_signed (2 ^ 63)) (from_le-le_bytes 8 (to_unsigned (2 ^ 64) z) (in_64_bits z))
    ∙ back_to_signed z range

read_counters-counter_bytes :
    (cs : List ℤ) (rest : List ℕ)
    → All IsI64 cs
    → read_counters (length cs) (counter_bytes cs ++ rest) ≡ cs
read_counters-counter_bytes [] rest range = refl
read_counters-counter_bytes (c ∷ cs) rest range =
    let split : (i64_bytes c ++ counter_bytes cs) ++ rest
        ≡ i64_bytes c ++ (counter_bytes cs ++ rest) =
      append_assoc (i64_bytes c) (counter_bytes cs) rest in
    let first = read_i64-i64_bytes c (counter_bytes cs ++ rest) range.0 in
    let behind = drop_sized 8 (i64_bytes c) (counter_bytes cs ++ rest) (length-i64_bytes c) in
    ap (read_counters (suc (length cs))) split
    ∙ ap (λ z. z ∷ read_counters (length cs) (drop 8 (i64_bytes c ++ (counter_bytes cs ++ rest))))
        first
    ∙ ap (λ b. c ∷ read_counters (length cs) b) behind
    ∙ ap (λ more. c ∷ more) (read_counters-counter_bytes cs rest range.1)

length-counter_bytes : (cs : List ℤ) → length (counter_bytes cs) ≡ length cs * 8
length-counter_bytes [] = refl
length-counter_bytes (c ∷ cs) = omega (
  arith,
  length-append (i64_bytes c) (counter_bytes cs),
  length-i64_bytes c,
  length-counter_bytes cs,
)

-- The fields of a buffer that starts with a header and the counters.
module _ (s : Cms) (rest : List ℕ) (valid : IsValid s) where
  abbrev whole : List ℕ
  whole =
      (le_bytes 4 s.width
        ++ (le_bytes 4 s.depth ++ (i64_bytes s.count ++ counter_bytes s.counters)))
      ++ rest

  width_back : from_le (take 4 whole) ≡ s.width
  width_back = from_le-le_bytes 4 s.width (let n = valid.narrow in omega (arith, n))

  depth_back : from_le (take 4 (drop 4 whole)) ≡ s.depth
  depth_back = from_le-le_bytes 4 s.depth (let n = valid.flat in omega (arith, n))

  count_back : read_i64 (drop 8 whole) ≡ s.count
  count_back = read_i64-i64_bytes s.count (counter_bytes s.counters ++ rest) valid.counted

  counters_back : read_counters (s.width * s.depth) (drop 16 whole) ≡ s.counters
  counters_back =
      ap (λ n. read_counters n (drop 16 whole)) (sym valid.filled)
      ∙ read_counters-counter_bytes s.counters rest valid.each

  length-whole : length whole ≡ 16 + s.width * s.depth * 8 + length rest
  length-whole =
      let size = length-counter_bytes s.counters in
      let n = valid.filled in
      let both = length-append (counter_bytes s.counters) rest in
      let k : length s.counters * 8 ≡ s.width * s.depth * 8 = ap (λ n. n * 8) n in
      omega (arith, size, both, k)

  dimensions_back : with_dimensions whole s.width s.depth ≡ some s
  dimensions_back =
      let need = s.width * s.depth * 8 in
      let fits = valid.sized in
      let long = length-whole in
      let representable : leb (2 ^ 64) (16 + need) ≡ false = ground (arith, fits) in
      let enough : ltb (length whole) (16 + need) ≡ false =
        le→ltb_false (length whole) (16 + need) (omega (arith, long)) in
      rw (representable, enough)
        (ap
            (λ c. some (record {
              width = s.width;
              depth = s.depth;
              count = c;
              counters = read_counters (s.width * s.depth) (drop 16 whole);
            }))
            count_back
          ∙ ap
              (λ k.
                some (record { width = s.width; depth = s.depth; count = s.count; counters = k }))
              counters_back)

  -- A valid sketch is read back from its bytes as it was, whatever follows them.
  pub deserialize-serialize : deserialize (serialize s ++ rest) ≡ some s
  unfolding deserialize serialize
  deserialize-serialize =
      let long = length-whole in
      let has_head : ltb (length whole) 16 ≡ false =
        le→ltb_false (length whole) 16 (omega (arith, long)) in
      rw has_head (
        ap (λ w. with_dimensions whole w (from_le (take 4 (drop 4 whole)))) width_back
        ∙ ap (with_dimensions whole s.width) depth_back
        ∙ dimensions_back)
