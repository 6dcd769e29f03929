-- ===== src/Core/Rdb/Strings.antt =====
-- src/core/rdb.rs: `read_string` reads the integers that `save_long_long_as_string` wrote.
use dragonflydb_rs.Common.{
  ℕ, ◌+◌, ◌^◌, ◌<◌, ◌≡◌, refl, ap, ◌∙◌, arith, true, List, [], ◌∷◌, ◌++◌, some, length,
  length-append, append_assoc, slice, slice-append, slice_middle, Bool-cases, inl, inr,
}
use dragonflydb_rs.Common.Int.{ℤ, IsI64, to_signed, to_unsigned}
use dragonflydb_rs.Common.Le.{le_bytes, from_le, from_le-le_bytes}
use dragonflydb_rs.Util.Decimal.{itoa}
use dragonflydb_rs.Util.RoundTrip.{length-itoa}
use dragonflydb_rs.Core.Rdb.{
  len_bytes, within, save_long_long_as_string, read_exact, read_len, read_len_from, read_encoded,
  read_string,
}
use dragonflydb_rs.Core.Rdb.Lengths.{at, read_len_first, read_behind, read_len-len_bytes}

-- Bytes that a reader gets after `pre` give a string, and the reader stops behind them.
abbrev pub Gives : List ℕ → List ℕ → List ℕ → List ℕ → Type 0
Gives pre bytes rest s =
    read_string (at pre (bytes ++ rest) 0) ≡ some (s, at pre (bytes ++ rest) (length bytes))

module _ (pre rest : List ℕ) (v : ℤ) where
  int8-Gives :
      within (2 ^ 7) v ≡ true → Gives pre (192 ∷ le_bytes 1 (to_unsigned (2 ^ 8) v)) rest (itoa v)
  unfolding read_string read_encoded read_len_from
  int8-Gives h =
      let u = to_unsigned (2 ^ 8) v in
      let s = le_bytes 1 u in
      let marked : read_len (at pre (192 ∷ (s ++ rest)) 0)
          ≡ some ((0, true), at pre (192 ∷ (s ++ rest)) 1) =
        read_len_first pre (s ++ rest) 192 in
      let small : u < 256 ^ 1 = ground arith in
      let back : to_signed (2 ^ 7) (from_le s) ≡ v =
        ap (to_signed (2 ^ 7)) (from_le-le_bytes 1 u small) ∙ ground arith in
      rw marked (
        rw (read_behind pre s rest 192)
          (ap (λ x. some (itoa x, at pre (192 ∷ (s ++ rest)) 2)) back))

  int16-Gives :
      within (2 ^ 15) v ≡ true → Gives pre (193 ∷ le_bytes 2 (to_unsigned (2 ^ 16) v)) rest (itoa v)
  unfolding read_string read_encoded read_len_from
  int16-Gives h =
      let u = to_unsigned (2 ^ 16) v in
      let s = le_bytes 2 u in
      let marked : read_len (at pre (193 ∷ (s ++ rest)) 0)
          ≡ some ((1, true), at pre (193 ∷ (s ++ rest)) 1) =
        read_len_first pre (s ++ rest) 193 in
      let small : u < 256 ^ 2 = ground arith in
      let back : to_signed (2 ^ 15) (from_le s) ≡ v =
        ap (to_signed (2 ^ 15)) (from_le-le_bytes 2 u small) ∙ ground arith in
      rw marked (
        rw (read_behind pre s rest 193)
          (ap (λ x. some (itoa x, at pre (193 ∷ (s ++ rest)) 3)) back))

  int32-Gives :
      within (2 ^ 31) v ≡ true → Gives pre (194 ∷ le_bytes 4 (to_unsigned (2 ^ 32) v)) rest (itoa v)
  unfolding read_string read_encoded read_len_from
  int32-Gives h =
      let u = to_unsigned (2 ^ 32) v in
      let s = le_bytes 4 u in
      let marked : read_len (at pre (194 ∷ (s ++ rest)) 0)
          ≡ some ((2, true), at pre (194 ∷ (s ++ rest)) 1) =
        read_len_first pre (s ++ rest) 194 in
      let small : u < 256 ^ 4 = ground arith in
      let back : to_signed (2 ^ 31) (from_le s) ≡ v =
        ap (to_signed (2 ^ 31)) (from_le-le_bytes 4 u small) ∙ ground arith in
      rw marked (
        rw (read_behind pre s rest 194)
          (ap (λ x. some (itoa x, at pre (194 ∷ (s ++ rest)) 5)) back))

-- A string behind its length.
pub plain-Gives :
    (pre s rest : List ℕ) → length s < 2 ^ 64 → Gives pre (len_bytes (length s) ++ s) rest s
unfolding read_string read_exact
plain-Gives pre s rest fits =
    let head = len_bytes (length s) in
    let whole : (head ++ s) ++ rest ≡ head ++ (s ++ rest) = append_assoc head s rest in
    let found : slice (pre ++ (head ++ (s ++ rest))) (length pre + length head) (length s)
        ≡ some s =
      slice-append pre (head ++ (s ++ rest)) (length head) (length s) ∙ slice_middle head s rest in
    let end : length pre + length head + length s ≡ length pre + length (head ++ s) =
      omega (arith, length-append head s) in
    rw whole (rw (read_len-len_bytes pre (s ++ rest) (length s) fits) (rw found (rw end refl)))

-- `read_string` reads every `i64` that `save_long_long_as_string` wrote as its decimal text, in each of
-- the encodings, and stops behind its bytes, whatever stands before and behind them.
pub read_string-save_long_long_as_string :
    (pre rest : List ℕ) (v : ℤ) → IsI64 v → Gives pre (save_long_long_as_string [] v) rest (itoa v)
unfolding save_long_long_as_string
read_string-save_long_long_as_string pre rest v range = elim (Bool-cases (within (2 ^ 7) v)) [
  | inl one ↦ rw one (int8-Gives pre rest v one)
  | inr more ↦ elim (Bool-cases (within (2 ^ 15) v)) [
    | inl two ↦ rw more (rw two (int16-Gives pre rest v two))
    | inr larger ↦ elim (Bool-cases (within (2 ^ 31) v)) [
      | inl four ↦ rw more (rw larger (rw four (int32-Gives pre rest v four)))
      | inr wide ↦
          rw more (
            rw larger
              (rw wide (plain-Gives pre (itoa v) rest (omega (arith, length-itoa v range)))))
    ]
  ]
]
