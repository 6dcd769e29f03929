-- ===== src/Core/Rdb/Lengths.antt =====
-- src/core/rdb.rs: `read_len` reads what `write_len` wrote.
use dragonflydb_rs.Common.{
  ℕ, suc, bit_or_low, ◌+◌, ◌*◌, ◌/◌, ◌%◌, ◌^◌, ◌<◌, ◌≡◌, refl, ap, ◌∙◌, arith, true, false, bit_and,
  bit_or, List, [], ◌∷◌, ◌++◌, some, length, slice, get_elem?-append, slice-append, slice_front,
  bit_or_fields, mask_3f, Bool-cases, inl, inr, ltb, ltb→lt, ◌==◌,
}
use dragonflydb_rs.Common.Le.{be_bytes, from_be-be_bytes}
use dragonflydb_rs.Core.Rdb.{len_bytes, Reader, read_u8, read_exact, read_len_from, read_len}

-- A reader `n` bytes behind `pre`.
abbrev pub at : List ℕ → List ℕ → ℕ → Reader
at pre rest n = record { buf = pre ++ rest; position = length pre + n }

pub read_len_first :
    (pre rest : List ℕ) (b : ℕ)
    → read_len (at pre (b ∷ rest) 0) ≡ read_len_from b (at pre (b ∷ rest) 1)
unfolding read_len read_u8
read_len_first pre rest b =
    let found = get_elem?-append pre (b ∷ rest) 0 in
    let next : length pre + 0 + 1 ≡ length pre + 1 = omega arith in rw found (rw next refl)

pub read_second :
    (pre rest : List ℕ) (b lo : ℕ)
    → read_u8 (at pre (b ∷ lo ∷ rest) 1) ≡ some (lo, at pre (b ∷ lo ∷ rest) 2)
unfolding read_u8
read_second pre rest b lo =
    let found = get_elem?-append pre (b ∷ lo ∷ rest) 1 in
    let next : length pre + 1 + 1 ≡ length pre + 2 = omega arith in rw found (rw next refl)

-- The bytes behind a first byte.
pub read_behind :
    (pre s rest : List ℕ) (b : ℕ)
    → read_exact (at pre (b ∷ (s ++ rest)) 1) (length s)
      ≡ some (s, at pre (b ∷ (s ++ rest)) (suc (length s)))
unfolding read_exact
read_behind pre s rest b =
    let found : slice (pre ++ (b ∷ (s ++ rest))) (length pre + 1) (length s) ≡ some s =
      slice-append pre (b ∷ (s ++ rest)) 1 (length s)
      ∙ slice-append (b ∷ []) (s ++ rest) 0 (length s)
      ∙ slice_front s rest in
    let next : length pre + 1 + length s ≡ length pre + suc (length s) = omega arith in
    rw found (rw next refl)

-- `read_len` gives back every length of 64 bits that `write_len` wrote, not as an encoding, and stops
-- behind its bytes, whatever stands before and behind them.
pub read_len-len_bytes :
    (pre rest : List ℕ) (len : ℕ)
    → len < 2 ^ 64
    → read_len (at pre (len_bytes len ++ rest) 0)
      ≡ some ((len, false), at pre (len_bytes len ++ rest) (length (len_bytes len)))
unfolding len_bytes read_len_from
read_len-len_bytes pre rest len fits = elim (Bool-cases (ltb len 64)) [
  | inl six ↦
      let small : len < 64 = ltb→lt len 64 six in
      let same : len % 256 ≡ len = omega arith in
      let tag : (len / 64 == 0) ≡ true = ground arith in
      let low : bit_and len 0x3f ≡ len = mask_3f len ∙ omega arith in
      rw six (rw same (read_len_first pre rest len ∙ rw tag (rw low refl)))
  | inr more ↦ elim (Bool-cases (ltb len 16384)) [
    | inl fourteen ↦
        let small : len < 16384 = ltb→lt len 16384 fourteen in
        let lo = len % 256 in
        let b = 64 + len / 256 in
        let first : bit_or (bit_and (len / 2 ^ 8 % 256) 0x3f) 64 ≡ b =
          ap (λ x. bit_or x 64) (mask_3f (len / 2 ^ 8 % 256))
          ∙ bit_or_low 6 1 (len / 2 ^ 8 % 256 % 64) (omega arith)
          ∙ omega arith in
        let value : bit_or (bit_and b 0x3f * 2 ^ 8) lo ≡ len =
          ap (λ x. bit_or (x * 2 ^ 8) lo) (mask_3f b)
          ∙ bit_or_fields 8 (b % 64) lo (omega arith)
          ∙ omega arith in
        let not_six : (b / 2 ^ 6 == 0) ≡ false = ground arith in
        let is_fourteen : (b / 2 ^ 6 == 1) ≡ true = ground arith in
        rw more (
          rw fourteen (
            rw first (
              read_len_first pre (lo ∷ rest) b
              ∙ rw not_six (
                  rw is_fourteen (
                    rw (read_second pre rest b lo)
                      (ap (λ v. some ((v, false), at pre (b ∷ lo ∷ rest) 2)) value))))))
    | inr larger ↦ elim (Bool-cases (ltb len 4294967296)) [
      | inl word ↦ rw more (
          rw larger (
            rw word (
              read_len_first pre (be_bytes 4 len ++ rest) 128
              ∙ rw (read_behind pre (be_bytes 4 len) rest 128) (
                  ap (λ v. some ((v, false), at pre (128 ∷ (be_bytes 4 len ++ rest)) 5))
                    (from_be-be_bytes 4 len (ltb→lt len 4294967296 word))))))
      | inr double ↦ rw more (
          rw larger (
            rw double (
              read_len_first pre (be_bytes 8 len ++ rest) 129
              ∙ rw (read_behind pre (be_bytes 8 len) rest 129) (
                  ap (λ v. some ((v, false), at pre (129 ∷ (be_bytes 8 len ++ rest)) 9))
                    (from_be-be_bytes 8 len (omega arith))))))
    ]
  ]
]
