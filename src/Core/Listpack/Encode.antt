-- ===== src/Core/Listpack/Encode.antt =====
-- src/core/listpack.rs: the element encodings that are written. `encode_integer` returns the
-- part of its output array that is used, `out[..n]`.
pub mod RoundTrip
use dragonflydb_rs.Common.{
  ℕ, zero, suc, ◌+◌, ◌-◌, ◌*◌, ◌/◌, ◌%◌, ◌^◌, List, [], ◌∷◌, ◌++◌, Bool, ◌&&◌, bit_and, bit_or,
  length, ltb, leb, if◌then◌else◌,
}
use dragonflydb_rs.Common.Le.{le_bytes}
use dragonflydb_rs.Common.Int.{ℤ, pos, negsuc, leb_ℤ, to_unsigned}
use dragonflydb_rs.Core.Listpack.Header.{
  lp_encoding_6bit_str, lp_encoding_13bit_int, lp_encoding_12bit_str, lp_encoding_32bit_str,
  lp_encoding_16bit_int, lp_encoding_24bit_int, lp_encoding_32bit_int, lp_encoding_64bit_int,
}

-- `(-half..=half - 1).contains(&v)`
abbrev pub fits : ℕ → ℤ → Bool
fits half v = leb_ℤ (negsuc (half - 1)) v && leb_ℤ v (pos (half - 1))

-- `if v < 0 { (1i64 << k) + v } else { v }`, for a `v` of at most `k` bits, whose sum is not
-- negative.
abbrev pub unsigned : ℕ → ℤ → ℕ
unsigned k (pos n) = n
unsigned k (negsuc n) = 2 ^ k - suc n

unfoldable pub encode_integer : ℤ → List ℕ
encode_integer v =
    if leb_ℤ (pos 0) v && leb_ℤ v (pos 127)
    then unsigned 8 v % 256 ∷ []
    else if fits 4096 v
    then (let uv = unsigned 13 v in bit_or lp_encoding_13bit_int (uv / 2 ^ 8 % 256) ∷ uv % 256 ∷ [])
    else if fits 32768 v
    then lp_encoding_16bit_int ∷ le_bytes 2 (unsigned 16 v)
    else if fits 8388608 v
    then lp_encoding_24bit_int ∷ le_bytes 3 (unsigned 24 v)
    else if fits 2147483648 v
    then lp_encoding_32bit_int ∷ le_bytes 4 (unsigned 32 v)
    else lp_encoding_64bit_int ∷ le_bytes 8 (to_unsigned (2 ^ 64) v)

-- The head that `append_bytes` writes before a string of `len` bytes.
unfoldable pub string_head : ℕ → List ℕ
string_head len =
    if ltb len 64
    then bit_or lp_encoding_6bit_str (len % 256) ∷ []
    else if ltb len 4096
    then bit_or lp_encoding_12bit_str (bit_and (len / 2 ^ 8 % 256) 0x0f) ∷ len % 256 ∷ []
    else lp_encoding_32bit_str ∷ le_bytes 4 (len % 2 ^ 32)
