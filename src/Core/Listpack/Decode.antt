-- ===== src/Core/Listpack/Decode.antt =====
-- src/core/listpack.rs: reading one element. A read past the end is `none`, as with `get(..)?`.
pub mod Prefix
pub mod Agree
use dragonflydb_rs.Common.{
  ℕ, zero, suc, ◌+◌, ◌-◌, ◌*◌, ◌/◌, ◌%◌, ◌^◌, List, [], ◌∷◌, ◌++◌, Option, none, some, Bool, ◌&&◌,
  ◌||◌, bit_and, bit_or, get_elem?, slice, ltb, leb, ◌==◌, if◌then◌else◌, ◌>>=◌,
}
use dragonflydb_rs.Common.Le.{from_le}
use dragonflydb_rs.Common.Int.{ℤ, pos, negsuc, neg, ◌-ℤ◌, to_signed}
use dragonflydb_rs.Core.Listpack.Header.{
  lp_encoding_13bit_int, lp_encoding_32bit_str, lp_encoding_16bit_int, lp_encoding_24bit_int,
  lp_encoding_32bit_int, lp_encoding_64bit_int, lp_eof,
}

-- `read_le_u16` .. `read_le_u64`: `n` bytes from `pos`, lowest first.
unfoldable pub read_le : ℕ → List ℕ → ℕ → Option ℕ
read_le n buf p = do bs ← slice buf p n; some (from_le bs)

unfoldable pub size_bytes : ℕ → ℕ
size_bytes b =
    if bit_and b 0x80 == 0 || bit_and b 0xc0 == 0x80
    then 1
    else if bit_and b 0xe0 == 0xc0
    then 2
    else if b == lp_encoding_16bit_int
    then 3
    else if b == lp_encoding_24bit_int
    then 4
    else if b == lp_encoding_32bit_int
    then 5
    else if b == lp_encoding_64bit_int
    then 9
    else if bit_and b 0xf0 == 0xe0
    then 2
    else if b == lp_encoding_32bit_str
    then 5
    else if b == lp_eof
    then 1
    else 0

-- `((b & 0x0f) << 8) | next`
abbrev pub len_12bit : ℕ → ℕ → ℕ
len_12bit b c = bit_or (bit_and b 0x0f * 2 ^ 8) c

unfoldable pub encoded_size : List ℕ → ℕ → Option ℕ
encoded_size buf p = do
  b ← get_elem? buf p
  if bit_and b 0x80 == 0
      then some 1
      else if bit_and b 0xc0 == 0x80
      then some (1 + bit_and b 0x3f)
      else if bit_and b 0xe0 == 0xc0
      then some 2
      else if b == lp_encoding_16bit_int
      then some 3
      else if b == lp_encoding_24bit_int
      then some 4
      else if b == lp_encoding_32bit_int
      then some 5
      else if b == lp_encoding_64bit_int
      then some 9
      else if bit_and b 0xf0 == 0xe0
      then (do c ← get_elem? buf (p + 1); some (2 + len_12bit b c))
      else if b == lp_encoding_32bit_str
      then (do len ← read_le 4 buf (p + 1); some (5 + len))
      else if b == lp_eof
      then some 1
      else none

pub data Entry : Type 0 where
  int : ℤ → Entry
  str : List ℕ → Entry

-- `u16::from(b & 0x1f) << 8 | u16::from(next)`
abbrev pub int_13bit : ℕ → ℕ → ℕ
int_13bit b c = bit_or (bit_and b 0x1f * 2 ^ 8) c

-- `x as i32 >> 8`, an arithmetic shift.
abbrev pub shift_right_8 : ℤ → ℤ
shift_right_8 (pos n) = pos (n / 2 ^ 8)
shift_right_8 (negsuc n) = negsuc (n / 2 ^ 8)

unfoldable pub entry_at : List ℕ → ℕ → Option Entry
entry_at buf p = do
  b ← get_elem? buf p
  if bit_and b 0x80 == 0
      then some (int (pos b))
      else if bit_and b 0xc0 == 0x80
      then (do s ← slice buf (p + 1) (bit_and b 0x3f); some (str s))
      else if bit_and b 0xe0 == 0xc0
      then (do
        c ← get_elem? buf (p + 1)
        let v = bit_and (int_13bit b c) 0x1fff
        some (int (if leb 4096 v then pos v -ℤ pos 8192 else pos v)))
      else if b == lp_encoding_16bit_int
      then (do u ← read_le 2 buf (p + 1); some (int (to_signed (2 ^ 15) u)))
      else if b == lp_encoding_24bit_int
      then (do
        u ← read_le 3 buf (p + 1)
        some (int (shift_right_8 (to_signed (2 ^ 31) (u * 2 ^ 8)))))
      else if b == lp_encoding_32bit_int
      then (do u ← read_le 4 buf (p + 1); some (int (to_signed (2 ^ 31) u)))
      else if b == lp_encoding_64bit_int
      then (do u ← read_le 8 buf (p + 1); some (int (to_signed (2 ^ 63) u)))
      else if bit_and b 0xf0 == 0xe0
      then (do c ← get_elem? buf (p + 1); s ← slice buf (p + 2) (len_12bit b c); some (str s))
      else if b == lp_encoding_32bit_str
      then (do len ← read_le 4 buf (p + 1); s ← slice buf (p + 5) len; some (str s))
      else none

-- The end of `get_integer`: `negmax.wrapping_sub(uval) as i64`, and the sign.
unfoldable pub from_parts : ℕ → ℕ → ℕ → ℤ
unfolding ◌-ℤ◌ neg
from_parts uval negstart negmax =
    if leb negstart uval
    then neg (to_signed (2 ^ 63) ((negmax + 2 ^ 64 - uval) % 2 ^ 64)) -ℤ pos 1
    else to_signed (2 ^ 63) uval

unfoldable pub get_integer : List ℕ → ℕ → Option ℤ
get_integer buf p = do
  b ← get_elem? buf p
  if ltb b 0x80
      then some (from_parts b (2 ^ 64 - 1) 0)
      else if ltb lp_encoding_32bit_str b
      then (if b == lp_encoding_16bit_int
          then (do u ← read_le 2 buf (p + 1); some (from_parts u (2 ^ 15) (2 ^ 16 - 1)))
          else if b == lp_encoding_24bit_int
          then (do u ← read_le 3 buf (p + 1); some (from_parts u (2 ^ 23) (2 ^ 24 - 1)))
          else if b == lp_encoding_32bit_int
          then (do u ← read_le 4 buf (p + 1); some (from_parts u (2 ^ 31) (2 ^ 32 - 1)))
          else if b == lp_encoding_64bit_int
          then (do u ← read_le 8 buf (p + 1); some (from_parts u (2 ^ 63) (2 ^ 64 - 1)))
          else none)
      else if leb lp_encoding_13bit_int b && ltb b 0xe0
      then (do c ← get_elem? buf (p + 1); some (from_parts (int_13bit b c) (2 ^ 12) 8191))
      else none
