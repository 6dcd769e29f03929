-- ===== src/Core/Rdb.antt =====
-- src/core/rdb.rs: lengths and strings of the RDB format. A reader is the slice-backed one; `none` is
-- `RestoreError::BadDataFormat`, the one error of these functions.
pub mod Lengths
pub mod Strings
mod Tests
use dragonflydb_rs.Common.{
  ℕ, zero, suc, ◌+◌, ◌-◌, ◌*◌, ◌/◌, ◌%◌, ◌^◌, Bool, true, false, ◌&&◌, ◌||◌, bit_and, bit_or, List,
  [], ◌∷◌, ◌++◌, Option, none, some, length, get_elem?, slice, byte_at, ltb, leb, ◌==◌,
  if◌then◌else◌, bytes_eq, ◌>>=◌,
}
use dragonflydb_rs.Common.Int.{ℤ, pos, negsuc, leb_ℤ, to_signed, to_unsigned}
use dragonflydb_rs.Common.Le.{le_bytes, from_le, be_bytes, from_be}
use dragonflydb_rs.Util.Decimal.{itoa}
use dragonflydb_rs.Core.Intset.Parse.{string2ll}
use dragonflydb_rs.Core.Lzf.{decompress}

abbrev pub rdb_14bitlen : ℕ
rdb_14bitlen = 1

abbrev pub rdb_32bitlen : ℕ
rdb_32bitlen = 0x80

abbrev pub rdb_64bitlen : ℕ
rdb_64bitlen = 0x81

abbrev pub rdb_encval : ℕ
rdb_encval = 3

abbrev pub rdb_enc_int8 : ℕ
rdb_enc_int8 = 0

abbrev pub rdb_enc_int16 : ℕ
rdb_enc_int16 = 1

abbrev pub rdb_enc_int32 : ℕ
rdb_enc_int32 = 2

abbrev pub rdb_enc_lzf : ℕ
rdb_enc_lzf = 3

-- The bytes that `write_len` appends.
unfoldable pub len_bytes : ℕ → List ℕ
len_bytes len =
    if ltb len (2 ^ 6)
    then len % 256 ∷ []
    else if ltb len (2 ^ 14)
    then bit_or (bit_and (len / 2 ^ 8 % 256) 0x3f) (rdb_14bitlen * 2 ^ 6) ∷ len % 256 ∷ []
    else if ltb len (2 ^ 32)
    then rdb_32bitlen ∷ be_bytes 4 len
    else rdb_64bitlen ∷ be_bytes 8 len

unfoldable pub write_len : List ℕ → ℕ → List ℕ
unfolding len_bytes
write_len out len = out ++ len_bytes len

-- `(RDB_ENCVAL << 6) | enc`
abbrev pub marker : ℕ → ℕ
marker enc = bit_or (rdb_encval * 2 ^ 6) enc

-- `(-half..=half - 1).contains(&value)`
abbrev pub within : ℕ → ℤ → Bool
within half value = leb_ℤ (negsuc (half - 1)) value && leb_ℤ value (pos (half - 1))

unfoldable pub encode_integer : ℤ → Option (List ℕ)
encode_integer value =
    if within (2 ^ 7) value
    then some (marker rdb_enc_int8 ∷ le_bytes 1 (to_unsigned (2 ^ 8) value))
    else if within (2 ^ 15) value
    then some (marker rdb_enc_int16 ∷ le_bytes 2 (to_unsigned (2 ^ 16) value))
    else if within (2 ^ 31) value
    then some (marker rdb_enc_int32 ∷ le_bytes 4 (to_unsigned (2 ^ 32) value))
    else none

unfoldable pub try_integer_encoding : List ℕ → Option (List ℕ)
unfolding encode_integer
try_integer_encoding s =
    if ltb 11 (length s)
    then none
    else (do value ← string2ll s; if bytes_eq (itoa value) s then encode_integer value else none)

-- The encoding where there is one, or the length and the decimal text.
unfoldable pub save_encoded : List ℕ → ℤ → Option (List ℕ) → List ℕ
unfolding write_len
save_encoded out value (some enc) = out ++ enc
save_encoded out value none = write_len out (length (itoa value)) ++ itoa value

unfoldable pub save_long_long_as_string : List ℕ → ℤ → List ℕ
unfolding save_encoded encode_integer
save_long_long_as_string out value = save_encoded out value (encode_integer value)

pub record Reader : Type 0 where
  pub buf : List ℕ
  pub position : ℕ

unfoldable pub read_u8 : Reader → Option (ℕ × Reader)
read_u8 r = do b ← get_elem? r.buf r.position; some (b, record r { position = r.position + 1 })

unfoldable pub read_exact : Reader → ℕ → Option (List ℕ × Reader)
read_exact r n = do s ← slice r.buf r.position n; some (s, record r { position = r.position + n })

-- The `match` on the first byte.
unfoldable pub read_len_from : ℕ → Reader → Option ((ℕ × Bool) × Reader)
unfolding read_u8 read_exact
read_len_from b r =
    if b / 2 ^ 6 == 0
    then some ((bit_and b 0x3f, false), r)
    else if b / 2 ^ 6 == 1
    then (do (lo, r') ← read_u8 r; some ((bit_or (bit_and b 0x3f * 2 ^ 8) lo, false), r'))
    else if b / 2 ^ 6 == 2
    then (if b == 0x80
        then (do (s, r') ← read_exact r 4; some ((from_be s, false), r'))
        else if b == 0x81
        then (do (s, r') ← read_exact r 8; some ((from_be s, false), r'))
        else none)
    else some ((bit_and b 0x3f, true), r)

unfoldable pub read_len : Reader → Option ((ℕ × Bool) × Reader)
unfolding read_len_from
read_len r = do (b, r') ← read_u8 r; read_len_from b r'

-- The LZF branch of `read_string`.
unfoldable pub read_lzf : Reader → Option (List ℕ × Reader)
unfolding read_len
read_lzf r = do
  ((clen, _), r1) ← read_len r
  ((ulen, _), r2) ← read_len r1
  if clen == 0 || leb ulen clen || ltb (2 ^ 29) ulen
      then none
      else (do (comp, r3) ← read_exact r2 clen; s ← decompress comp ulen; some (s, r3))

-- An encoded string of the kind `enc`.
unfoldable pub read_encoded : ℕ → Reader → Option (List ℕ × Reader)
unfolding read_lzf
read_encoded enc r =
    if enc == rdb_enc_int8
    then (do (s, r') ← read_exact r 1; some (itoa (to_signed (2 ^ 7) (from_le s)), r'))
    else if enc == rdb_enc_int16
    then (do (s, r') ← read_exact r 2; some (itoa (to_signed (2 ^ 15) (from_le s)), r'))
    else if enc == rdb_enc_int32
    then (do (s, r') ← read_exact r 4; some (itoa (to_signed (2 ^ 31) (from_le s)), r'))
    else if enc == rdb_enc_lzf
    then read_lzf r
    else none

unfoldable pub read_string : Reader → Option (List ℕ × Reader)
unfolding read_len read_encoded
read_string r = do
  ((len, encoded), r') ← read_len r
  if encoded then read_encoded (len % 256) r' else read_exact r' len
