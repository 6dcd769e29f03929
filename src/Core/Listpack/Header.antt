-- ===== src/Core/Listpack/Header.antt =====
-- src/core/listpack.rs: the constants and the header fields. A buffer is its list of bytes.
use dragonflydb_rs.Common.{ℕ, ◌*◌, ◌/◌, ◌%◌, ◌^◌, List, [], ◌∷◌, bit_or, byte_at, set}
use dragonflydb_rs.Common.Le.{from_le}

abbrev pub lp_hdr_size : ℕ
lp_hdr_size = 6

abbrev pub lp_eof : ℕ
lp_eof = 0xff

abbrev pub lp_hdr_numele_unknown : ℕ
lp_hdr_numele_unknown = 0xffff

abbrev pub lp_encoding_6bit_str : ℕ
lp_encoding_6bit_str = 0x80

abbrev pub lp_encoding_13bit_int : ℕ
lp_encoding_13bit_int = 0xc0

abbrev pub lp_encoding_12bit_str : ℕ
lp_encoding_12bit_str = 0xe0

abbrev pub lp_encoding_32bit_str : ℕ
lp_encoding_32bit_str = 0xf0

abbrev pub lp_encoding_16bit_int : ℕ
lp_encoding_16bit_int = 0xf1

abbrev pub lp_encoding_24bit_int : ℕ
lp_encoding_24bit_int = 0xf2

abbrev pub lp_encoding_32bit_int : ℕ
lp_encoding_32bit_int = 0xf3

abbrev pub lp_encoding_64bit_int : ℕ
lp_encoding_64bit_int = 0xf4

unfoldable pub total_bytes : List ℕ → ℕ
total_bytes buf = from_le (byte_at buf 0 ∷ byte_at buf 1 ∷ byte_at buf 2 ∷ byte_at buf 3 ∷ [])

unfoldable pub num_elements : List ℕ → ℕ
num_elements buf = bit_or (byte_at buf 4) (byte_at buf 5 * 2 ^ 8)

unfoldable pub set_total : List ℕ → ℕ → List ℕ
set_total buf v =
    let b0 = set buf 0 (v % 256) in
    let b1 = set b0 1 (v / 2 ^ 8 % 256) in
    let b2 = set b1 2 (v / 2 ^ 16 % 256) in set b2 3 (v / 2 ^ 24 % 256)

unfoldable pub set_num_elements : List ℕ → ℕ → List ℕ
set_num_elements buf v = set (set buf 4 (v % 256)) 5 (v / 2 ^ 8 % 256)
