-- ===== src/Core/Listpack/Build.antt =====
-- src/core/listpack.rs: the incremental builder `Listpack`.
pub mod Layout
use dragonflydb_rs.Common.{
  ℕ, zero, suc, ◌+◌, ◌-◌, ◌*◌, ◌%◌, ◌^◌, List, [], ◌∷◌, ◌++◌, Option, none, some, Bool, true, false,
  not, ◌&&◌, ◌||◌, init, length, ltb, leb, ◌==◌, if◌then◌else◌, ◌>>=◌,
}
use dragonflydb_rs.Common.Int.{ℤ}
use dragonflydb_rs.Core.Listpack.Header.{
  lp_hdr_size, lp_eof, lp_hdr_numele_unknown, total_bytes, num_elements, set_total,
  set_num_elements,
}
use dragonflydb_rs.Core.Listpack.Backlen.{backlen_size, write_backlen}
use dragonflydb_rs.Core.Listpack.Number.{string_to_i64}
use dragonflydb_rs.Core.Listpack.Encode.{encode_integer, string_head}

pub record Listpack : Type 0 where
  pub buf : List ℕ

-- `Listpack::new`: seven zero bytes, the total, and the terminator.
unfoldable pub new : Listpack
new = record { buf = set_total (0 ∷ 0 ∷ 0 ∷ 0 ∷ 0 ∷ 0 ∷ lp_eof ∷ []) (lp_hdr_size + 1) }

-- `if cur != UNKNOWN { set_num_elements(cur + 1) }`
unfoldable pub count_one : List ℕ → List ℕ
count_one buf =
    if num_elements buf == lp_hdr_numele_unknown
    then buf
    else set_num_elements buf (num_elements buf + 1)

unfoldable pub append_encoded : Listpack → List ℕ → Listpack
append_encoded lp elem =
    let enclen = length elem in
    let new_total = total_bytes lp.buf + enclen + backlen_size enclen in
    let body = write_backlen (init lp.buf ++ elem) enclen ++ lp_eof ∷ [] in
    record { buf = set_total (count_one body) (new_total % 2 ^ 32) }

unfoldable pub append_integer : Listpack → ℤ → Listpack
append_integer lp v = append_encoded lp (encode_integer v)

-- The two branches of `append_bytes` on what `string_to_i64` returns.
unfoldable pub append_parsed : Listpack → List ℕ → Option ℤ → Listpack
append_parsed lp s (some v) = append_integer lp v
append_parsed lp s none = append_encoded lp (string_head (length s) ++ s)

unfoldable pub append_bytes : Listpack → List ℕ → Listpack
unfolding append_parsed
append_bytes lp s = append_parsed lp s (string_to_i64 s)

unfoldable pub elements : Listpack → ℕ
elements lp = num_elements lp.buf

unfoldable pub byte_len : Listpack → ℕ
byte_len lp = total_bytes lp.buf

unfoldable pub into_vec : Listpack → List ℕ
into_vec lp = lp.buf
