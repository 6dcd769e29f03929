-- ===== src/Core/Listpack/Validate.antt =====
-- src/core/listpack.rs: validation, and the walk from one element to the next.
pub mod Total
pub mod Accepts
pub mod Walk
use dragonflydb_rs.Common.{
  ℕ, zero, suc, ◌+◌, ◌-◌, ◌*◌, ◌%◌, ◌^◌, List, [], ◌∷◌, Option, none, some, Bool, true, false, not,
  ◌&&◌, ◌||◌, byte_at, get_elem?, length, ltb, leb, ◌==◌, if◌then◌else◌, ◌>>=◌,
}
use dragonflydb_rs.Core.Listpack.Header.{
  lp_hdr_size, lp_eof, lp_hdr_numele_unknown, total_bytes, num_elements,
}
use dragonflydb_rs.Core.Listpack.Backlen.{backlen_size, decode_backlen}
use dragonflydb_rs.Core.Listpack.Decode.{size_bytes, encoded_size}

-- The part of `validate_next` behind the size of the element.
unfoldable pub check_backlen : List ℕ → ℕ → ℕ → Option ℕ
check_backlen buf p size =
    let backlen_bytes = backlen_size size in
    let entrylen = size + backlen_bytes in
    if ltb (length buf - 1) (p + entrylen) then none else (do
      prevlen ← decode_backlen buf (p + entrylen - 1)
      if (prevlen + backlen_bytes) % 2 ^ 64 == entrylen then some (p + entrylen) else none)

unfoldable pub validate_next : List ℕ → ℕ → Option ℕ
unfolding check_backlen
validate_next buf p =
    if ltb p lp_hdr_size || leb (length buf) p
    then none
    else if byte_at buf p == lp_eof
    then none
    else if size_bytes (byte_at buf p) == 0
    then none
    else if ltb (length buf - 1) (p + size_bytes (byte_at buf p))
    then none
    else (do size ← encoded_size buf p; check_backlen buf p size)

-- How the scanning loop of `validate_deep` ends: at an EOF byte, or at a corrupt entry.
-- `out_of_fuel` is no outcome of the source.
pub data Scan : Type 0 where
  at_eof : ℕ → ℕ → Scan
  corrupt : Scan
  out_of_fuel : Scan

unfoldable pub scan : ℕ → List ℕ → ℕ → ℕ → Scan
scan zero buf p count = out_of_fuel
scan (suc fuel) buf p count =
    if leb (length buf) p
    then corrupt
    else if byte_at buf p == lp_eof
    then at_eof p count
    else elim (validate_next buf p) [ some np ↦ scan fuel buf np (count + 1) | none ↦ corrupt ]

-- The checks behind the loop.
unfoldable pub accepts : List ℕ → Scan → Bool
accepts buf (at_eof p count) =
    p == length buf - 1 && (num_elements buf == lp_hdr_numele_unknown || num_elements buf == count)
accepts buf corrupt = false
accepts buf out_of_fuel = false

unfoldable pub validate_deep : List ℕ → Bool
unfolding scan accepts
validate_deep buf =
    if ltb (length buf) (lp_hdr_size + 1)
    then false
    else if not (total_bytes buf == length buf)
    then false
    else if not (byte_at buf (length buf - 1) == lp_eof)
    then false
    else accepts buf (scan (length buf) buf lp_hdr_size 0)

unfoldable pub first : List ℕ → Option ℕ
first buf =
    if ltb (length buf) (lp_hdr_size + 1)
    then none
    else if byte_at buf lp_hdr_size == lp_eof
    then none
    else some lp_hdr_size

unfoldable pub next : List ℕ → ℕ → Option ℕ
next buf p = do
  np ← validate_next buf p
  b ← get_elem? buf np
  if b == lp_eof then none else some np
