-- ===== src/Core/Listpack/Tests.antt =====
-- Runs of src/core/listpack.rs.
use dragonflydb_rs.Common.{
  ℕ, ◌+◌, ◌^◌, ◌<◌, ◌≡◌, ◌≢◌, ◌↔◌, refl, arith, true, List, [], ◌∷◌, ◌++◌, map, some, length, All,
}
use dragonflydb_rs.Common.Int.{pos, negsuc, IsI64}
use dragonflydb_rs.Common.Le.{IsByte}
use dragonflydb_rs.Util.Decimal.{itoa, accumulate}
use dragonflydb_rs.Core.Listpack.Header.{lp_eof}
use dragonflydb_rs.Core.Listpack.Backlen.{backlen_size, write_backlen, decode_backlen}
use dragonflydb_rs.Core.Listpack.Number.{string_to_i64, checked_digits}
use dragonflydb_rs.Core.Listpack.Number.Canonical.{string_to_i64_iff}
use dragonflydb_rs.Core.Listpack.Encode.{encode_integer, string_head}
use dragonflydb_rs.Core.Listpack.Encode.RoundTrip.{encode_entry, reads_entry, Encodable}
use dragonflydb_rs.Core.Listpack.Decode.{Entry, int, str, entry_at, encoded_size, size_bytes}
use dragonflydb_rs.Core.Listpack.Build.{new, into_vec}
use dragonflydb_rs.Core.Listpack.Build.Layout.{element, body, stored, stored_body, append_all}
use dragonflydb_rs.Core.Listpack.Validate.{validate_next, validate_deep, scan, out_of_fuel}
use dragonflydb_rs.Core.Listpack.Validate.Total.{validate_deep_ends}
use dragonflydb_rs.Core.Listpack.Validate.Walk.{validate_deep-append_all}

abbrev values : List Entry
values = int (negsuc 4999) ∷ str (b'1' ∷ b'2' ∷ []) ∷ str (b'a' ∷ b'b' ∷ []) ∷ []

-- What is stored of them: the string "12" becomes a number.
values-stored : map stored values ≡ int (negsuc 4999) ∷ int (pos 12) ∷ str (b'a' ∷ b'b' ∷ []) ∷ []
unfolding stored string_to_i64 checked_digits accumulate
values-stored = refl

abbrev kept : List Entry
kept = int (negsuc 4999) ∷ int (pos 12) ∷ str (b'a' ∷ b'b' ∷ []) ∷ []

kept-Encodable : All Encodable kept
kept-Encodable = ((omega arith, omega arith), ((omega arith, omega arith), (omega arith, tt)))

values-Encodable : All Encodable (map stored values)
unfolding stored string_to_i64 checked_digits accumulate
values-Encodable = kept-Encodable

kept-size : length (body kept) + 7 < 2 ^ 32
unfolding body element encode_entry encode_integer string_head write_backlen
kept-size = omega arith

values-size : length (stored_body values) + 7 < 2 ^ 32
values-size = rw values-stored kept-size

validate_deep-append_all_example : validate_deep (into_vec (append_all new values)) ≡ true
validate_deep-append_all_example = validate_deep-append_all values values-Encodable values-size

reads_entry_example :
    (entry_at (encode_entry (int (negsuc 4999)) ++ lp_eof ∷ []) 0 ≡ some (int (negsuc 4999)))
    × (encoded_size (encode_entry (int (negsuc 4999)) ++ lp_eof ∷ []) 0
        ≡ some (length (encode_entry (int (negsuc 4999)))))
reads_entry_example = reads_entry (int (negsuc 4999)) (lp_eof ∷ []) kept-Encodable.0

string_to_i64_iff_example :
    (string_to_i64 (b'-' ∷ b'7' ∷ []) ≡ some (negsuc 6))
    ↔ (IsI64 (negsuc 6) × (itoa (negsuc 6) ≡ b'-' ∷ b'7' ∷ []))
string_to_i64_iff_example = string_to_i64_iff (b'-' ∷ b'7' ∷ []) (negsuc 6)

abbrev head6 : List ℕ
head6 = 0 ∷ 0 ∷ 0 ∷ 0 ∷ 0 ∷ 0 ∷ []

abbrev small : List ℕ
small = 9 ∷ 0 ∷ 0 ∷ 0 ∷ 1 ∷ 0 ∷ 12 ∷ 1 ∷ lp_eof ∷ []

validate_deep_ends_example : scan (length small) small 6 0 ≢ out_of_fuel
validate_deep_ends_example = validate_deep_ends small (omega arith)

small_next : validate_next small 6 ≡ some 8
unfolding validate_next encoded_size decode_backlen backlen_size size_bytes
small_next = refl

small-IsByte : All IsByte small
small-IsByte = (
  omega arith,
  (
    omega arith,
    (
      omega arith,
      (omega arith, (omega arith, (omega arith, (omega arith, (omega arith, (omega arith, tt)))))),
    ),
  ),
)
