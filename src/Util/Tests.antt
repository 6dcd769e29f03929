-- ===== src/Util/Tests.antt =====
-- Runs of the functions of src/util.rs.
use dragonflydb_rs.Common.{◌-◌, ◌^◌, ◌≡◌, refl, arith, some, [], ◌∷◌}
use dragonflydb_rs.Common.Int.{pos, negsuc}
use dragonflydb_rs.Util.Decimal.{itoa, accumulate, parse_i64}
use dragonflydb_rs.Util.Range.{redis_range}
use dragonflydb_rs.Util.RoundTrip.{parse_i64-itoa}

itoa_runs : itoa (negsuc 119) ≡ b'-' ∷ b'1' ∷ b'2' ∷ b'0' ∷ []
unfolding itoa
itoa_runs = refl

parse_runs : parse_i64 (b'+' ∷ b'1' ∷ b'2' ∷ []) ≡ some (pos 12)
unfolding parse_i64 accumulate
parse_runs = refl

range_last_two : redis_range (negsuc 1) (negsuc 0) (pos 5) ≡ some (pos 3, pos 2)
unfolding redis_range
range_last_two = refl

parse_i64-itoa_example : parse_i64 (itoa (negsuc (2 ^ 63 - 1))) ≡ some (negsuc (2 ^ 63 - 1))
parse_i64-itoa_example = parse_i64-itoa (negsuc (2 ^ 63 - 1)) (omega arith, omega arith)
