-- ===== src/Core/Listpack/Number.antt =====
-- src/core/listpack.rs: `string_to_i64`, which decides whether a string is stored as an integer.
pub mod Canonical
use dragonflydb_rs.Common.{
  ℕ, zero, suc, ◌+◌, ◌-◌, ◌*◌, ◌^◌, List, [], ◌∷◌, Option, none, some, Bool, true, false, ◌&&◌,
  ◌||◌, not, length, ltb, leb, ◌==◌, if◌then◌else◌, ◌>>=◌,
}
use dragonflydb_rs.Common.Int.{ℤ, pos, negsuc, neg}
use dragonflydb_rs.Util.Decimal.{accumulate, is_digit}

abbrev pub long_str_size : ℕ
long_str_size = 21

-- The digits are not empty, and do not begin with `0` or with anything that is no digit.
unfoldable pub bad_digits : List ℕ → Bool
bad_digits [] = true
bad_digits (d ∷ ds) = d == b'0' || not (is_digit d)

-- The tail of the function, on the magnitude.
unfoldable pub signed : Bool → ℕ → Option ℤ
signed true v =
    if ltb (2 ^ 63) v
    then none
    else if v == 2 ^ 63
    then some (negsuc (2 ^ 63 - 1))
    else some (neg (pos v))
signed false v = if ltb (2 ^ 63 - 1) v then none else some (pos v)

unfoldable pub checked_digits : Bool → List ℕ → Option ℤ
unfolding signed bad_digits
checked_digits negative digits =
    if bad_digits digits then none else (do v ← accumulate 0 digits; signed negative v)

unfoldable pub string_to_i64 : List ℕ → Option ℤ
string_to_i64 [] = none
string_to_i64 (b ∷ s) =
    if leb long_str_size (length (b ∷ s))
    then none
    else if length (b ∷ s) == 1 && b == b'0'
    then some (pos 0)
    else checked_digits (b == b'-') (if b == b'-' then s else b ∷ s)
