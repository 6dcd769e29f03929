-- ===== src/Util/Decimal.antt =====
-- src/util.rs: `itoa`, `parse_i64`, `parse_u64`. The checked digit loop is also the one of
-- `string_to_i64` in core/listpack.rs and `string2ll` in core/intset.rs.
use dragonflydb_rs.Common.{
  ℕ, zero, suc, ◌+◌, ◌-◌, ◌*◌, ◌/◌, ◌%◌, ◌^◌, Bool, true, false, ◌&&◌, ◌||◌, Option, none, some,
  List, [], ◌∷◌, ◌>>=◌, ltb, leb, ◌==◌, if◌then◌else◌,
}
use dragonflydb_rs.Common.Int.{ℤ, pos, negsuc, neg, pos_part, neg_part}

-- `u8::is_ascii_digit`
abbrev pub is_digit : ℕ → Bool
is_digit b = leb 48 b && leb b 57

-- `u64::checked_mul`, `u64::checked_add`
abbrev pub checked : ℕ → Option ℕ
checked v = if ltb v (2 ^ 64) then some v else none

-- `for &b in rest { if !digit { return None }; v = v.checked_mul(10)?.checked_add(b - b'0')? }`
unfoldable pub accumulate : ℕ → List ℕ → Option ℕ
accumulate v [] = some v
accumulate v (b ∷ rest) =
    if is_digit b
    then (do v' ← checked (v * 10); v'' ← checked (v' + (b - 48)); accumulate v'' rest)
    else none

-- `while u > 0 { pos -= 1; buf[pos] = b'0' + (u % 10); u /= 10 }`: the recursion is on `pos`, the
-- places of the 20-byte buffer that are still free, and `out` is `buf[pos..]`.
unfoldable pub write_digits : ℕ → ℕ → List ℕ → List ℕ
write_digits zero u out = out
write_digits (suc place) u out =
    if u == 0 then out else write_digits place (u / 10) ((48 + u % 10) ∷ out)

-- `v.unsigned_abs()`
abbrev pub unsigned_abs : ℤ → ℕ
unsigned_abs v = pos_part v + neg_part v

unfoldable pub itoa : ℤ → List ℕ
unfolding write_digits
itoa (pos zero) = b'0' ∷ []
itoa (pos (suc n)) = write_digits 20 (suc n) []
itoa (negsuc n) = b'-' ∷ write_digits 20 (suc n) []

-- The tail of `parse_i64`, on the magnitude.
unfoldable pub with_sign : Bool → ℕ → Option ℤ
with_sign true v =
    if v == 2 ^ 63
    then some (negsuc (2 ^ 63 - 1))
    else if ltb v (2 ^ 63)
    then some (neg (pos v))
    else none
with_sign false v = if ltb v (2 ^ 63) then some (pos v) else none

-- The sign of `match s[0] { b'-' => .., b'+' => .., _ => .. }` and what follows it.
abbrev pub is_negative : ℕ → Bool
is_negative b = b == b'-'

unfoldable pub after_sign : ℕ → List ℕ → List ℕ
after_sign b s = if b == b'-' || b == b'+' then s else b ∷ s

unfoldable pub non_empty : List ℕ → Option (List ℕ)
non_empty [] = none
non_empty (b ∷ s) = some (b ∷ s)

unfoldable pub parse_i64 : List ℕ → Option ℤ
unfolding with_sign after_sign non_empty
parse_i64 [] = none
parse_i64 (b ∷ s) = do
  rest ← non_empty (after_sign b s)
  v ← accumulate 0 rest
  with_sign (is_negative b) v

unfoldable pub parse_u64 : List ℕ → Option ℕ
unfolding accumulate
parse_u64 [] = none
parse_u64 (b ∷ s) = accumulate 0 (b ∷ s)
