-- ===== src/Util/Unsigned.antt =====
-- src/util.rs: `itoa` against `parse_u64`, and the bytes that it writes.
use dragonflydb_rs.Common.{
  ℕ, zero, suc, ◌+◌, ◌/◌, ◌%◌, ◌^◌, ◌≤◌, ◌<◌, ◌≡◌, refl, arith, some, List, [], ◌∷◌, All, ◌==◌,
  Bool-cases, inl, inr,
}
use dragonflydb_rs.Common.Int.{pos}
use dragonflydb_rs.Util.Decimal.{accumulate, write_digits, itoa, parse_u64}
use dragonflydb_rs.Util.RoundTrip.{digits_lem, accumulate-digits}

abbrev pub IsDigit : ℕ → Type 0
IsDigit b = (48 ≤ b) × (b ≤ 57)

-- `parse_u64` reads back every `u64` that `itoa` wrote.
pub parse_u64-itoa : (n : ℕ) → n < 2 ^ 64 → parse_u64 (itoa (pos n)) ≡ some n
parse_u64-itoa zero h = unfold parse_u64 itoa accumulate in refl
parse_u64-itoa (suc n) h =
    let (d, rest, e, lo, hi) = digits_lem n (omega arith) in
    let a : accumulate 0 (d ∷ rest) ≡ some (suc n) = rw (← e) (accumulate-digits n h) in
    unfold itoa in rw e (unfold parse_u64 in a)

write_digits-IsDigit :
    (place u : ℕ) (out : List ℕ) → All IsDigit out → All IsDigit (write_digits place u out)
unfolding write_digits
write_digits-IsDigit zero u out h = h
write_digits-IsDigit (suc place) u out h =
    let more =
      write_digits-IsDigit place (u / 10) ((48 + u % 10) ∷ out) ((omega arith, omega arith), h) in
    elim (Bool-cases (u == 0)) [ inl e ↦ rw e h | inr e ↦ rw e more ]

pub itoa-IsDigit : (n : ℕ) → All IsDigit (itoa (pos n))
unfolding itoa
itoa-IsDigit zero = ((omega arith, omega arith), tt)
itoa-IsDigit (suc n) = write_digits-IsDigit 20 (suc n) [] tt

-- The text of a `u64` starts with a digit.
pub itoa_head :
    (n : ℕ) → n < 2 ^ 64 → (d : ℕ) × (rest : List ℕ) × (itoa (pos n) ≡ d ∷ rest) × (48 ≤ d)
unfolding itoa
itoa_head zero h = (48, [], refl, omega arith)
itoa_head (suc n) h =
    let (d, rest, e, lo, hi) = digits_lem n (omega arith) in (d, rest, e, omega arith)
