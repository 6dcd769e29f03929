-- ===== src/Core/Intset/Parse.antt =====
-- src/core/intset.rs: `string2ll`, the strict decimal parser of set and list members.
use dragonflydb_rs.Common.{
  ℕ, ◌+◌, ◌-◌, ◌*◌, ◌^◌, ◌≤◌, ◌<◌, ◌≡◌, refl, ap, arith, List, [], ◌∷◌, Option, none, some, Bool,
  true, false, ◌&&◌, ◌||◌, not, length, ◌==◌, if◌then◌else◌, ◌>>=◌, Bool-cases, Option-cases, inl,
  inr,
}
use native.Mathlib.Nat.{pow-suc, pow-le-pow_right}
use dragonflydb_rs.Common.Int.{ℤ, pos}
use dragonflydb_rs.Util.Decimal.{accumulate, is_digit}
use dragonflydb_rs.Core.Listpack.Number.{signed, bad_digits, checked_digits, string_to_i64}

-- The digits from position `i` on: none are left, the first is refused, or the loop runs, which
-- starts at the value of the first digit.
unfoldable pub digits_from : Bool → List ℕ → Option ℤ
unfolding signed
digits_from negative [] = none
digits_from negative (d ∷ rest) =
    if not (is_digit d) || d == b'0'
    then none
    else (do v ← accumulate (d - 48) rest; signed negative v)

unfoldable pub string2ll : List ℕ → Option ℤ
unfolding digits_from
string2ll [] = none
string2ll (b ∷ s) =
    if length (b ∷ s) == 1 && b == b'0'
    then some (pos 0)
    else if b == b'-'
    then digits_from true s
    else digits_from false (b ∷ s)

digits_from_lem :
    (negative : Bool) (ds : List ℕ) → digits_from negative ds ≡ checked_digits negative ds
unfolding digits_from checked_digits accumulate
digits_from_lem negative [] = refl
digits_from_lem negative (d ∷ ds) = ground arith

-- The loop refuses what does not fit a `u64`, so it reads few digits.
accumulate_grows :
    (ds : List ℕ) (v w : ℕ)
    → accumulate v ds ≡ some w
    → v < 2 ^ 64
    → (v * 10 ^ length ds ≤ w) × (w < 2 ^ 64)
unfolding accumulate
accumulate_grows [] v w e h = (ground arith, ground arith)
accumulate_grows (b ∷ ds) v w e h =
    let v' = v * 10 + (b - 48) in
    let fits : v' < 2 ^ 64 = ground arith in
    let rest : accumulate v' ds ≡ some w = unfold accumulate in ground arith in
    let (lo, hi) = accumulate_grows ds v' w rest fits in
    let scaled : v * 10 * 10 ^ length ds ≤ v' * 10 ^ length ds = grind arith in
    (omega (arith, ap (λ (t : ℕ). v * t) (pow-suc 10 (length ds))), hi)

-- A number of more than `k` digits is at least 10 ^ k.
long_value :
    (k d w : ℕ) (ds : List ℕ)
    → k ≤ length ds
    → bad_digits (d ∷ ds) ≡ false
    → accumulate 0 (d ∷ ds) ≡ some w
    → (10 ^ k ≤ w) × (w < 2 ^ 64)
long_value k d w ds h good value =
    let first : (49 ≤ d) × (d ≤ 57) × (accumulate (d - 48) ds ≡ some w) =
      unfold accumulate bad_digits in (ground arith, ground arith, ground arith) in
    let (lo, hi) = accumulate_grows ds (d - 48) w first.2 (omega arith) in
    let many : 10 ^ k ≤ 10 ^ length ds = pow-le-pow_right (omega arith) h in
    let scaled : 10 ^ length ds ≤ (d - 48) * 10 ^ length ds = grind arith in (omega arith, hi)

too_long :
    (negative : Bool) (k : ℕ) (ds : List ℕ)
    → ((w : ℕ) → 10 ^ k ≤ w → w < 2 ^ 64 → signed negative w ≡ none)
    → k < length ds
    → checked_digits negative ds ≡ none
too_long negative k [] refuses h = absurd (omega arith)
too_long negative k (d ∷ ds) refuses h = elim (Option-cases (accumulate 0 (d ∷ ds))) [
  | inl none_there ↦ unfold checked_digits in ground arith
  | inr (w, value) ↦ elim (Bool-cases (bad_digits (d ∷ ds))) [
    | inl bad ↦ unfold checked_digits in rw bad
    | inr good ↦
        let (lo, hi) = long_value k d w ds (omega arith) good value in
        unfold checked_digits in rw (good, value) (refuses w lo hi)
  ]
]

long_digits : (ds : List ℕ) → 21 ≤ length ds → checked_digits false ds ≡ none
unfolding signed
long_digits ds h = too_long false 20 ds (λ w lo hi. absurd (omega arith)) h

long_negative : (ds : List ℕ) → 20 ≤ length ds → checked_digits true ds ≡ none
unfolding signed
long_negative ds h = too_long true 19 ds (λ w lo hi. ground arith) h

-- The two decimal parsers of the program agree on every string: `string2ll` of the intset codec
-- and `string_to_i64` of the listpack codec.
pub string2ll-eq-string_to_i64 : (s : List ℕ) → string2ll s ≡ string_to_i64 s
unfolding string2ll string_to_i64
string2ll-eq-string_to_i64 [] = refl
string2ll-eq-string_to_i64 (b ∷ s) = ground (
  arith,
  digits_from_lem true s,
  digits_from_lem false (b ∷ s),
  long_digits (b ∷ s),
  long_negative s,
)
