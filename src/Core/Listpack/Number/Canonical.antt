-- ===== src/Core/Listpack/Number/Canonical.antt =====
-- src/core/listpack.rs: `string_to_i64` accepts the canonical decimals of the `i64` range.
use dragonflydb_rs.Common.{
  ℕ, zero, suc, ◌+◌, ◌-◌, ◌*◌, ◌/◌, ◌%◌, ◌^◌, ◌≤◌, ◌<◌, ◌≡◌, ◌↔◌, refl, ap, ◌∙◌, arith, List, [],
  ◌∷◌, ◌++◌, append-nil, some, Bool, true, false, ◌&&◌, length, ◌==◌, if◌then◌else◌, Bool-cases,
  Option-cases, inl, inr,
}
use native.Mathlib.Decide.{dec_lt}
use dragonflydb_rs.Common.Int.{ℤ, pos, negsuc, neg, IsI64}
use dragonflydb_rs.Util.Decimal.{accumulate, itoa, write_digits}
use dragonflydb_rs.Util.RoundTrip.{
  digits_lem, accumulate-digits, length-itoa, write_digits-accumulate, write_digits_step,
  write_digits_zero,
}
use dragonflydb_rs.Core.Listpack.Number.{string_to_i64, checked_digits, signed}

-- What `checked_digits` accepts is the digits of the magnitude.
digits_canonical :
    (d w : ℕ) (ds : List ℕ)
    → 49 ≤ d
    → d ≤ 57
    → length ds ≤ 19
    → accumulate 0 (d ∷ ds) ≡ some w
    → write_digits 20 w [] ≡ d ∷ ds
digits_canonical d w ds lo hi few e =
    let first : accumulate (d - 48) ds ≡ some w = unfold accumulate in ground arith in
    let split : 20 ≡ length ds + suc (19 - length ds) = omega arith in
    let digit : 48 + (d - 48) % 10 ≡ d = omega arith in
    let none_left : (d - 48) / 10 ≡ 0 = omega arith in
    ap (λ n. write_digits n w []) split
    ∙ write_digits-accumulate ds (d - 48) w (suc (19 - length ds)) [] (omega arith) first
    ∙ write_digits_step (19 - length ds) (d - 48) (ds ++ []) (omega arith)
    ∙ rw (digit, none_left, append-nil) (write_digits_zero (19 - length ds) (d ∷ ds))

accumulate-le : (ds : List ℕ) (v w : ℕ) → accumulate v ds ≡ some w → v ≤ w
unfolding accumulate
accumulate-le [] v w e = ground arith
accumulate-le (b ∷ ds) v w e = ground (arith, accumulate-le ds (v * 10 + (b - 48)) w)

-- The values that `signed` makes of a magnitude, and their decimal text.
signed_text :
    (negative : Bool) (w : ℕ) (v : ℤ)
    → signed negative w ≡ some v
    → 0 < w
    → IsI64 v × (itoa v ≡ (if negative then b'-' ∷ write_digits 20 w [] else write_digits 20 w []))
signed_text negative zero v e h = absurd (omega arith)
signed_text true (suc n) v e h = elim (dec_lt (2 ^ 63) (suc n)) [
  | yes big ↦ absurd (unfold signed in ground arith)
  | no small ↦
      let value : v ≡ negsuc n = unfold signed neg in ground arith in
      rw value (omega arith, unfold itoa in refl)
]
signed_text false (suc n) v e h =
    let value : (v ≡ pos (suc n)) × (suc n < 2 ^ 63) = unfold signed in ground arith in
    rw (value.0) (omega arith, unfold itoa in refl)

pub checked_digits_text :
    (negative : Bool) (digits : List ℕ) (v : ℤ)
    → length digits ≤ 20
    → checked_digits negative digits ≡ some v
    → IsI64 v × (itoa v ≡ (if negative then b'-' ∷ digits else digits))
checked_digits_text negative [] v few e = absurd (unfold checked_digits in cc)
checked_digits_text negative (d ∷ ds) v few e = elim (Option-cases (accumulate 0 (d ∷ ds))) [
  | inl stuck ↦ absurd (unfold checked_digits in ground arith)
  | inr (w, value) ↦
      let range : (49 ≤ d) × (d ≤ 57) × (signed negative w ≡ some v) =
        unfold checked_digits in (ground arith, ground arith, ground arith) in
      let text : write_digits 20 w [] ≡ d ∷ ds =
        digits_canonical d w ds range.0 range.1 (omega arith) value in
      let first : accumulate (d - 48) ds ≡ some w = unfold accumulate in ground arith in
      let (ok, same) =
        signed_text negative w v range.2 (omega (arith, accumulate-le ds (d - 48) w first)) in
      (ok, rw (← text) same)
]

-- Whatever string is accepted, it is the decimal text of the value, which is an `i64`.
string_to_i64_sound : (s : List ℕ) (v : ℤ) → string_to_i64 s ≡ some v → IsI64 v × (itoa v ≡ s)
string_to_i64_sound [] v e = absurd (unfold string_to_i64 in cc)
string_to_i64_sound (b ∷ s) v e = elim (Bool-cases (b == b'-')) [
  | inl minus ↦
      let parts : (length s ≤ 19) × (checked_digits true s ≡ some v) × (b ≡ b'-') =
        unfold string_to_i64 in (ground arith, ground arith, ground arith) in
      let (ok, text) = checked_digits_text true s v (omega arith) parts.1 in (ok, rw (parts.2) text)
  | inr plain ↦ elim (Bool-cases (length (b ∷ s) == 1 && b == b'0')) [
    | inl zero_text ↦
        let value : v ≡ pos 0 = unfold string_to_i64 in ground arith in
        let tail : s ≡ [] = ground arith in
        let head : b ≡ b'0' = ground arith in
        rw (value, tail, head) (omega arith, unfold itoa in refl)
    | inr digits ↦
        let parts : (length s ≤ 19) × (checked_digits false (b ∷ s) ≡ some v) =
          unfold string_to_i64 in (ground arith, ground arith) in
        checked_digits_text false (b ∷ s) v (omega arith) parts.1
  ]
]

positive_accepted :
    (d n : ℕ) (ds : List ℕ)
    → 49 ≤ d
    → d ≤ 57
    → length (d ∷ ds) ≤ 20
    → accumulate 0 (d ∷ ds) ≡ some n
    → n < 2 ^ 63
    → string_to_i64 (d ∷ ds) ≡ some (pos n)
unfolding string_to_i64 checked_digits
positive_accepted d n ds lo hi few e fits = ground arith

negative_accepted :
    (d n : ℕ) (ds : List ℕ)
    → 49 ≤ d
    → d ≤ 57
    → length (b'-' ∷ d ∷ ds) ≤ 20
    → accumulate 0 (d ∷ ds) ≡ some (suc n)
    → suc n ≤ 2 ^ 63
    → string_to_i64 (b'-' ∷ d ∷ ds) ≡ some (negsuc n)
unfolding string_to_i64 checked_digits neg
negative_accepted d n ds lo hi few e fits = ground arith

string_to_i64-itoa : (v : ℤ) → IsI64 v → string_to_i64 (itoa v) ≡ some v
string_to_i64-itoa (pos zero) h = unfold string_to_i64 itoa in refl
string_to_i64-itoa (pos (suc n)) h =
    let (d, ds, e, lo, hi) = digits_lem n (omega arith) in
    let value : accumulate 0 (d ∷ ds) ≡ some (suc n) =
      rw (← e) (accumulate-digits n (omega arith)) in
    let text : itoa (pos (suc n)) ≡ d ∷ ds = unfold itoa in e in
    let few : length (d ∷ ds) ≤ 20 = rw text at (length-itoa (pos (suc n)) h) in
    rw text (positive_accepted d (suc n) ds lo hi few value h.0)
string_to_i64-itoa (negsuc n) h =
    let (d, ds, e, lo, hi) = digits_lem n (omega arith) in
    let value : accumulate 0 (d ∷ ds) ≡ some (suc n) =
      rw (← e) (accumulate-digits n (omega arith)) in
    let text : itoa (negsuc n) ≡ b'-' ∷ d ∷ ds = unfold itoa in ap (◌∷◌ b'-') e in
    let few : length (b'-' ∷ d ∷ ds) ≤ 20 = rw text at (length-itoa (negsuc n) h) in
    rw text (negative_accepted d n ds lo hi few value h.1)

-- `string_to_i64` returns `v` exactly when `v` is an `i64` and the string is the decimal text
-- that `itoa` writes for it.
pub string_to_i64_iff : (s : List ℕ) (v : ℤ) → (string_to_i64 s ≡ some v) ↔ (IsI64 v × (itoa v ≡ s))
string_to_i64_iff s v = (string_to_i64_sound s v, λ h. rw (← h.1) (string_to_i64-itoa v h.0))
