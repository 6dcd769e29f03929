-- ===== src/Util/RoundTrip.antt =====
-- src/util.rs: `itoa` against `parse_i64`.
use dragonflydb_rs.Common.{
  ℕ, zero, suc, ◌+◌, ◌-◌, ◌*◌, ◌/◌, ◌%◌, ◌^◌, ◌≤◌, ◌<◌, ◌≡◌, refl, ap, ◌∙◌, arith, some, List, [],
  ◌∷◌, ◌++◌, length,
}
use native.Mathlib.Decide.{dec_lt}
use native.Mathlib.Nat.{pow-suc}
use dragonflydb_rs.Common.Int.{ℤ, pos, negsuc, neg, IsI64}
use dragonflydb_rs.Util.Decimal.{accumulate, write_digits, itoa, parse_i64}

pub write_digits_zero : (place : ℕ) (out : List ℕ) → write_digits place 0 out ≡ out
unfolding write_digits
write_digits_zero zero out = refl
write_digits_zero (suc place) out = refl

pub write_digits_step :
    (place u : ℕ) (out : List ℕ)
    → 0 < u
    → write_digits (suc place) u out ≡ write_digits place (u / 10) ((48 + u % 10) ∷ out)
unfolding write_digits
write_digits_step place u out h = ground arith

-- One digit that keeps the value a `u64` is taken in.
pub accumulate_digit :
    (v d : ℕ) (rest : List ℕ)
    → d < 10
    → v * 10 + d < 2 ^ 64
    → accumulate v ((48 + d) ∷ rest) ≡ accumulate (v * 10 + d) rest
unfolding accumulate
accumulate_digit v d rest h fits = ground arith

pub accumulate-write_digits :
    (place u : ℕ) (out : List ℕ)
    → u < 10 ^ place
    → u < 2 ^ 64
    → accumulate 0 (write_digits place u out) ≡ accumulate u out
accumulate-write_digits zero u out h fits =
    let e : u ≡ 0 = omega arith in rw (e, write_digits_zero 0 out)
accumulate-write_digits (suc place) zero out h fits = rw (write_digits_zero (suc place) out)
accumulate-write_digits (suc place) (suc u) out h fits =
    let small : suc u < 10 * 10 ^ place = omega (arith, pow-suc 10 place) in
    ap (accumulate 0) (write_digits_step place (suc u) out (omega arith))
    ∙ accumulate-write_digits place (suc u / 10) ((48 + suc u % 10) ∷ out) (omega arith)
        (omega arith)
    ∙ accumulate_digit (suc u / 10) (suc u % 10) out (omega arith) (omega arith)
    ∙ ap (λ t. accumulate t out) (omega arith)

-- The first digit that is written is not a zero.
pub write_digits_head :
    (place u : ℕ) (out : List ℕ)
    → 0 < u
    → u < 10 ^ place
    → (d : ℕ) × (rest : List ℕ) × (write_digits place u out ≡ d ∷ rest) × (49 ≤ d) × (d ≤ 57)
write_digits_head zero u out h small = absurd (omega arith)
write_digits_head (suc place) u out h small = elim (dec_lt u 10) [
  | yes one ↦ (
    48 + u % 10,
    out,
    write_digits_step place u out h
        ∙ ap (λ t. write_digits place t ((48 + u % 10) ∷ out)) (omega arith)
        ∙ write_digits_zero place _,
    omega arith,
    omega arith,
  )
  | no more ↦
      let small' : u < 10 * 10 ^ place = omega (arith, pow-suc 10 place) in
      let (d, rest, e, lo, hi) =
        write_digits_head place (u / 10) ((48 + u % 10) ∷ out) (omega arith) (omega arith) in
      (d, rest, write_digits_step place u out h ∙ e, lo, hi)
]

-- The digits of `suc n`, as the proofs below use them.
pub digits_lem :
    (n : ℕ)
    → suc n < 10 ^ 20
    → (d : ℕ) × (rest : List ℕ) × (write_digits 20 (suc n) [] ≡ d ∷ rest) × (49 ≤ d) × (d ≤ 57)
digits_lem n h = write_digits_head 20 (suc n) [] (omega arith) h

pub accumulate-digits :
    (n : ℕ) → suc n < 2 ^ 64 → accumulate 0 (write_digits 20 (suc n) []) ≡ some (suc n)
unfolding accumulate
accumulate-digits n h = accumulate-write_digits 20 (suc n) [] (omega arith) h

positive :
    (d : ℕ) (rest : List ℕ) (n : ℕ)
    → 49 ≤ d
    → d ≤ 57
    → accumulate 0 (d ∷ rest) ≡ some n
    → n < 2 ^ 63
    → parse_i64 (d ∷ rest) ≡ some (pos n)
unfolding parse_i64
positive d rest n lo hi a h = ground arith

negative :
    (d : ℕ) (rest : List ℕ) (n : ℕ)
    → accumulate 0 (d ∷ rest) ≡ some (suc n)
    → suc n ≤ 2 ^ 63
    → parse_i64 (b'-' ∷ d ∷ rest) ≡ some (negsuc n)
unfolding parse_i64
negative d rest n a h = unfold neg in ground arith

-- `parse_i64` reads back every `i64` that `itoa` wrote, `i64::MIN` included.
pub parse_i64-itoa : (v : ℤ) → IsI64 v → parse_i64 (itoa v) ≡ some v
parse_i64-itoa (pos zero) h = unfold parse_i64 itoa accumulate in refl
parse_i64-itoa (pos (suc n)) h =
    let (d, rest, e, lo, hi) = digits_lem n (omega arith) in
    let a : accumulate 0 (d ∷ rest) ≡ some (suc n) = rw (← e) (accumulate-digits n (omega arith)) in
    unfold itoa in rw e (positive d rest (suc n) lo hi a h.0)
parse_i64-itoa (negsuc n) h =
    let (d, rest, e, lo, hi) = digits_lem n (omega arith) in
    let a : accumulate 0 (d ∷ rest) ≡ some (suc n) = rw (← e) (accumulate-digits n (omega arith)) in
    unfold itoa in rw e (negative d rest n a h.1)

-- The number of digits.
pub length-write_digits :
    (k place u : ℕ) (out : List ℕ) → u < 10 ^ k → length (write_digits place u out) ≤ k + length out
length-write_digits zero place u out h =
    let e : u ≡ 0 = omega arith in rw (e, write_digits_zero place out) (omega arith)
length-write_digits (suc k) zero u out h = unfold write_digits in omega arith
length-write_digits (suc k) (suc place) zero out h =
    rw (write_digits_zero (suc place) out) (omega arith)
length-write_digits (suc k) (suc place) (suc u) out h =
    let small : suc u < 10 * 10 ^ k = omega (arith, pow-suc 10 k) in
    rw (write_digits_step place (suc u) out (omega arith)) (
      omega
        (arith, length-write_digits k place (suc u / 10) ((48 + suc u % 10) ∷ out) (omega arith)))

-- `itoa` never leaves its buffer of 20 bytes.
pub length-itoa : (v : ℤ) → IsI64 v → length (itoa v) ≤ 20
unfolding itoa
length-itoa (pos zero) h = omega arith
length-itoa (pos (suc n)) h = omega (arith, length-write_digits 19 20 (suc n) [] (omega arith))
length-itoa (negsuc n) h = omega (arith, length-write_digits 19 20 (suc n) [] (omega arith))

-- The digits that were read are the digits that are written for the value.
accumulate_step :
    (v b : ℕ) (rest : List ℕ) (w : ℕ)
    → accumulate v (b ∷ rest) ≡ some w
    → (48 ≤ b) × (b ≤ 57) × (accumulate (v * 10 + (b - 48)) rest ≡ some w)
unfolding accumulate
accumulate_step v b rest w h = (ground arith, ground arith, ground arith)

pub write_digits-accumulate :
    (ds : List ℕ) (v w place : ℕ) (out : List ℕ)
    → 0 < v
    → accumulate v ds ≡ some w
    → write_digits (length ds + place) w out ≡ write_digits place v (ds ++ out)
write_digits-accumulate [] v w place out h e =
    let same : v ≡ w = unfold accumulate in ground arith in
    let here : 0 + place ≡ place = omega arith in rw (here, same)
write_digits-accumulate (b ∷ ds) v w place out h e =
    let (lo, hi, next) = accumulate_step v b ds w e in
    let v' = v * 10 + (b - 48) in
    let here : suc (length ds) + place ≡ length ds + suc place = omega arith in
    let digit : 48 + v' % 10 ≡ b = omega arith in
    let rest : v' / 10 ≡ v = omega arith in
    rw here (
      write_digits-accumulate ds v' w (suc place) out (omega arith) next
      ∙ write_digits_step place v' (ds ++ out) (omega arith)
      ∙ rw (digit, rest) refl)
