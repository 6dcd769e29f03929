-- ===== src/Common/Masks.antt =====
-- `&` with a low mask and `|` of disjoint fields as arithmetic, at every width.
use Prim.Native.Nat.{
  ℕ, zero, suc, ◌+◌, ◌-◌, ◌*◌, ◌/◌, ◌%◌, ◌^◌, ◌≤◌, ◌<◌, min, max, bit_and, bit_or, digits,
  bit_and-bitwise, bit_or-bitwise,
}
use mathlib.Core.Path.{◌≡◌, refl, ap}
use mathlib.Core.Bool.{Bool, true, false}
use mathlib.Core.Logic.{ite}
use native.Mathlib.Decide.{ℕ_discrete}
use native.Mathlib.Nat.{pow-suc, one-le-pow}
use native.Mathlib.Omega.{arith}

-- With enough fuel for the first number, more fuel makes no difference.
module _ (z : ℕ → ℕ) (f : ℕ → ℕ → ℕ) where
  any_fuel : (x y n m : ℕ) → (x ≤ n) × (x ≤ m) → digits z f n x y ≡ digits z f m x y
  any_fuel zero y zero zero enough = refl
  any_fuel zero y (suc n) zero enough = refl
  any_fuel zero y zero (suc m) enough = refl
  any_fuel zero y (suc n) (suc m) enough = refl
  any_fuel (suc x) y zero m enough = absurd (omega (arith, enough.0))
  any_fuel (suc x) y (suc n) zero enough = absurd (omega (arith, enough.1))
  any_fuel (suc x) y (suc n) (suc m) enough =
      let half =
        any_fuel (suc x / 2) (y / 2) n m (omega (arith, enough.0), omega (arith, enough.1)) in
      ap (λ t. t * 2 + f (suc x % 2) (y % 2)) half

zero-bit_and : (b : ℕ) → bit_and 0 b ≡ 0
zero-bit_and b = bit_and-bitwise 0 b

zero-bit_or : (b : ℕ) → bit_or 0 b ≡ b
zero-bit_or b = bit_or-bitwise 0 b

and_step : (a b : ℕ) → bit_and a b ≡ bit_and (a / 2) (b / 2) * 2 + min (a % 2) (b % 2)
and_step zero b = omega (arith, zero-bit_and b, zero-bit_and (b / 2))
and_step (suc a) b = omega (
  arith,
  bit_and-bitwise (suc a) b,
  bit_and-bitwise (suc a / 2) (b / 2),
  any_fuel (λ b. 0) min (suc a / 2) (b / 2) a (suc a / 2) (omega arith, omega arith),
)

or_step : (a b : ℕ) → bit_or a b ≡ bit_or (a / 2) (b / 2) * 2 + max (a % 2) (b % 2)
or_step zero b = omega (arith, zero-bit_or b, zero-bit_or (b / 2))
or_step (suc a) b = omega (
  arith,
  bit_or-bitwise (suc a) b,
  bit_or-bitwise (suc a / 2) (b / 2),
  any_fuel (λ b. b) max (suc a / 2) (b / 2) a (suc a / 2) (omega arith, omega arith),
)

or_zero_below : (n a : ℕ) → a ≤ n → bit_or a 0 ≡ a
or_zero_below n zero h = refl
or_zero_below zero (suc a) h = absurd (omega arith)
or_zero_below (suc n) (suc a) h =
    omega (arith, or_step (suc a) 0, or_zero_below n (suc a / 2) (omega arith))

and_zero_below : (n a : ℕ) → a ≤ n → bit_and a 0 ≡ 0
and_zero_below n zero h = refl
and_zero_below zero (suc a) h = absurd (omega arith)
and_zero_below (suc n) (suc a) h =
    omega (arith, and_step (suc a) 0, and_zero_below n (suc a / 2) (omega arith))

twice_pow : (q k : ℕ) → q * 2 ^ suc k ≡ 2 * (q * 2 ^ k)
twice_pow q k = omega (arith, ap (λ (t : ℕ). q * t) (pow-suc 2 k))

-- `(q << k) | r` is a sum where `r` has `k` bits.
pub bit_or_fields : (k q r : ℕ) → r < 2 ^ k → bit_or (q * 2 ^ k) r ≡ q * 2 ^ k + r
bit_or_fields zero q r fits = ground (arith, or_zero_below q q)
bit_or_fields (suc k) q r fits =
    ground
      (arith, or_step (q * 2 ^ suc k) r, twice_pow q k, bit_or_fields k q (r / 2) (omega arith))

-- The same with the low field first.
pub bit_or_low : (k q r : ℕ) → r < 2 ^ k → bit_or r (q * 2 ^ k) ≡ q * 2 ^ k + r
bit_or_low zero q r fits =
    let e : r ≡ 0 = omega arith in rw (e, zero-bit_or (q * 2 ^ 0)) (omega arith)
bit_or_low (suc k) q r fits =
    ground (arith, or_step r (q * 2 ^ suc k), twice_pow q k, bit_or_low k q (r / 2) (omega arith))

and_fields : (k q r : ℕ) → r < 2 ^ k → bit_and (q * 2 ^ k + r) (2 ^ k - 1) ≡ r
and_fields zero q r fits = ground (arith, and_zero_below q q)
and_fields (suc k) q r fits = ground (
  arith,
  and_step (q * 2 ^ suc k + r) (2 ^ suc k - 1),
  twice_pow q k,
  pow-suc 2 k,
  and_fields k q (r / 2) (omega arith),
)

-- `a & (2 ^ k - 1)` is the remainder by `2 ^ k`.
pub bit_and_mask : (k a : ℕ) → bit_and a (2 ^ k - 1) ≡ a % 2 ^ k
bit_and_mask k a = ground (arith, one-le-pow k 2, and_fields k (a / 2 ^ k) (a % 2 ^ k))

module _ (f g : ℕ → ℕ) where
  same_below : ℕ → Bool
  unfolding ℕ_discrete
  same_below zero = true
  same_below (suc n) = ite (ℕ_discrete (f n) (g n)) (same_below n) false

  same_below→eq : (n : ℕ) → same_below n ≡ true → (i : ℕ) → i < n → f i ≡ g i
  unfolding same_below
  same_below→eq zero e i h = absurd (omega arith)
  same_below→eq (suc n) e i h = ground (arith, same_below→eq n (ground arith) i)

-- The high masks of one byte.
pub mask_80 : (b : ℕ) → b < 256 → bit_and b 0x80 ≡ b / 128 * 128
unfolding same_below
mask_80 = same_below→eq _ _ 256 refl

pub mask_c0 : (b : ℕ) → b < 256 → bit_and b 0xc0 ≡ b / 64 * 64
unfolding same_below
mask_c0 = same_below→eq _ _ 256 refl

pub mask_e0 : (b : ℕ) → b < 256 → bit_and b 0xe0 ≡ b / 32 * 32
unfolding same_below
mask_e0 = same_below→eq _ _ 256 refl

pub mask_f0 : (b : ℕ) → b < 256 → bit_and b 0xf0 ≡ b / 16 * 16
unfolding same_below
mask_f0 = same_below→eq _ _ 256 refl

-- The low masks of any number.
pub mask_7f : (b : ℕ) → bit_and b 0x7f ≡ b % 128
mask_7f b = bit_and_mask 7 b

pub mask_3f : (b : ℕ) → bit_and b 0x3f ≡ b % 64
mask_3f b = bit_and_mask 6 b

pub mask_1f : (b : ℕ) → bit_and b 0x1f ≡ b % 32
mask_1f b = bit_and_mask 5 b

pub mask_0f : (b : ℕ) → bit_and b 0x0f ≡ b % 16
mask_0f b = bit_and_mask 4 b

-- A tag of high bits over a field of low bits.
pub or_80 : (b : ℕ) → b < 128 → bit_or b 0x80 ≡ b + 128
unfolding same_below
or_80 = same_below→eq _ _ 128 refl

pub tag_80 : (b : ℕ) → b < 128 → bit_or 0x80 b ≡ 0x80 + b
tag_80 b h = bit_or_fields 7 1 b h

pub tag_40 : (b : ℕ) → b < 64 → bit_or 0x40 b ≡ 0x40 + b
tag_40 b h = bit_or_fields 6 1 b h

pub tag_c0 : (b : ℕ) → b < 64 → bit_or 0xc0 b ≡ 0xc0 + b
tag_c0 b h = bit_or_fields 6 3 b h

pub tag_e0 : (b : ℕ) → b < 32 → bit_or 0xe0 b ≡ 0xe0 + b
tag_e0 b h = bit_or_fields 5 7 b h
