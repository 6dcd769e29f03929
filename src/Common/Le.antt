-- ===== src/Common/Le.antt =====
-- `to_le_bytes` and `from_le_bytes` of the unsigned integers, and their big-endian twins.
use Prim.Native.Nat.{ℕ, zero, suc, ◌+◌, ◌*◌, ◌/◌, ◌%◌, ◌^◌, ◌<◌}
use mathlib.Core.Path.{◌≡◌, refl, ap}
use mathlib.Core.List.{List, [], ◌∷◌, reverse, reverse-reverse}
use native.Mathlib.Nat.{pow-suc}
use native.Mathlib.Omega.{arith}
use mathlib.Core.Logic.{inl, inr}
use mathlib.Core.Option.{some}
use dragonflydb_rs.Common.Lists.{
  length, All, get_elem?, take, drop, slice, length-take, length-drop,
}
use dragonflydb_rs.Common.Tests.{leb, Bool-cases}

abbrev pub IsByte : ℕ → Type 0
IsByte b = b < 256

-- The `n` low bytes of `v`, lowest first.
abbrev pub le_bytes : ℕ → ℕ → List ℕ
le_bytes zero v = []
le_bytes (suc n) v = v % 256 ∷ le_bytes n (v / 256)

abbrev pub from_le : List ℕ → ℕ
from_le [] = 0
from_le (b ∷ bs) = b + 256 * from_le bs

pub length-le_bytes : (n v : ℕ) → length (le_bytes n v) ≡ n
length-le_bytes zero v = refl
length-le_bytes (suc n) v = ap suc (length-le_bytes n (v / 256))

pub le_bytes-IsByte : (n v : ℕ) → All IsByte (le_bytes n v)
le_bytes-IsByte zero v = tt
le_bytes-IsByte (suc n) v = (omega arith, le_bytes-IsByte n (v / 256))

pub from_le-le_bytes : (n v : ℕ) → v < 256 ^ n → from_le (le_bytes n v) ≡ v
from_le-le_bytes zero v h = omega arith
from_le-le_bytes (suc n) v h =
    let fits : v < 256 * 256 ^ n = omega (arith, pow-suc 256 n) in
    omega (arith, from_le-le_bytes n (v / 256) (omega arith))

-- Highest first.
abbrev pub be_bytes : ℕ → ℕ → List ℕ
be_bytes n v = reverse (le_bytes n v)

abbrev pub from_be : List ℕ → ℕ
from_be bs = from_le (reverse bs)

pub from_be-be_bytes : (n v : ℕ) → v < 256 ^ n → from_be (be_bytes n v) ≡ v
from_be-be_bytes n v h = rw reverse-reverse (from_le-le_bytes n v h)

pub from_le-lt : (bs : List ℕ) → All IsByte bs → from_le bs < 256 ^ length bs
from_le-lt [] h = omega arith
from_le-lt (b ∷ bs) h = omega (arith, h.0, from_le-lt bs h.1, pow-suc 256 (length bs))

pub get_elem?-lt : (bs : List ℕ) (i b : ℕ) → All IsByte bs → get_elem? bs i ≡ some b → b < 256
get_elem?-lt [] i b h e = cc
get_elem?-lt (x ∷ bs) zero b h e = let e' : x ≡ b = cc in omega (arith, h.0)
get_elem?-lt (x ∷ bs) (suc i) b h e = get_elem?-lt bs i b h.1 e

take-IsByte : (n : ℕ) (bs : List ℕ) → All IsByte bs → All IsByte (take n bs)
take-IsByte zero bs h = tt
take-IsByte (suc n) [] h = tt
take-IsByte (suc n) (b ∷ bs) h = (h.0, take-IsByte n bs h.1)

drop-IsByte : (n : ℕ) (bs : List ℕ) → All IsByte bs → All IsByte (drop n bs)
drop-IsByte zero bs h = h
drop-IsByte (suc n) [] h = tt
drop-IsByte (suc n) (b ∷ bs) h = drop-IsByte n bs h.1

-- The number in any slice of a byte string fits the slice.
pub slice-lt :
    (bs s : List ℕ) (i n : ℕ) → All IsByte bs → slice bs i n ≡ some s → from_le s < 256 ^ n
unfolding slice
slice-lt bs s i n h e = elim (Bool-cases (leb (i + n) (length bs))) [
  | inl fits ↦
      let cut : take n (drop i bs) ≡ s = ground arith in
      let len : length (take n (drop i bs)) ≡ n =
        ground (arith, length-take n (drop i bs), length-drop i bs) in
      rw (← cut) (rw len at (from_le-lt _ (take-IsByte n _ (drop-IsByte i bs h))))
  | inr no_fit ↦ ground arith
]
