-- ===== src/Core/Listpack/Decode/Agree.antt =====
-- src/core/listpack.rs: the two integer decoders.
use dragonflydb_rs.Common.{
  ℕ, ◌+◌, ◌-◌, ◌*◌, ◌%◌, ◌^◌, ◌<◌, ◌≡◌, ap, arith, List, Option, none, some, ◌>>=◌, get_elem?,
  slice, All, mask_80, mask_c0, mask_e0, mask_f0, mask_1f, bit_or_fields, bit_and_mask, bit_and,
  leb, if◌then◌else◌, Option-cases, inl, inr,
}
use dragonflydb_rs.Common.Int.{ℤ, pos, ◌-ℤ◌, to_signed}
use dragonflydb_rs.Common.Le.{IsByte, from_le, get_elem?-lt, slice-lt}
use dragonflydb_rs.Core.Listpack.Decode.{
  read_le, entry_at, get_integer, from_parts, Entry, int, str, shift_right_8, int_13bit,
}

-- `get_integer` computes a value from the range of its width; `entry_at` by a cast.
from_parts_small : (u : ℕ) → u < 128 → from_parts u (2 ^ 64 - 1) 0 ≡ pos u
unfolding from_parts
from_parts_small u h = ground arith

from_parts_16 : (u : ℕ) → u < 2 ^ 16 → from_parts u (2 ^ 15) (2 ^ 16 - 1) ≡ to_signed (2 ^ 15) u
unfolding from_parts
from_parts_16 u h = ground arith

from_parts_24 :
    (u : ℕ)
    → u < 2 ^ 24
    → from_parts u (2 ^ 23) (2 ^ 24 - 1) ≡ shift_right_8 (to_signed (2 ^ 31) (u * 2 ^ 8))
unfolding from_parts
from_parts_24 u h = ground arith

from_parts_32 : (u : ℕ) → u < 2 ^ 32 → from_parts u (2 ^ 31) (2 ^ 32 - 1) ≡ to_signed (2 ^ 31) u
unfolding from_parts
from_parts_32 u h = ground arith

from_parts_64 : (u : ℕ) → u < 2 ^ 64 → from_parts u (2 ^ 63) (2 ^ 64 - 1) ≡ to_signed (2 ^ 63) u
unfolding from_parts
from_parts_64 u h = ground arith

int_13bit_lem : (b c : ℕ) → c < 256 → int_13bit b c ≡ b % 32 * 256 + c
int_13bit_lem b c h = rw (mask_1f b) (bit_or_fields 8 (b % 32) c h)

from_parts_13 :
    (b c : ℕ)
    → c < 256
    → from_parts (int_13bit b c) (2 ^ 12) 8191
      ≡ (let v = bit_and (int_13bit b c) 0x1fff in if leb 4096 v then pos v -ℤ pos 8192 else pos v)
unfolding from_parts ◌-ℤ◌
from_parts_13 b c h = rw (int_13bit_lem b c h) (ground (arith, bit_and_mask 13 (b % 32 * 256 + c)))

unfoldable pub int_of : Option Entry → Option ℤ
int_of (some (int v)) = some v
int_of (some (str s)) = none
int_of none = none

read_le-lt :
    (n : ℕ) (buf : List ℕ) (p u : ℕ) → All IsByte buf → read_le n buf p ≡ some u → u < 256 ^ n
unfolding read_le
read_le-lt n buf p u h e = elim (Option-cases (slice buf p n)) [
  | inl missing ↦ cc (rw missing at e)
  | inr (s, found) ↦
      let value : from_le s ≡ u = ground arith in rw (← value) (slice-lt buf s p n h found)
]

-- Both decoders read the same bytes, and agree on the value of each number of the width.
module _ (f g : ℕ → ℤ) (buf : List ℕ) (p n : ℕ) (bytes : All IsByte buf) where
  read_agree :
      ((u : ℕ) → u < 256 ^ n → f u ≡ g u)
      → (do u ← read_le n buf p; some (f u)) ≡ int_of (do u ← read_le n buf p; some (int (g u)))
  unfolding int_of
  read_agree same = elim (Option-cases (read_le n buf p)) [
    | inl missing ↦ rw missing
    | inr (u, found) ↦ rw found (ap some (same u (read_le-lt n buf p u bytes found)))
  ]

agree_13bit :
    (buf : List ℕ) (p b : ℕ)
    → All IsByte buf
    → (do c ← get_elem? buf p; some (from_parts (int_13bit b c) (2 ^ 12) 8191))
      ≡ int_of (do
        c ← get_elem? buf p
        let v = bit_and (int_13bit b c) 0x1fff
        some (int (if leb 4096 v then pos v -ℤ pos 8192 else pos v)))
unfolding int_of
agree_13bit buf p b bytes = elim (Option-cases (get_elem? buf p)) [
  | inl missing ↦ rw missing
  | inr (c, found) ↦ rw found (ap some (from_parts_13 b c (get_elem?-lt buf p c bytes found)))
]

agree_at :
    (buf : List ℕ) (p b : ℕ)
    → All IsByte buf
    → b < 256
    → get_elem? buf p ≡ some b
    → get_integer buf p ≡ int_of (entry_at buf p)
unfolding get_integer entry_at int_of
agree_at buf p b bytes small found = rw found (
    ground (
      arith,
      mask_80 b,
      mask_c0 b,
      mask_e0 b,
      mask_f0 b,
      from_parts_small b,
      agree_13bit buf (p + 1) b bytes,
      read_agree (λ u. from_parts u (2 ^ 15) (2 ^ 16 - 1)) (to_signed (2 ^ 15)) buf (p + 1) 2 bytes
          from_parts_16,
      read_agree (λ u. from_parts u (2 ^ 23) (2 ^ 24 - 1))
          (λ u. shift_right_8 (to_signed (2 ^ 31) (u * 2 ^ 8))) buf (p + 1) 3 bytes from_parts_24,
      read_agree (λ u. from_parts u (2 ^ 31) (2 ^ 32 - 1)) (to_signed (2 ^ 31)) buf (p + 1) 4 bytes
          from_parts_32,
      read_agree (λ u. from_parts u (2 ^ 63) (2 ^ 64 - 1)) (to_signed (2 ^ 63)) buf (p + 1) 8 bytes
          from_parts_64,
    ))

-- On every byte string and at every position, `get_integer` returns the integer of the element
-- that `entry_at` decodes, and nothing where that is a string or no element.
pub get_integer-entry_at :
    (buf : List ℕ) (p : ℕ) → All IsByte buf → get_integer buf p ≡ int_of (entry_at buf p)
get_integer-entry_at buf p bytes = elim (Option-cases (get_elem? buf p)) [
  | inl missing ↦ unfold get_integer entry_at int_of in rw missing
  | inr (b, found) ↦ agree_at buf p b bytes (get_elem?-lt buf p b bytes found) found
]
