-- ===== src/Core/Listpack/Validate/Total.antt =====
-- src/core/listpack.rs: the scan of `validate_deep` ends on every input.
use dragonflydb_rs.Common.{
  ℕ, zero, suc, ◌+◌, ◌-◌, ◌≤◌, ◌<◌, ◌≡◌, ◌≢◌, arith, List, some, Option-cases, inl, inr, length,
}
use dragonflydb_rs.Core.Listpack.Backlen.{backlen_size}
use dragonflydb_rs.Core.Listpack.Decode.{encoded_size}
use dragonflydb_rs.Core.Listpack.Validate.{check_backlen, validate_next, scan, out_of_fuel}

check_backlen_after :
    (buf : List ℕ) (p size np : ℕ)
    → check_backlen buf p size ≡ some np
    → (p < np) × (np ≤ length buf - 1)
unfolding check_backlen backlen_size
check_backlen_after buf p size np h = ground arith

-- The next element is further on, and still in the buffer.
pub validate_next_after :
    (buf : List ℕ) (p np : ℕ) → validate_next buf p ≡ some np → (p < np) × (np ≤ length buf - 1)
validate_next_after buf p np h = elim (Option-cases (encoded_size buf p)) [
  | inl none_there ↦ unfold validate_next in absurd (ground arith)
  | inr (size, found) ↦
      let e : check_backlen buf p size ≡ some np = unfold validate_next in ground arith in
      check_backlen_after buf p size np e
]

pub scan-ne-out_of_fuel :
    (fuel : ℕ) (buf : List ℕ) (p count : ℕ)
    → p ≤ length buf
    → length buf < fuel + p
    → scan fuel buf p count ≢ out_of_fuel
unfolding scan
scan-ne-out_of_fuel zero buf p count inside h e = absurd (omega arith)
scan-ne-out_of_fuel (suc fuel) buf p count inside h e = elim (Option-cases (validate_next buf p)) [
  | inl stop ↦ ground arith
  | inr (np, go) ↦
      ground (arith, validate_next_after buf p np go, scan-ne-out_of_fuel fuel buf np (count + 1))
]

-- The scan of `validate_deep` never runs out of the fuel that the model gives it, whatever the
-- bytes: it ends at an EOF byte or at a corrupt entry.
pub validate_deep_ends : (buf : List ℕ) → 7 ≤ length buf → scan (length buf) buf 6 0 ≢ out_of_fuel
validate_deep_ends buf h = scan-ne-out_of_fuel (length buf) buf 6 0 (omega arith) (omega arith)
