-- ===== src/Core/Compact/Storage.antt =====
-- src/core/compact.rs: both ways of storing give the bytes back.
use dragonflydb_rs.Common.{
  ℕ, ◌-◌, ◌≡◌, refl, ap, arith, Bool, true, List, ◌++◌, some, length, take_front, leb, Bool-cases,
  inl, inr, bytes_eq, bytes_eq_iff, ◌↔◌,
}
use dragonflydb_rs.Core.Compact.{inline_cap, zeros, from_bytes, as_bytes, push_str, eq}

-- A string has the bytes it was made from, and their number is its length.
pub as_bytes-from_bytes :
    (b : List ℕ) → (as_bytes (from_bytes b) ≡ some b) × ((from_bytes b).len ≡ length b)
unfolding as_bytes from_bytes
as_bytes-from_bytes b = elim (Bool-cases (leb (length b) inline_cap)) [
  | inl short ↦ rw short (rw short (ap some (take_front b (zeros (inline_cap - length b)))), refl)
  | inr long ↦ rw long (rw long refl, refl)
]

-- Appending never fails on a string made from bytes, and appends the bytes.
pub push_str-from_bytes :
    (b suffix : List ℕ) → push_str (from_bytes b) suffix ≡ some (from_bytes (b ++ suffix))
unfolding push_str
push_str-from_bytes b suffix = rw ((as_bytes-from_bytes b).0) refl

-- Strings made from bytes are equal exactly when the bytes are, however they are stored.
pub eq-from_bytes : (a b : List ℕ) → (eq (from_bytes a) (from_bytes b) ≡ some true) ↔ (a ≡ b)
unfolding eq
eq-from_bytes a b =
    rw ((as_bytes-from_bytes a).0)
      (rw ((as_bytes-from_bytes b).0) (both (bytes_eq a b) (bytes_eq_iff a b)))
  where
    both : (t : Bool) → (t ≡ true) ↔ (a ≡ b) → (some t ≡ some true) ↔ (a ≡ b)
    both t h = (λ e. h.0 (ground arith), λ e. ap some (h.1 e))
