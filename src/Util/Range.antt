-- ===== src/Util/Range.antt =====
-- src/util.rs: `redis_range`, the index normalisation of GETRANGE, LRANGE, LTRIM and ZRANGE.
use dragonflydb_rs.Common.{ℕ, ◌≡◌, Bool, ◌&&◌, ◌||◌, Option, none, some, arith, ◌==◌, if◌then◌else◌}
use dragonflydb_rs.Common.Int.{ℤ, pos, ◌+ℤ◌, ◌-ℤ◌, ◌≤ℤ◌, ◌<ℤ◌, ltb_ℤ, leb_ℤ, pos_part}

-- An index from the end where it is negative, as `if i < 0 { len + i } else { i }`.
unfoldable pub from_end : ℤ → ℤ → ℤ
from_end len i = if ltb_ℤ i (pos 0) then len +ℤ i else i

-- `if s < 0 { s = 0 }`
abbrev pub at_least_zero : ℤ → ℤ
at_least_zero i = if ltb_ℤ i (pos 0) then pos 0 else i

-- The clamped ends: `e` is cut to the last index, and the window is empty past it.
unfoldable pub window : ℤ → ℤ → ℤ → Option (ℤ × ℤ)
unfolding ◌+ℤ◌ ◌-ℤ◌
window s e0 len =
    let e = if leb_ℤ len e0 then len -ℤ pos 1 else e0 in
    if ltb_ℤ e s || leb_ℤ len s then none else some (s, e -ℤ s +ℤ pos 1)

unfoldable pub redis_range : ℤ → ℤ → ℤ → Option (ℤ × ℤ)
unfolding from_end window
redis_range start stop len =
    if leb_ℤ len (pos 0)
    then none
    else if ltb_ℤ start (pos 0) && ltb_ℤ stop start
    then none
    else window (at_least_zero (from_end len start)) (at_least_zero (from_end len stop)) len

at_least_zero_pos : (i : ℤ) → at_least_zero i ≡ pos (pos_part i)
at_least_zero_pos i = ground arith

-- Position `i` is in the window `r`.
abbrev pub InWindow : ℕ → Option (ℤ × ℤ) → Type 0
InWindow i none = ⊥
InWindow i (some (s, c)) = (s ≤ℤ pos i) × (pos i <ℤ s +ℤ c)

window_bounds :
    (a b n : ℕ) (s c : ℤ)
    → window (pos a) (pos b) (pos n) ≡ some (s, c)
    → (pos 0 ≤ℤ s) × (pos 1 ≤ℤ c) × (s +ℤ c ≤ℤ pos n)
unfolding window
window_bounds a b n s c h = ground arith

-- `start < 0 && stop < start`, the early return of the function.
abbrev pub is_reversed : ℤ → ℤ → Bool
is_reversed start stop = ltb_ℤ start (pos 0) && ltb_ℤ stop start

-- The steps before the window, for a sequence of `n` elements.
redis_range_step :
    (start stop : ℤ) (n : ℕ)
    → redis_range start stop (pos n) ≡ (
        if n == 0 || is_reversed start stop
        then none
        else window
            (pos (pos_part (from_end (pos n) start)))
            (pos (pos_part (from_end (pos n) stop)))
            (pos n))
unfolding redis_range
redis_range_step start stop n =
    rw (at_least_zero_pos (from_end (pos n) start), at_least_zero_pos (from_end (pos n) stop))
      (ground arith)

-- The window that is returned is not empty and lies in the sequence.
pub redis_range_bounds :
    (start stop : ℤ) (n : ℕ) (s c : ℤ)
    → redis_range start stop (pos n) ≡ some (s, c)
    → (pos 0 ≤ℤ s) × (pos 1 ≤ℤ c) × (s +ℤ c ≤ℤ pos n)
redis_range_bounds start stop n s c h = ground (
  arith,
  redis_range_step start stop n,
  window_bounds (pos_part (from_end (pos n) start)) (pos_part (from_end (pos n) stop)) n s c,
)
