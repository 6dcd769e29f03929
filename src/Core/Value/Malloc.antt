-- ===== src/Core/Value/Malloc.antt =====
-- src/core/value.rs: the allocation estimate.
use dragonflydb_rs.Common.{ℕ, ◌+◌, ◌*◌, ◌/◌, ◌≤◌, ◌<◌, ◌≡◌, arith}
use dragonflydb_rs.Core.Value.{str_malloc_used}

-- The estimate of a string is a multiple of 8, at most its length, and less than 17 below it.
pub str_malloc_used_bounds :
    (len : ℕ)
    → (str_malloc_used len / 8 * 8 ≡ str_malloc_used len)
      × (str_malloc_used len ≤ len)
      × (len < str_malloc_used len + 17)
unfolding str_malloc_used
str_malloc_used_bounds len = ground arith
