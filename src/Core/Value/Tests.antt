-- ===== src/Core/Value/Tests.antt =====
-- Runs of src/core/value.rs.
use dragonflydb_rs.Common.{◌+◌, ◌*◌, ◌/◌, ◌≤◌, ◌<◌, ◌≡◌, refl}
use dragonflydb_rs.Core.Value.{str_malloc_used}
use dragonflydb_rs.Core.Value.Malloc.{str_malloc_used_bounds}

-- The sizes of the reference test.
sizes : (str_malloc_used 15 ≡ 0) × (str_malloc_used 500 ≡ 496) × (str_malloc_used 1000 ≡ 1000)
unfolding str_malloc_used
sizes = (refl, refl, refl)

str_malloc_used_bounds_example :
    (str_malloc_used 500 / 8 * 8 ≡ str_malloc_used 500)
    × (str_malloc_used 500 ≤ 500)
    × (500 < str_malloc_used 500 + 17)
str_malloc_used_bounds_example = str_malloc_used_bounds 500
