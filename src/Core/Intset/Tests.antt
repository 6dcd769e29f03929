-- ===== src/Core/Intset/Tests.antt =====
-- Runs of src/core/intset.rs.
use dragonflydb_rs.Common.{◌≡◌, arith, true, List, [], ◌∷◌, All, some}
use dragonflydb_rs.Common.Int.{ℤ, pos, negsuc, IsI64}
use dragonflydb_rs.Core.Intset.Blob.{build, values, validate_integrity, sort_unstable}
use dragonflydb_rs.Core.Intset.Blob.RoundTrip.{values-build, Distinct}

abbrev numbers : List ℤ
numbers = pos 70000 ∷ negsuc 0 ∷ pos 5 ∷ []

numbers-IsI64 : All IsI64 numbers
numbers-IsI64 =
    ((omega arith, omega arith), ((omega arith, omega arith), ((omega arith, omega arith), tt)))

numbers-Distinct : Distinct numbers
numbers-Distinct =
    (((λ e. ground arith), ((λ e. ground arith), tt)), ((((λ e. ground arith), tt)), (tt, tt)))

values-build_example :
    (validate_integrity (build numbers) true ≡ true)
    × (values (build numbers) ≡ some (sort_unstable numbers))
values-build_example =
    values-build numbers (omega arith) (omega arith) numbers-IsI64 numbers-Distinct
