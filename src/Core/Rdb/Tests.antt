-- ===== src/Core/Rdb/Tests.antt =====
-- Runs of src/core/rdb.rs.
use dragonflydb_rs.Common.{arith, [], ◌∷◌}
use dragonflydb_rs.Common.Int.{negsuc}
use dragonflydb_rs.Util.Decimal.{itoa}
use dragonflydb_rs.Core.Rdb.{save_long_long_as_string}
use dragonflydb_rs.Core.Rdb.Strings.{Gives, read_string-save_long_long_as_string}

read_string-save_long_long_as_string_example :
    Gives (7 ∷ []) (save_long_long_as_string [] (negsuc 4999)) (9 ∷ []) (itoa (negsuc 4999))
read_string-save_long_long_as_string_example =
    read_string-save_long_long_as_string (7 ∷ []) (9 ∷ []) (negsuc 4999) (omega arith, omega arith)
