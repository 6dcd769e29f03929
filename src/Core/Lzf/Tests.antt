-- ===== src/Core/Lzf/Tests.antt =====
-- Runs of src/core/lzf.rs.
use dragonflydb_rs.Common.{ℕ, ◌≡◌, ◌≢◌, refl, List, [], ◌∷◌, some, length}
use dragonflydb_rs.Core.Lzf.{decompress, loop, out_of_fuel, zeros}
use dragonflydb_rs.Core.Lzf.Total.{decompress_ends}

-- A literal run of one byte, and a back reference of six.
abbrev stream : List ℕ
stream = 0 ∷ b'a' ∷ 0x80 ∷ 0 ∷ []

stream_runs : decompress stream 7 ≡ some (b'a' ∷ b'a' ∷ b'a' ∷ b'a' ∷ b'a' ∷ b'a' ∷ b'a' ∷ [])
unfolding decompress
stream_runs = refl

decompress_ends_example : loop (length stream) stream 0 0 (zeros 7) ≢ out_of_fuel
decompress_ends_example = decompress_ends stream 7

abbrev seven : List ℕ
seven = b'a' ∷ b'a' ∷ b'a' ∷ b'a' ∷ b'a' ∷ b'a' ∷ b'a' ∷ []
