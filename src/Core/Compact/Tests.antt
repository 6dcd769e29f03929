-- ===== src/Core/Compact/Tests.antt =====
-- Runs of src/core/compact.rs.
use dragonflydb_rs.Common.{◌≡◌, List, ℕ, [], ◌∷◌, ◌++◌, some, length}
use dragonflydb_rs.Core.Compact.{from_bytes, as_bytes, push_str}
use dragonflydb_rs.Core.Compact.Storage.{as_bytes-from_bytes, push_str-from_bytes}

-- 17 bytes, which are stored on the heap.
abbrev long : List ℕ
long =
    b'0' ∷ b'1' ∷ b'2' ∷ b'3' ∷ b'4' ∷ b'5' ∷ b'6' ∷ b'7' ∷ b'8' ∷ b'9' ∷ b'a' ∷ b'b' ∷ b'c' ∷ b'd'
    ∷ b'e' ∷ b'f' ∷ b'g' ∷ []

as_bytes-from_bytes_example :
    (as_bytes (from_bytes long) ≡ some long) × ((from_bytes long).len ≡ length long)
as_bytes-from_bytes_example = as_bytes-from_bytes long

push_str-from_bytes_example :
    push_str (from_bytes (b'a' ∷ [])) long ≡ some (from_bytes (b'a' ∷ [] ++ long))
push_str-from_bytes_example = push_str-from_bytes (b'a' ∷ []) long
