-- ===== src/Core/Compact.antt =====
-- src/core/compact.rs: `CompactString`, inline up to 15 bytes and on the heap above.
pub mod Storage
mod Tests
use dragonflydb_rs.Common.{
  ℕ, zero, suc, ◌+◌, ◌-◌, Bool, List, [], ◌∷◌, ◌++◌, Option, none, some, length, take, leb, ◌==◌,
  if◌then◌else◌, bytes_eq, ◌>>=◌,
}

abbrev pub inline_cap : ℕ
inline_cap = 15

pub record CompactString : Type 0 where
  pub inline : List ℕ
  pub len : ℕ
  pub heap : Option (List ℕ)

-- `[0u8; n]`
abbrev pub zeros : ℕ → List ℕ
zeros zero = []
zeros (suc n) = 0 ∷ zeros n

unfoldable pub new : CompactString
new = record { inline = zeros inline_cap; len = 0; heap = none }

unfoldable pub from_bytes : List ℕ → CompactString
from_bytes b =
    if leb (length b) inline_cap
    then record { inline = b ++ zeros (inline_cap - length b); len = length b; heap = none }
    else record { inline = zeros inline_cap; len = length b; heap = some b }

-- `none` is the panic of `unwrap` where a long string has no heap part.
unfoldable pub as_bytes : CompactString → Option (List ℕ)
as_bytes s = if leb s.len inline_cap then some (take s.len s.inline) else s.heap

unfoldable pub is_empty : CompactString → Bool
is_empty s = s.len == 0

unfoldable pub push_str : CompactString → List ℕ → Option CompactString
unfolding as_bytes from_bytes
push_str s suffix = do b ← as_bytes s; some (from_bytes (b ++ suffix))

-- `PartialEq`, by the bytes.
unfoldable pub eq : CompactString → CompactString → Option Bool
unfolding as_bytes
eq s t = do a ← as_bytes s; b ← as_bytes t; some (bytes_eq a b)
