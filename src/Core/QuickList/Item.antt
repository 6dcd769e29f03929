-- ===== src/Core/QuickList/Item.antt =====
-- src/core/quicklist.rs: `ListItem`. A string is its list of bytes.
use dragonflydb_rs.Common.{ℕ, Option, none, some, List, length, if◌then◌else◌, bytes_eq}
use dragonflydb_rs.Common.Int.{ℤ}
use dragonflydb_rs.Util.Decimal.{itoa}
use dragonflydb_rs.Core.Intset.Parse.{string2ll}

pub data ListItem : Type 0 where
  int : ℤ → ListItem
  str : List ℕ → ListItem

unfoldable pub as_bytes : ListItem → List ℕ
as_bytes (int i) = itoa i
as_bytes (str s) = s

-- `if let Some(i) = string2ll(b) && itoa(i) == b`
unfoldable pub item_of : List ℕ → Option ℤ → ListItem
item_of b (some i) = if bytes_eq (itoa i) b then int i else str b
item_of b none = str b

unfoldable pub from_bytes : List ℕ → ListItem
unfolding item_of
from_bytes b = item_of b (string2ll b)

unfoldable pub byte_len : ListItem → ℕ
byte_len (int i) = 8
byte_len (str s) = length s
