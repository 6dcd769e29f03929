-- ===== src/Core/Value.antt =====
-- src/core/value.rs: the object types, their names, and the allocation estimate of strings. A name is
-- its bytes.
pub mod Names
pub mod Malloc
mod Tests
use dragonflydb_rs.Common.{
  ℕ, ◌+◌, ◌-◌, ◌*◌, ◌/◌, List, [], ◌∷◌, map, Option, none, some, leb, ◌&&◌, if◌then◌else◌, bytes_eq,
}

pub data ObjType : Type 0 where
  str : ObjType
  list : ObjType
  set : ObjType
  hash : ObjType
  z_set : ObjType
  stream : ObjType
  sbf : ObjType
  cms : ObjType
  cuckoo : ObjType
  topk : ObjType
  json : ObjType

unfoldable pub type_name : ObjType → List ℕ
type_name str = b's' ∷ b't' ∷ b'r' ∷ b'i' ∷ b'n' ∷ b'g' ∷ []
type_name list = b'l' ∷ b'i' ∷ b's' ∷ b't' ∷ []
type_name set = b's' ∷ b'e' ∷ b't' ∷ []
type_name hash = b'h' ∷ b'a' ∷ b's' ∷ b'h' ∷ []
type_name z_set = b'z' ∷ b's' ∷ b'e' ∷ b't' ∷ []
type_name stream = b's' ∷ b't' ∷ b'r' ∷ b'e' ∷ b'a' ∷ b'm' ∷ []
type_name sbf = b'M' ∷ b'B' ∷ b'b' ∷ b'l' ∷ b'o' ∷ b'o' ∷ b'm' ∷ b'-' ∷ b'-' ∷ []
type_name cms = b'C' ∷ b'M' ∷ b'S' ∷ b'k' ∷ b'-' ∷ b'T' ∷ b'Y' ∷ b'P' ∷ b'E' ∷ []
type_name cuckoo = b'M' ∷ b'B' ∷ b'b' ∷ b'l' ∷ b'o' ∷ b'o' ∷ b'm' ∷ b'C' ∷ b'F' ∷ []
type_name topk = b'T' ∷ b'o' ∷ b'p' ∷ b'K' ∷ b'-' ∷ b'T' ∷ b'Y' ∷ b'P' ∷ b'E' ∷ []
type_name json = b'R' ∷ b'e' ∷ b'J' ∷ b'S' ∷ b'O' ∷ b'N' ∷ b'-' ∷ b'R' ∷ b'L' ∷ []

-- `u8::to_ascii_lowercase`
abbrev pub to_ascii_lowercase : ℕ → ℕ
to_ascii_lowercase b = if leb b'A' b && leb b b'Z' then b + 32 else b

-- The `match` on the lower-case name.
unfoldable pub from_lowercase : List ℕ → Option ObjType
from_lowercase s =
    if bytes_eq s (b's' ∷ b't' ∷ b'r' ∷ b'i' ∷ b'n' ∷ b'g' ∷ [])
    then some str
    else if bytes_eq s (b'l' ∷ b'i' ∷ b's' ∷ b't' ∷ [])
    then some list
    else if bytes_eq s (b's' ∷ b'e' ∷ b't' ∷ [])
    then some set
    else if bytes_eq s (b'h' ∷ b'a' ∷ b's' ∷ b'h' ∷ [])
    then some hash
    else if bytes_eq s (b'z' ∷ b's' ∷ b'e' ∷ b't' ∷ [])
    then some z_set
    else if bytes_eq s (b's' ∷ b't' ∷ b'r' ∷ b'e' ∷ b'a' ∷ b'm' ∷ [])
    then some stream
    else if bytes_eq s (b'm' ∷ b'b' ∷ b'b' ∷ b'l' ∷ b'o' ∷ b'o' ∷ b'm' ∷ b'-' ∷ b'-' ∷ [])
    then some sbf
    else if bytes_eq s (b'c' ∷ b'm' ∷ b's' ∷ b'k' ∷ b'-' ∷ b't' ∷ b'y' ∷ b'p' ∷ b'e' ∷ [])
    then some cms
    else if bytes_eq s (b'm' ∷ b'b' ∷ b'b' ∷ b'l' ∷ b'o' ∷ b'o' ∷ b'm' ∷ b'c' ∷ b'f' ∷ [])
    then some cuckoo
    else if bytes_eq s (b't' ∷ b'o' ∷ b'p' ∷ b'k' ∷ b'-' ∷ b't' ∷ b'y' ∷ b'p' ∷ b'e' ∷ [])
    then some topk
    else if bytes_eq s (b'r' ∷ b'e' ∷ b'j' ∷ b's' ∷ b'o' ∷ b'n' ∷ b'-' ∷ b'r' ∷ b'l' ∷ [])
    then some json
    else none

unfoldable pub from_name : List ℕ → Option ObjType
unfolding from_lowercase
from_name s = from_lowercase (map to_ascii_lowercase s)

-- `(len - 10).div_ceil(8) * 8`, and `len / 8 * 8`
unfoldable pub str_malloc_used : ℕ → ℕ
str_malloc_used len =
    if leb len 16 then 0 else if leb len 255 then (len - 10 + 7) / 8 * 8 else len / 8 * 8
