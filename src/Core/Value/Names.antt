-- ===== src/Core/Value/Names.antt =====
-- src/core/value.rs: a name that TYPE shows is one that SCAN's TYPE option takes, in any case.
use dragonflydb_rs.Common.{ℕ, ◌≡◌, refl, ap, ◌∙◌, List, map, some, bytes_eq}
use dragonflydb_rs.Core.Value.{
  ObjType, str, list, set, hash, z_set, stream, sbf, cms, cuckoo, topk, json, type_name, from_name,
  from_lowercase, to_ascii_lowercase,
}

from_lowercase-type_name :
    (t : ObjType) → from_lowercase (map to_ascii_lowercase (type_name t)) ≡ some t
unfolding from_lowercase type_name bytes_eq
from_lowercase-type_name str = refl
from_lowercase-type_name list = refl
from_lowercase-type_name set = refl
from_lowercase-type_name hash = refl
from_lowercase-type_name z_set = refl
from_lowercase-type_name stream = refl
from_lowercase-type_name sbf = refl
from_lowercase-type_name cms = refl
from_lowercase-type_name cuckoo = refl
from_lowercase-type_name topk = refl
from_lowercase-type_name json = refl

-- `from_name` finds the type for every spelling of its name that differs in the case of letters
-- only, so different types have names that differ in more than case.
pub from_name-type_name :
    (t : ObjType) (s : List ℕ)
    → map to_ascii_lowercase s ≡ map to_ascii_lowercase (type_name t)
    → from_name s ≡ some t
unfolding from_name
from_name-type_name t s h = ap from_lowercase h ∙ from_lowercase-type_name t
