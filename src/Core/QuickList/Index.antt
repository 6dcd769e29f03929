-- ===== src/Core/QuickList/Index.antt =====
-- src/core/quicklist.rs: `get`, `set`, `insert` and `range`, by index.
pub mod Lookup
pub mod Insert
use dragonflydb_rs.Common.{
  ℕ, zero, suc, ◌+◌, ◌-◌, ◌/◌, ◌%◌, Bool, true, false, not, ◌&&◌, ◌||◌, Option, none, some, List,
  [], ◌∷◌, ◌++◌, map, length, get_elem?, set, take, drop, insert_at, last?, init, sum, min, ltb,
  leb, ◌==◌, if◌then◌else◌, bytes_eq, ◌>>=◌,
}
use dragonflydb_rs.Common.Int.{ℤ, pos, negsuc, ◌+ℤ◌, ltb_ℤ, leb_ℤ, pos_part, neg_part}
use dragonflydb_rs.Util.Range.{redis_range, from_end}
use dragonflydb_rs.Core.QuickList.Item.{ListItem, byte_len}
use dragonflydb_rs.Core.QuickList.Chunk.{Chunk, chunk_max_items}
use dragonflydb_rs.Core.QuickList.Ends.{QuickList, push_back, push_front, iter}

-- The position that an index stands for, `none` where it is out of range.
unfoldable pub resolve : ℕ → ℤ → Option ℕ
resolve count index =
    let idx = from_end (pos count) index in
    if ltb_ℤ idx (pos 0) || leb_ℤ (pos count) idx then none else some (pos_part idx)

-- The loops of `get` and `set` over the chunks; `rem` is what is left of the position.
unfoldable pub get_from : List Chunk → ℕ → Option ListItem
get_from [] rem = none
get_from (c ∷ cs) rem =
    if ltb rem (length c.items) then get_elem? c.items rem else get_from cs (rem - length c.items)

unfoldable pub get : QuickList → ℤ → Option ListItem
unfolding resolve get_from
get ql index = do idx ← resolve ql.count index; get_from ql.chunks idx

unfoldable pub replace : Chunk → ℕ → ListItem → Option (ListItem × Chunk)
replace c rem item = do
  old ← get_elem? c.items rem
  some
      (old, record { items = set c.items rem item; bytes = c.bytes - byte_len old + byte_len item })

unfoldable pub set_from : List Chunk → ℕ → ListItem → Option (ListItem × List Chunk)
unfolding replace
set_from [] rem item = none
set_from (c ∷ cs) rem item =
    let rest = set_from cs (rem - length c.items) item in
    if ltb rem (length c.items)
    then (do (old, c') ← replace c rem item; some (old, c' ∷ cs))
    else (do (old, cs') ← rest; some (old, c ∷ cs'))

unfoldable pub set_at : QuickList → ℤ → ListItem → Option (ListItem × QuickList)
unfolding resolve set_from
set_at ql index item = do
  idx ← resolve ql.count index
  (old, cs) ← set_from ql.chunks idx item
  some (old, record ql { chunks = cs })

-- `range`: the window of `redis_range`, none where it is empty.
unfoldable pub range : QuickList → ℤ → ℤ → Option (List ListItem)
unfolding iter
range ql start stop = do
  (s, count) ← redis_range start stop (pos ql.count)
  some (take (pos_part count) (drop (pos_part s) (iter ql)))

-- A chunk of more than 128 items is split; the left part keeps its count of bytes.
unfoldable pub split : Chunk → List Chunk
split c =
    let half = length c.items / 2 in
    let right = drop half c.items in
    if ltb chunk_max_items (length c.items)
    then record c { items = take half c.items }
      ∷ record { items = right; bytes = sum (map byte_len right) }
      ∷ []
    else c ∷ []

-- The loop of `insert`; `none` where it runs past the chunks.
unfoldable pub insert_from : List Chunk → ℕ → ListItem → Option (List Chunk)
unfolding split
insert_from [] rem item = none
insert_from (c ∷ cs) rem item =
    let rest = insert_from cs (rem - length c.items) item in
    let c' : Chunk = record {
      items = insert_at rem item c.items;
      bytes = c.bytes + byte_len item;
    } in
    if ltb rem (length c.items) then some (split c' ++ cs) else (do cs' ← rest; some (c ∷ cs'))

-- The list with the chunks that the loop leaves.
abbrev pub landed : QuickList → Option (List Chunk) → QuickList
landed ql (some cs) = record { chunks = cs; count = ql.count + 1 }
landed ql none = ql

unfoldable pub insert_middle : QuickList → ℕ → ListItem → QuickList
unfolding insert_from
insert_middle ql idx item = landed ql (insert_from ql.chunks idx item)

-- `if index < 0 { len + index + 1 } else { index }`
unfoldable pub insert_index : ℕ → ℤ → ℤ
unfolding ◌+ℤ◌
insert_index count index = if ltb_ℤ index (pos 0) then pos count +ℤ index +ℤ pos 1 else index

unfoldable pub insert : QuickList → ℤ → ListItem → QuickList
unfolding insert_index insert_middle push_front push_back
insert ql index item =
    let idx = insert_index ql.count index in
    if leb_ℤ idx (pos 0)
    then push_front ql item
    else if leb_ℤ (pos ql.count) idx
    then push_back ql item
    else insert_middle ql (pos_part idx) item
