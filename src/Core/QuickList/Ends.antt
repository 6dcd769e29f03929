-- ===== src/Core/QuickList/Ends.antt =====
-- src/core/quicklist.rs: `QuickList`, its two ends and its iteration.
pub mod Valid
pub mod Push
pub mod Pop
use dragonflydb_rs.Common.{
  ℕ, zero, suc, ◌+◌, ◌-◌, ◌/◌, ◌%◌, Bool, true, false, not, ◌&&◌, ◌||◌, Option, none, some, List,
  [], ◌∷◌, ◌++◌, map, length, get_elem?, set, take, drop, insert_at, last?, init, sum, min, ltb,
  leb, ◌==◌, if◌then◌else◌, bytes_eq, ◌>>=◌,
}
use mathlib.Core.List.{foldl}
use dragonflydb_rs.Core.QuickList.Item.{ListItem}
use dragonflydb_rs.Core.QuickList.Chunk
use dragonflydb_rs.Core.QuickList.Chunk.{Chunk}

pub record QuickList : Type 0 where
  pub chunks : List Chunk
  pub count : ℕ

abbrev pub new : QuickList
new = record { chunks = []; count = 0 }

unfoldable pub is_empty : QuickList → Bool
is_empty ql = ql.count == 0

-- `tail_mut().unwrap().push_back(item)`: the last chunk takes the item.
unfoldable pub push_last : List Chunk → ListItem → List Chunk
push_last [] item = []
push_last (c ∷ []) item = Chunk.push_back c item ∷ []
push_last (c ∷ d ∷ cs) item = c ∷ push_last (d ∷ cs) item

-- The test on the last chunk, `true` where there is none.
unfoldable pub overflows : Option Chunk → ListItem → Bool
overflows none item = true
overflows (some c) item = Chunk.would_overflow c item

unfoldable pub tail_overflows : List Chunk → ListItem → Bool
unfolding overflows
tail_overflows cs item = overflows (last? cs) item

unfoldable pub push_back : QuickList → ListItem → QuickList
push_back ql item =
    let cs = if tail_overflows ql.chunks item then ql.chunks ++ Chunk.new ∷ [] else ql.chunks in
    record { chunks = push_last cs item; count = ql.count + 1 }

-- `head_mut().unwrap().push_front(item)`
unfoldable pub push_first : List Chunk → ListItem → List Chunk
push_first [] item = []
push_first (c ∷ cs) item = Chunk.push_front c item ∷ cs

unfoldable pub head_overflows : List Chunk → ListItem → Bool
unfolding Chunk.would_overflow
head_overflows [] item = true
head_overflows (c ∷ cs) item = Chunk.would_overflow c item

unfoldable pub push_front : QuickList → ListItem → QuickList
push_front ql item =
    let cs = if head_overflows ql.chunks item then Chunk.new ∷ ql.chunks else ql.chunks in
    record { chunks = push_first cs item; count = ql.count + 1 }

-- A chunk that has become empty is dropped.
abbrev pub if_items : List ListItem → Chunk → List Chunk
if_items [] c = []
if_items (x ∷ xs) c = c ∷ []

abbrev pub keep_unless_empty : Chunk → List Chunk
keep_unless_empty c = if_items c.items c

unfoldable pub pop_back : QuickList → Option (ListItem × QuickList)
unfolding Chunk.pop_back
pop_back ql = do
  c ← last? ql.chunks
  (item, c') ← Chunk.pop_back c
  some (item, record { chunks = init ql.chunks ++ keep_unless_empty c'; count = ql.count - 1 })

unfoldable pub pop_front_of : List Chunk → ℕ → Option (ListItem × QuickList)
unfolding Chunk.pop_front
pop_front_of [] count = none
pop_front_of (c ∷ cs) count = do
  (item, c') ← Chunk.pop_front c
  some (item, record { chunks = keep_unless_empty c' ++ cs; count = count - 1 })

unfoldable pub pop_front : QuickList → Option (ListItem × QuickList)
unfolding pop_front_of
pop_front ql = pop_front_of ql.chunks ql.count

-- `iter`: the items of all chunks, in order.
unfoldable pub iter_chunks : List Chunk → List ListItem
iter_chunks [] = []
iter_chunks (c ∷ cs) = c.items ++ iter_chunks cs

unfoldable pub iter : QuickList → List ListItem
unfolding iter_chunks
iter ql = iter_chunks ql.chunks

abbrev pub head? : List ListItem → Option ListItem
head? [] = none
head? (x ∷ xs) = some x

unfoldable pub front_of : List Chunk → Option ListItem
front_of [] = none
front_of (c ∷ cs) = head? c.items

unfoldable pub front : QuickList → Option ListItem
unfolding front_of
front ql = front_of ql.chunks

unfoldable pub back : QuickList → Option ListItem
back ql = do c ← last? ql.chunks; last? c.items

unfoldable pub from_items : List ListItem → QuickList
from_items = foldl push_back new
