-- ===== src/Core/QuickList/Chunk.antt =====
-- src/core/quicklist.rs: `Chunk`. `usize` subtractions are written with the `-` that stops at 0;
-- the invariant of the lists keeps them from going below it.
use dragonflydb_rs.Common.{
  ℕ, ◌+◌, ◌-◌, Bool, ◌||◌, Option, none, some, List, [], ◌∷◌, ◌++◌, length, last?, init, ltb, ◌>>=◌,
}
use dragonflydb_rs.Core.QuickList.Item.{ListItem, byte_len}

pub record Chunk : Type 0 where
  pub items : List ListItem
  pub bytes : ℕ

abbrev pub chunk_max_items : ℕ
chunk_max_items = 128

abbrev pub chunk_max_bytes : ℕ
chunk_max_bytes = 8192

abbrev pub new : Chunk
new = record { items = []; bytes = 0 }

abbrev pub push_back : Chunk → ListItem → Chunk
push_back c item = record { items = c.items ++ item ∷ []; bytes = c.bytes + byte_len item }

abbrev pub push_front : Chunk → ListItem → Chunk
push_front c item = record { items = item ∷ c.items; bytes = c.bytes + byte_len item }

-- The chunk without its last item, and that item.
unfoldable pub pop_back : Chunk → Option (ListItem × Chunk)
pop_back c = do
  it ← last? c.items
  some (it, record { items = init c.items; bytes = c.bytes - byte_len it })

unfoldable pub pop_front_of : List ListItem → ℕ → Option (ListItem × Chunk)
pop_front_of [] bytes = none
pop_front_of (it ∷ rest) bytes = some (it, record { items = rest; bytes = bytes - byte_len it })

unfoldable pub pop_front : Chunk → Option (ListItem × Chunk)
unfolding pop_front_of
pop_front c = pop_front_of c.items c.bytes

unfoldable pub would_overflow : Chunk → ListItem → Bool
would_overflow c item =
    ltb chunk_max_items (length c.items + 1) || ltb chunk_max_bytes (c.bytes + byte_len item)
