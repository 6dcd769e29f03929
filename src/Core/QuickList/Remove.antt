-- ===== src/Core/QuickList/Remove.antt =====
-- src/core/quicklist.rs: the operations that rebuild the list.
pub mod Plain
use dragonflydb_rs.Common.{
  ℕ, zero, suc, ◌+◌, ◌-◌, ◌/◌, ◌%◌, Bool, true, false, not, ◌&&◌, ◌||◌, Option, none, some, List,
  [], ◌∷◌, ◌++◌, map, length, get_elem?, set, take, drop, insert_at, last?, init, sum, min, ltb,
  leb, ◌==◌, if◌then◌else◌, bytes_eq, ◌>>=◌,
}
use dragonflydb_rs.Common.Int.{ℤ, pos, pos_part, neg_part}
use dragonflydb_rs.Util.Range.{redis_range}
use dragonflydb_rs.Core.QuickList.Item.{ListItem, as_bytes}
use dragonflydb_rs.Core.QuickList.Ends.{QuickList, iter, from_items}

unfoldable pub remove_count : QuickList → ℕ → ℕ → ℕ × QuickList
unfolding iter from_items
remove_count ql start count =
    let all = iter ql in
    let end = min (start + count) (length all) in
    (end - start, from_items (take start all ++ drop end all))

-- What is done with the window of `redis_range`.
abbrev pub remove_window : QuickList → Option (ℤ × ℤ) → ℕ × QuickList
remove_window ql none = (0, ql)
remove_window ql (some (s, count)) = remove_count ql (pos_part s) (pos_part count)

unfoldable pub remove_range : QuickList → ℤ → ℤ → ℕ × QuickList
unfolding remove_count
remove_range ql start stop = remove_window ql (redis_range start stop (pos ql.count))

-- The filter of `remove_value`: it drops a match while fewer than `limit` have been dropped, and
-- counts them in `removed`.
unfoldable pub drop_matches : List ℕ → ℕ → ℕ → List ListItem → ℕ × List ListItem
drop_matches value limit removed [] = (removed, [])
drop_matches value limit removed (it ∷ its) =
    let hit = bytes_eq (as_bytes it) value && ltb removed limit in
    let (n, keep) = drop_matches value limit (if hit then removed + 1 else removed) its in
    if hit then (n, keep) else (n, it ∷ keep)

-- The filter of the case `count == 0`.
unfoldable pub drop_all : List ℕ → List ListItem → List ListItem
drop_all value [] = []
drop_all value (it ∷ its) =
    let keep = drop_all value its in if bytes_eq (as_bytes it) value then keep else it ∷ keep

unfoldable pub remove_value : QuickList → List ℕ → ℤ → ℕ × QuickList
unfolding iter from_items drop_matches drop_all
remove_value ql value count =
    if pos_part count + neg_part count == 0
    then (ql.count - length (drop_all value (iter ql)), from_items (drop_all value (iter ql)))
    else (let (removed, keep) = drop_matches value (pos_part count + neg_part count) 0 (iter ql) in
        (removed, from_items keep))

-- `items.iter().position(|it| it.as_bytes() == pivot)`
unfoldable pub position : List ℕ → List ListItem → Option ℕ
position pivot [] = none
position pivot (it ∷ its) =
    let rest = (do i ← position pivot its; some (suc i)) in
    if bytes_eq (as_bytes it) pivot then some 0 else rest

-- `items.insert(if after { pos + 1 } else { pos }, elem)` at the position found.
unfoldable pub insert_found : QuickList → Option ℕ → ListItem → Bool → Bool × QuickList
unfolding iter from_items
insert_found ql none elem after = (false, ql)
insert_found ql (some i) elem after =
    (true, from_items (insert_at (if after then i + 1 else i) elem (iter ql)))

unfoldable pub insert_relative : QuickList → List ℕ → ListItem → Bool → Bool × QuickList
unfolding iter position insert_found
insert_relative ql pivot elem after = insert_found ql (position pivot (iter ql)) elem after
