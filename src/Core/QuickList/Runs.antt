-- ===== src/Core/QuickList/Runs.antt =====
-- src/core/quicklist.rs: any sequence of the operations that change a list.
use dragonflydb_rs.Common.{
  ℕ, refl, Bool, List, [], ◌∷◌, ◌++◌, Option, none, some, length, insert_at, min, ◌>>=◌,
}
use mathlib.Core.List.{foldl}
use dragonflydb_rs.Common.Int.{ℤ, pos, pos_part}
use dragonflydb_rs.Util.Range.{redis_range}
use dragonflydb_rs.Core.QuickList.Item.{ListItem}
use dragonflydb_rs.Core.QuickList.Ends.{
  QuickList, new, iter, iter_chunks, push_back, push_front, pop_back, pop_front,
}
use dragonflydb_rs.Core.QuickList.Ends.Valid.{IsValid}
use dragonflydb_rs.Core.QuickList.Ends.Push.{Pushed, push_back_lem, push_front_lem}
use dragonflydb_rs.Core.QuickList.Ends.Pop.{Pops, pop_last, pop_first, pop_back_lem, pop_front_lem}
use dragonflydb_rs.Core.QuickList.Index.{resolve, set_at, insert, insert_index}
use dragonflydb_rs.Core.QuickList.Index.Lookup.{set_plain, set_at_lem}
use dragonflydb_rs.Core.QuickList.Index.Insert.{insert_lem}
use dragonflydb_rs.Core.QuickList.Remove.{remove_range, remove_value, insert_relative}
use dragonflydb_rs.Core.QuickList.Remove.Plain.{
  cut_window, occurrences, remove_first, put_beside, asked, remove_range_lem, remove_value_lem,
  insert_relative_lem,
}

-- The methods that change a list, with their arguments.
pub data Change : Type 0 where
  call_push_back : ListItem → Change
  call_push_front : ListItem → Change
  call_pop_back : Change
  call_pop_front : Change
  call_set : ℤ → ListItem → Change
  call_insert : ℤ → ListItem → Change
  call_remove_range : ℤ → ℤ → Change
  call_remove_value : List ℕ → ℤ → Change
  call_insert_relative : List ℕ → ListItem → Bool → Change

-- What stands after an operation that may do nothing.
abbrev left_by {ℓ} : {A : Type ℓ} → A → Option (ListItem × A) → A
left_by old none = old
left_by old (some (x, new_one)) = new_one

-- The list after a call.
unfoldable pub change : QuickList → Change → QuickList
change ql (call_push_back item) = push_back ql item
change ql (call_push_front item) = push_front ql item
change ql call_pop_back = left_by ql (pop_back ql)
change ql call_pop_front = left_by ql (pop_front ql)
change ql (call_set index item) = left_by ql (set_at ql index item)
change ql (call_insert index item) = insert ql index item
change ql (call_remove_range start stop) = (remove_range ql start stop).1
change ql (call_remove_value value count) = (remove_value ql value count).1
change ql (call_insert_relative pivot elem after) = (insert_relative ql pivot elem after).1

-- What the call does to a plain list.
unfoldable pub change_plain : List ListItem → Change → List ListItem
change_plain xs (call_push_back item) = xs ++ item ∷ []
change_plain xs (call_push_front item) = item ∷ xs
change_plain xs call_pop_back = left_by xs (pop_last xs)
change_plain xs call_pop_front = left_by xs (pop_first xs)
change_plain xs (call_set index item) =
    left_by xs (do idx ← resolve (length xs) index; set_plain xs idx item)
change_plain xs (call_insert index item) =
    insert_at (min (pos_part (insert_index (length xs) index)) (length xs)) item xs
change_plain xs (call_remove_range start stop) =
    (cut_window xs (redis_range start stop (pos (length xs)))).1
change_plain xs (call_remove_value value count) =
    remove_first (asked count (occurrences value xs)) value xs
change_plain xs (call_insert_relative pivot elem after) = put_beside pivot elem after xs

left_by_lem :
    (ql : QuickList) (r : Option (ListItem × QuickList)) (p : Option (ListItem × List ListItem))
    → IsValid ql
    → Pops r p
    → Pushed (left_by ql r) (left_by (iter ql) p)
left_by_lem ql none none v h = (v, refl)
left_by_lem ql none (some _) v h = absurd h
left_by_lem ql (some _) none v h = absurd h
left_by_lem ql (some (x, ql')) (some (y, ys)) v h = (h.1, h.2)

-- Every call keeps a valid list valid and does to its items what it does to a plain list.
pub change_lem :
    (ql : QuickList) (c : Change) → IsValid ql → Pushed (change ql c) (change_plain (iter ql) c)
unfolding change change_plain
change_lem ql (call_push_back item) v = push_back_lem ql item v
change_lem ql (call_push_front item) v = push_front_lem ql item v
change_lem ql call_pop_back v = left_by_lem ql _ _ v (pop_back_lem ql v)
change_lem ql call_pop_front v = left_by_lem ql _ _ v (pop_front_lem ql v)
change_lem ql (call_set index item) v = left_by_lem ql _ _ v (set_at_lem ql index item v)
change_lem ql (call_insert index item) v = insert_lem ql index item v
change_lem ql (call_remove_range start stop) v = (remove_range_lem ql start stop v).1
change_lem ql (call_remove_value value count) v = (remove_value_lem ql value count v).1
change_lem ql (call_insert_relative pivot elem after) v =
    (insert_relative_lem ql pivot elem after v).1

run_from :
    (cs : List Change) (ql : QuickList)
    → IsValid ql
    → Pushed (foldl change ql cs) (foldl change_plain (iter ql) cs)
run_from [] ql v = (v, refl)
run_from (c ∷ cs) ql v =
    let (valid, items) = change_lem ql c v in
    let (valid', items') = run_from cs (change ql c) valid in (valid', rw (← items) items')

-- After any sequence of calls on a new list, the list is valid and holds the items that the same
-- calls leave in a plain list: nothing of the chunks shows.
pub runs_refine : (cs : List Change) → Pushed (foldl change new cs) (foldl change_plain [] cs)
unfolding iter iter_chunks
runs_refine cs = run_from cs new (record { chunks_valid = tt; counted = refl })
