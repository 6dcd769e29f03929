-- ===== src/Core/QuickList/Tests.antt =====
-- Runs of src/core/quicklist.rs.
use dragonflydb_rs.Common.{List, [], ◌∷◌}
use mathlib.Core.List.{foldl}
use dragonflydb_rs.Common.Int.{pos, negsuc}
use dragonflydb_rs.Core.QuickList.Item.{ListItem, int, str}
use dragonflydb_rs.Core.QuickList.Ends.{QuickList, new, from_items}
use dragonflydb_rs.Core.QuickList.Ends.Push.{Pushed}
use dragonflydb_rs.Core.QuickList.Runs.{
  Change, change, change_plain, runs_refine, call_push_back, call_push_front, call_pop_back,
  call_set, call_insert, call_remove_value,
}

abbrev items : List ListItem
items = int (pos 1) ∷ str (b'a' ∷ []) ∷ int (pos 1) ∷ []

abbrev three : QuickList
three = from_items items

abbrev calls : List Change
calls =
    call_push_back (int (pos 1))
    ∷ call_push_front (int (pos 0))
    ∷ call_insert (pos 1) (str (b'a' ∷ []))
    ∷ call_set (negsuc 0) (int (pos 5))
    ∷ call_remove_value (b'0' ∷ []) (pos 1)
    ∷ call_pop_back
    ∷ []

runs_refine_example : Pushed (foldl change new calls) (foldl change_plain [] calls)
runs_refine_example = runs_refine calls
