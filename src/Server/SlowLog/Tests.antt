-- ===== src/Server/SlowLog/Tests.antt =====
-- Runs of src/server/slowlog.rs.
use dragonflydb_rs.Common.{ℕ, ◌≡◌, refl, arith, min, List, [], ◌∷◌, length}
use dragonflydb_rs.Server.SlowLog.{SlowLogEntry, new, add, change_length, reset, stored_args}
use dragonflydb_rs.Server.SlowLog.Ids.{IsValid, add-IsValid, change_length-IsValid, reset-IsValid}

new-IsValid : IsValid new
new-IsValid = record { bounded = omega arith; given_out = omega arith; consecutive = refl }

abbrev name : List ℕ
name = b'g' ∷ b'e' ∷ b't' ∷ []

abbrev tail : List (List ℕ)
tail = (b'k' ∷ []) ∷ []

add-IsValid_example : IsValid (add new name tail [] [] 20000 5)
add-IsValid_example = add-IsValid new name tail [] [] 20000 5 (omega arith) new-IsValid

once-IsValid : IsValid (add new name tail [] [] 20000 5)
once-IsValid = add-IsValid new name tail [] [] 20000 5 (omega arith) new-IsValid

change_length-IsValid_example :
    IsValid (change_length (add new name tail [] [] 20000 5) 0)
    × (length (change_length (add new name tail [] [] 20000 5) 0).entries
        ≡ min 0 (length (add new name tail [] [] 20000 5).entries))
change_length-IsValid_example =
    change_length-IsValid (add new name tail [] [] 20000 5) 0 once-IsValid

reset-IsValid_example :
    IsValid (reset (add new name tail [] [] 20000 5))
    × ((reset (add new name tail [] [] 20000 5)).entry_id
        ≡ (add new name tail [] [] 20000 5).entry_id)
reset-IsValid_example = reset-IsValid (add new name tail [] [] 20000 5)

abbrev entry : SlowLogEntry
entry = record {
  id = 0;
  unix_ts_usec = 5;
  exec_time_usec = 20000;
  original_length = 2;
  args = stored_args name tail;
  client_ip = [];
  client_name = [];
}
