-- ===== src/Server/SlowLog/Ids.antt =====
-- src/server/slowlog.rs: the bound of the ring, and its ids.
use dragonflydb_rs.Common.{
  ℕ, suc, ◌+◌, ◌-◌, ◌%◌, ◌^◌, ◌≤◌, ◌<◌, ◌≡◌, refl, ap, ◌∙◌, arith, min, List, [], ◌∷◌, ◌++◌, length,
  length-append, drop, ltb, numbers, numbers_snoc, Bool-cases, inl, inr,
}
use dragonflydb_rs.Server.SlowLog.{
  SlowLogEntry, SlowLog, trim, change_length, reset, add, stored_args,
}

-- The ids of some entries.
abbrev pub ids : List SlowLogEntry → List ℕ
ids [] = []
ids (e ∷ es) = e.id ∷ ids es

-- The ring holds at most its capacity, and its ids are the last ones given out, in order.
pub record IsValid (log : SlowLog) : Type 0 where
  pub bounded : length log.entries ≤ log.capacity
  pub given_out : length log.entries ≤ log.entry_id
  pub consecutive :
      ids log.entries ≡ numbers (log.entry_id - length log.entries) (length log.entries)

ids-append : (es fs : List SlowLogEntry) → ids (es ++ fs) ≡ ids es ++ ids fs
ids-append [] fs = refl
ids-append (e ∷ es) fs = ap (◌∷◌ e.id) (ids-append es fs)

-- Trimming drops the oldest entries that are too many.
trim_lem :
    (capacity : ℕ) (es : List SlowLogEntry) (s : ℕ)
    → ids es ≡ numbers s (length es)
    → let n = min capacity (length es) in
      (length (trim capacity es) ≡ n) × (ids (trim capacity es) ≡ numbers (s + (length es - n)) n)
unfolding trim
trim_lem capacity [] s h =
    let none_left : min capacity 0 ≡ 0 = omega arith in rw none_left (refl, refl)
trim_lem capacity (e ∷ es) s h = elim (Bool-cases (ltb capacity (length (e ∷ es)))) [
  | inl over ↦
      let n : min capacity (suc (length es)) ≡ min capacity (length es) = ground arith in
      let start : s + (suc (length es) - min capacity (length es))
          ≡ suc s + (length es - min capacity (length es)) =
        omega arith in
      let (size, rest) = trim_lem capacity es (suc s) (ap (drop 1) h) in
      rw over (rw n (rw start (size, rest)))
  | inr room ↦
      let n : min capacity (suc (length es)) ≡ suc (length es) = ground arith in
      let start : s + (suc (length es) - suc (length es)) ≡ s = omega arith in
      rw room (rw n (rw start (refl, h)))
]

-- The ring after trimming any entries with consecutive ids that end below `next`.
trimmed-IsValid :
    (log : SlowLog) (capacity next : ℕ) (es : List SlowLogEntry)
    → length es ≤ next
    → ids es ≡ numbers (next - length es) (length es)
    → IsValid (record log { capacity = capacity; entries = trim capacity es; entry_id = next })
trimmed-IsValid log capacity next es few h =
    let (size, rest) = trim_lem capacity es (next - length es) h in
    let n = min capacity (length es) in
    let start : next - length es + (length es - n) ≡ next - n = omega (arith, few) in
    record {
      bounded = omega (arith, size);
      given_out = omega (arith, size, few);
      consecutive = rw size (rest ∙ ap (λ k. numbers k n) start);
    }

-- `add` keeps the ring valid: it holds at most its capacity, and its ids are the last ones given out,
-- in order, as long as the counter of ids does not wrap.
pub add-IsValid :
    (log : SlowLog) (name : List ℕ) (tail : List (List ℕ)) (client_ip client_name : List ℕ)
    (exec_time_usec unix_ts_usec : ℕ)
    → log.entry_id + 1 < 2 ^ 64
    → IsValid log
    → IsValid (add log name tail client_ip client_name exec_time_usec unix_ts_usec)
unfolding add
add-IsValid log name tail client_ip client_name exec_time_usec unix_ts_usec fits v =
    let entry : SlowLogEntry = record {
      id = log.entry_id;
      unix_ts_usec = unix_ts_usec;
      exec_time_usec = exec_time_usec;
      original_length = length tail + 1;
      args = stored_args name tail;
      client_ip = client_ip;
      client_name = client_name;
    } in
    let n = length log.entries in
    let next : (log.entry_id + 1) % 2 ^ 64 ≡ log.entry_id + 1 = omega arith in
    let size : length (log.entries ++ entry ∷ []) ≡ suc n =
      omega (arith, length-append log.entries (entry ∷ [])) in
    let start : log.entry_id + 1 - suc n ≡ log.entry_id - n = omega (arith, v.given_out) in
    let last : log.entry_id ≡ log.entry_id - n + n = omega (arith, v.given_out) in
    let all : ids (log.entries ++ entry ∷ []) ≡ numbers (log.entry_id - n) (suc n) =
      ids-append log.entries (entry ∷ [])
      ∙ ap (λ xs. xs ++ log.entry_id ∷ []) v.consecutive
      ∙ ap (λ k. numbers (log.entry_id - n) n ++ k ∷ []) last
      ∙ numbers_snoc (log.entry_id - n) n in
    rw next (
      trimmed-IsValid log log.capacity (log.entry_id + 1) (log.entries ++ entry ∷ [])
        (omega (arith, size, v.given_out)) (rw size (rw start all)))

-- Changing the length keeps the newest entries that fit, and the ring valid.
pub change_length-IsValid :
    (log : SlowLog) (new_length : ℕ)
    → IsValid log
    → IsValid (change_length log new_length)
      × (length (change_length log new_length).entries ≡ min new_length (length log.entries))
unfolding change_length
change_length-IsValid log new_length v = (
  trimmed-IsValid log new_length log.entry_id log.entries v.given_out v.consecutive,
  (trim_lem new_length log.entries (log.entry_id - length log.entries) v.consecutive).0,
)

-- A reset ring is valid and goes on with the same ids.
pub reset-IsValid : (log : SlowLog) → IsValid (reset log) × ((reset log).entry_id ≡ log.entry_id)
unfolding reset
reset-IsValid log =
    (record { bounded = omega arith; given_out = omega arith; consecutive = refl }, refl)
