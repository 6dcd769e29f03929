-- ===== src/Server/SlowLog.antt =====
-- src/server/slowlog.rs: the ring of slow commands. Strings are their bytes; `u32` and `u64` wrap.
pub mod Ids
pub mod Render
mod Tests
use dragonflydb_rs.Common.{
  ℕ, zero, suc, ◌+◌, ◌-◌, ◌%◌, ◌^◌, min, Bool, true, false, ◌&&◌, ◌||◌, List, [], ◌∷◌, ◌++◌, map,
  length, take, ltb, leb, ◌==◌, if◌then◌else◌,
}
use dragonflydb_rs.Common.Int.{ℤ, pos, negsuc}
use dragonflydb_rs.Util.Decimal.{itoa}

abbrev pub max_slowlog_arg_count : ℕ
max_slowlog_arg_count = 31

abbrev pub max_slowlog_arg_length : ℕ
max_slowlog_arg_length = 128

pub record SlowLogEntry : Type 0 where
  pub id : ℕ
  pub unix_ts_usec : ℕ
  pub exec_time_usec : ℕ
  pub original_length : ℕ
  pub args : List (List ℕ × ℕ)
  pub client_ip : List ℕ
  pub client_name : List ℕ

pub record SlowLog : Type 0 where
  pub capacity : ℕ
  pub log_slower_than : ℤ
  pub entries : List SlowLogEntry
  pub entry_id : ℕ

abbrev pub new : SlowLog
new = record { capacity = 20; log_slower_than = pos 10000; entries = []; entry_id = 0 }

-- `while entries.len() > capacity { entries.pop_front() }`
unfoldable pub trim : ℕ → List SlowLogEntry → List SlowLogEntry
trim capacity [] = []
trim capacity (e ∷ es) =
    let rest = trim capacity es in if ltb capacity (length (e ∷ es)) then rest else e ∷ es

unfoldable pub change_length : SlowLog → ℕ → SlowLog
unfolding trim
change_length log new_length = record log {
  capacity = new_length;
  entries = trim new_length log.entries;
}

unfoldable pub set_threshold : SlowLog → ℤ → SlowLog
set_threshold log val = record log { log_slower_than = val }

-- The effective threshold: negative disables the log.
unfoldable pub threshold_of : ℤ → ℕ
threshold_of (pos n) = n
threshold_of (negsuc n) = 2 ^ 32 - 1

unfoldable pub is_enabled : SlowLog → Bool
is_enabled log = ltb 0 log.capacity

unfoldable pub should_log : SlowLog → ℕ → Bool
unfolding is_enabled threshold_of
should_log log exec_time = is_enabled log && leb (threshold_of log.log_slower_than) exec_time

unfoldable pub len : SlowLog → ℕ
len log = length log.entries

unfoldable pub reset : SlowLog → SlowLog
reset log = record log { entries = [] }

-- The bytes that are kept of an argument, and how many are not.
unfoldable pub cut_arg : List ℕ → List ℕ × ℕ
cut_arg arg = (
  take (min (length arg) max_slowlog_arg_length) arg,
  (length arg - max_slowlog_arg_length) % 2 ^ 32,
)

-- The number of arguments behind the name that are kept.
unfoldable pub effective : ℕ → ℕ
effective n = if ltb max_slowlog_arg_count n then max_slowlog_arg_count - 1 else n

unfoldable pub stored_args : List ℕ → List (List ℕ) → List (List ℕ × ℕ)
unfolding cut_arg effective
stored_args name tail = (name, 0) ∷ map cut_arg (take (effective (length tail)) tail)

unfoldable pub add : SlowLog → List ℕ → List (List ℕ) → List ℕ → List ℕ → ℕ → ℕ → SlowLog
unfolding stored_args trim
add log name tail client_ip client_name exec_time_usec unix_ts_usec =
    let entry : SlowLogEntry = record {
      id = log.entry_id;
      unix_ts_usec = unix_ts_usec;
      exec_time_usec = exec_time_usec;
      original_length = length tail + 1;
      args = stored_args name tail;
      client_ip = client_ip;
      client_name = client_name;
    } in
    record log {
      entries = trim log.capacity (log.entries ++ entry ∷ []);
      entry_id = (log.entry_id + 1) % 2 ^ 64;
    }

-- `a` stands before `b` in a snapshot, or at its place: newest first, then by id.
abbrev pub before : SlowLogEntry → SlowLogEntry → Bool
before a b = ltb b.unix_ts_usec a.unix_ts_usec || a.unix_ts_usec == b.unix_ts_usec && leb b.id a.id

-- `sort_by`, which is stable; any stable sort gives this list.
unfoldable pub place : SlowLogEntry → List SlowLogEntry → List SlowLogEntry
place e [] = e ∷ []
place e (f ∷ fs) = let rest = place e fs in if before e f then e ∷ f ∷ fs else f ∷ rest

unfoldable pub sort_newest : List SlowLogEntry → List SlowLogEntry
unfolding place
sort_newest [] = []
sort_newest (e ∷ es) = place e (sort_newest es)

unfoldable pub snapshot : SlowLog → ℕ → List SlowLogEntry
unfolding sort_newest
snapshot log requested = take requested (sort_newest log.entries)

-- `"... ({n} more bytes)"` and `"... ({n} more arguments)"`
abbrev pub more_bytes : ℕ → List ℕ
more_bytes n =
    b'.' ∷ b'.' ∷ b'.' ∷ b' ' ∷ b'(' ∷ itoa (pos n)
    ++ (b' ' ∷ b'm' ∷ b'o' ∷ b'r' ∷ b'e' ∷ b' ' ∷ b'b' ∷ b'y' ∷ b't' ∷ b'e' ∷ b's' ∷ b')' ∷ [])

abbrev pub more_arguments : ℕ → List ℕ
more_arguments n =
    b'.' ∷ b'.' ∷ b'.' ∷ b' ' ∷ b'(' ∷ itoa (pos n)
    ++ (b' ' ∷ b'm' ∷ b'o' ∷ b'r' ∷ b'e' ∷ b' ' ∷ b'a' ∷ b'r' ∷ b'g' ∷ b'u' ∷ b'm' ∷ b'e' ∷ b'n'
        ∷ b't' ∷ b's' ∷ b')' ∷ [])

unfoldable pub render_arg : List ℕ × ℕ → List ℕ
render_arg (bytes, extra) =
    let keep = max_slowlog_arg_length - length (more_bytes extra) in
    if ltb 0 extra then take (min keep (length bytes)) bytes ++ more_bytes extra else bytes

-- The elements of the array of bulk strings that a reply shows for the arguments.
unfoldable pub render_args : SlowLogEntry → List (List ℕ)
unfolding render_arg
render_args e =
    map render_arg e.args
    ++ (if ltb (length e.args) e.original_length
        then more_arguments (e.original_length - length e.args) ∷ []
        else [])
