-- ===== src/Core/Stream/Defs.antt =====
-- src/core/stream.rs: `Stream`, its entries and what is computed from them. Strings are their bytes;
-- `u64` wraps at 2^64 and `as i64` reads the same bits. The maps from names are hashbrown's.
use dragonflydb_rs.Common.{
  ℕ, ◌+◌, ◌-◌, ◌%◌, ◌^◌, Bool, true, false, not, ◌&&◌, ◌||◌, List, [], ◌∷◌, Option, none, some,
  length, ◌==◌, if◌then◌else◌, bytes_eq,
}
use dragonflydb_rs.Common.Int.{ℤ, pos, negsuc, ◌-ℤ◌, to_signed}
use dragonflydb_rs.Core.HashMap.{HashMap}
use dragonflydb_rs.Core.Stream.Id.{StreamId, min_id, max_id, is_zero, less, same}
use dragonflydb_rs.Core.Stream.Tree.{Tree, get, insert, modify}

abbrev pub Name : Type 0
Name = List ℕ

abbrev pub Fields : Type 0
Fields = List (Name × Name)

pub record StreamEntry : Type 0 where
  pub fields : Fields
  pub deleted : Bool

pub record PendingEntry : Type 0 where
  pub consumer : Name
  pub delivery_time : ℕ
  pub delivery_count : ℕ

pub record Consumer : Type 0 where
  pub seen_time : ℕ
  pub active_time : ℤ
  pub pending : ℕ

-- `SCG_INVALID_ENTRIES_READ` and `SCG_INVALID_LAG` are both -1.
abbrev pub scg_invalid_entries_read : ℤ
scg_invalid_entries_read = negsuc 0

abbrev pub scg_invalid_lag : ℤ
scg_invalid_lag = negsuc 0

abbrev pub is_invalid : ℤ → Bool
is_invalid (pos n) = false
is_invalid (negsuc n) = n == 0

-- `+ 1`, `-` and `as i64` of a `u64`.
abbrev pub succ_u64 : ℕ → ℕ
succ_u64 n = (n + 1) % 2 ^ 64

abbrev pub sub_u64 : ℕ → ℕ → ℕ
sub_u64 a b = (a + 2 ^ 64 - b) % 2 ^ 64

abbrev pub as_i64 : ℕ → ℤ
as_i64 n = to_signed (2 ^ 63) (n % 2 ^ 64)

module _ (m : HashMap Name bytes_eq) where
  pub record ConsumerGroup : Type 0 where
    pub last_delivered : StreamId
    pub entries_read : ℤ
    pub consumers : m.Table Consumer
    pub pel : Tree PendingEntry

  pub record Stream : Type 0 where
    pub entries : Tree StreamEntry
    pub length : ℕ
    pub last_id : StreamId
    pub max_deleted_id : StreamId
    pub groups : m.Table ConsumerGroup

  abbrev pub new : Stream
  new = record {
    entries = [];
    length = 0;
    last_id = min_id;
    max_deleted_id = min_id;
    groups = m.empty ConsumerGroup;
  }

-- `.iter().find(|(_, e)| !e.deleted)`
unfoldable pub first_live : Tree StreamEntry → Option StreamId
first_live [] = none
first_live ((id, e) ∷ t) = if e.deleted then first_live t else some id

-- The same from the back: the last one found going forward.
abbrev pub or_later : Option StreamId → StreamId → Option StreamId
or_later none id = some id
or_later (some later) id = some later

unfoldable pub last_live : Tree StreamEntry → Option StreamId
last_live [] = none
last_live ((id, e) ∷ t) = if e.deleted then last_live t else or_later (last_live t) id

unfoldable pub stream_range_has_tombstones : ℕ → StreamId → StreamId → StreamId → Bool
stream_range_has_tombstones length max_deleted_id start end =
    if length == 0 || is_zero max_deleted_id
    then false
    else not (less max_deleted_id start) && not (less end max_deleted_id)

-- The last test of the estimate, with the first live id.
abbrev pub distance_at_first : ℕ → ℕ → StreamId → StreamId → Option StreamId → ℤ
distance_at_first added length max_deleted_id id none = scg_invalid_entries_read
distance_at_first added length max_deleted_id id (some first) =
    if (is_zero max_deleted_id || less max_deleted_id first) && less id first
    then as_i64 (sub_u64 added length)
    else if (is_zero max_deleted_id || less max_deleted_id first) && same id first
    then as_i64 (succ_u64 (sub_u64 added length))
    else scg_invalid_entries_read

unfoldable pub stream_estimate_distance :
    Tree StreamEntry → ℕ → StreamId → StreamId → Option StreamId → StreamId → ℤ
stream_estimate_distance entries n last_id max_deleted_id first_id id =
    let added = length entries in
    if added == 0
    then pos 0
    else if n == 0 && not (less last_id id)
    then as_i64 added
    else if not (is_zero id) && less id max_deleted_id
    then scg_invalid_entries_read
    else if same id last_id
    then as_i64 added
    else if less last_id id
    then scg_invalid_entries_read
    else distance_at_first added n max_deleted_id id first_id

-- What a deletion does to an entry that is there and not deleted.
abbrev pub is_live : Option StreamEntry → Bool
is_live none = false
is_live (some e) = not e.deleted

abbrev pub mark : StreamEntry → StreamEntry
mark e = record e { deleted = true }

module _ {m : HashMap Name bytes_eq} where
  unfoldable pub len : Stream m → ℕ
  len s = s.length

  unfoldable pub is_empty : Stream m → Bool
  is_empty s = s.length == 0

  unfoldable pub first_entry : Stream m → Option StreamId
  unfolding first_live
  first_entry s = first_live s.entries

  unfoldable pub last_entry : Stream m → Option StreamId
  unfolding last_live
  last_entry s = last_live s.entries

  unfoldable pub append : Stream m → StreamId → Fields → Stream m
  append s id fields = record s {
    entries = insert id (record { fields = fields; deleted = false }) s.entries;
    last_id = id;
    length = succ_u64 s.length;
  }

  -- An entry marked deleted, and the length less one.
  abbrev pub marked : Stream m → StreamId → Stream m
  marked s id = record s { entries = modify id mark s.entries; length = sub_u64 s.length 1 }

  unfoldable pub delete : Stream m → StreamId → Stream m × Bool
  delete s id =
      if is_live (get id s.entries)
      then (
        record (marked s id) {
          max_deleted_id = if less s.max_deleted_id id then id else s.max_deleted_id;
        },
        true,
      )
      else (s, false)

  unfoldable pub trim_delete : Stream m → StreamId → Stream m × Bool
  trim_delete s id = if is_live (get id s.entries) then (marked s id, true) else (s, false)

  unfoldable pub entries_added : Stream m → ℕ
  entries_added s = length s.entries

  unfoldable pub range_has_tombstones : Stream m → StreamId → StreamId → Bool
  unfolding stream_range_has_tombstones
  range_has_tombstones s start end = stream_range_has_tombstones s.length s.max_deleted_id start end

  unfoldable pub estimate_distance_from_first_ever_entry : Stream m → StreamId → ℤ
  unfolding stream_estimate_distance first_entry
  estimate_distance_from_first_ever_entry s id =
      stream_estimate_distance s.entries s.length s.last_id s.max_deleted_id (first_entry s) id

  unfoldable pub cg_lag : Stream m → ConsumerGroup m → ℤ
  unfolding entries_added range_has_tombstones estimate_distance_from_first_ever_entry
  cg_lag s group =
      let added = entries_added s in
      let entries_read = estimate_distance_from_first_ever_entry s group.last_delivered in
      if added == 0
      then pos 0
      else if not (is_invalid group.entries_read)
          && not (range_has_tombstones s group.last_delivered max_id)
      then as_i64 added -ℤ group.entries_read
      else if not (is_invalid entries_read)
      then as_i64 added -ℤ entries_read
      else scg_invalid_lag
