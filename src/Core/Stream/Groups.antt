-- ===== src/Core/Stream/Groups.antt =====
-- src/core/stream.rs: consumer groups. `&mut` on an entry of a table writes the changed entry back.
-- `entries_read` is an `i64` that counts entries, far below its bound.
use dragonflydb_rs.Common.{
  ℕ, ◌+◌, ◌-◌, Bool, true, false, not, ◌&&◌, List, [], ◌∷◌, ◌++◌, Option, none, some, length, leb,
  ◌==◌, if◌then◌else◌, bytes_eq,
}
use dragonflydb_rs.Common.Int.{ℤ, pos, ◌+ℤ◌}
use dragonflydb_rs.Common.Results.{Result, ok, err}
use dragonflydb_rs.Core.HashMap.{HashMap}
use dragonflydb_rs.Core.Stream.Id.{StreamId, max_id, less, same}
use dragonflydb_rs.Core.Stream.Tree.{Tree, get, insert, remove, modify, after, from}
use dragonflydb_rs.Core.Stream.Defs.{
  Name, Fields, StreamEntry, PendingEntry, Consumer, ConsumerGroup, Stream,
  scg_invalid_entries_read, is_invalid, succ_u64, as_i64, first_live, stream_range_has_tombstones,
  stream_estimate_distance, is_empty,
}

pub data GroupCreateErr : Type 0 where
  is_new : GroupCreateErr
  exists : GroupCreateErr

pub data GroupReadErr : Type 0 where
  no_group : GroupReadErr

-- `out.len() >= c`
abbrev pub reached : Option ℕ → ℕ → Bool
reached none n = false
reached (some c) n = leb c n

-- The fields of an entry that is live.
abbrev pub live_fields : Option StreamEntry → Fields
live_fields none = []
live_fields (some e) = if e.deleted then [] else e.fields

-- `first_id.is_some_and(|f| last_delivered >= f)`
abbrev pub at_or_after : Option StreamId → StreamId → Bool
at_or_after none id = false
at_or_after (some f) id = not (less id f)

abbrev pub or_new : ℕ → Option Consumer → Consumer
or_new now none = record { seen_time = now; active_time = scg_invalid_entries_read; pending = 0 }
or_new now (some c) = record c { seen_time = now }

-- The id that stands for `>`.
abbrev pub new_entries : StreamId
new_entries = record { ms = 0; seq = 1 }

abbrev pub again : ℕ → PendingEntry → PendingEntry
again now pe = record pe { delivery_count = succ_u64 pe.delivery_count; delivery_time = now }

-- What is read of the own pending entries, in their order.
unfoldable pub read_pending :
    Tree StreamEntry
    → Name
    → Option ℕ
    → Tree PendingEntry
    → List (StreamId × Fields)
    → List (StreamId × Fields)
read_pending entries name count [] out = out
read_pending entries name count ((id, pe) ∷ pel) out =
    let next = read_pending entries name count pel out in
    let taken =
      read_pending entries name count pel (out ++ (id, live_fields (get id entries)) ∷ []) in
    if not (bytes_eq pe.consumer name)
    then next
    else if reached count (length out)
    then out
    else taken

-- `for eid in entries_out`
unfoldable pub redeliver : ℕ → List (StreamId × Fields) → Tree PendingEntry → Tree PendingEntry
redeliver now [] pel = pel
redeliver now ((id, f) ∷ out) pel = redeliver now out (modify id (again now) pel)

abbrev pub add_one : Bool → ℕ → ℕ
add_one true n = n + 1
add_one false n = n

module _ {m : HashMap Name bytes_eq} where
  abbrev pub new_group : StreamId → ConsumerGroup m
  new_group id = record {
    last_delivered = id;
    entries_read = scg_invalid_entries_read;
    consumers = m.empty Consumer;
    pel = [];
  }

  unfoldable pub consumer_mut : ConsumerGroup m → Name → ℕ → ConsumerGroup m
  consumer_mut g name now = record g {
    consumers = m.put g.consumers name (or_new now (m.lookup g.consumers name));
  }

  abbrev pub is_there : Option (ConsumerGroup m) → Bool
  is_there none = false
  is_there (some g) = true

  unfoldable pub create_group :
      Stream m → Name → StreamId → Bool → Bool → Result GroupCreateErr (Stream m)
  unfolding is_empty
  create_group s name id mkstream id_is_dollar =
      if is_empty s && id_is_dollar && not mkstream
      then err is_new
      else if is_there (m.lookup s.groups name)
      then err exists
      else ok (record s {
        last_id = if mkstream && is_empty s && id_is_dollar then id else s.last_id;
        groups = m.put s.groups name (new_group id);
      })

  unfoldable pub destroy_group : Stream m → Name → Stream m × Bool
  destroy_group s name =
      (record s { groups = m.delete s.groups name }, is_there (m.lookup s.groups name))

  -- The pending entry and the consumer of an entry that has to be acknowledged.
  abbrev pub pend : Name → ℕ → StreamId → ConsumerGroup m → ConsumerGroup m
  pend name now id g =
      let c = or_new now (m.lookup g.consumers name) in
      record g {
        pel = insert id (record { consumer = name; delivery_time = now; delivery_count = 1 }) g.pel;
        consumers =
            m.put g.consumers name
              (record c { pending = succ_u64 c.pending; active_time = as_i64 now });
      }

  -- The read counter behind an entry.
  abbrev pub count_read : Stream m → Option StreamId → StreamId → ConsumerGroup m → ℤ
  count_read s first_id id g =
      if not (is_invalid g.entries_read)
        && at_or_after first_id g.last_delivered
        && not (stream_range_has_tombstones s.length s.max_deleted_id g.last_delivered max_id)
      then g.entries_read +ℤ pos 1
      else if length s.entries == 0
      then g.entries_read
      else stream_estimate_distance s.entries s.length s.last_id s.max_deleted_id first_id id

  -- One entry given to a consumer.
  abbrev pub given :
      Stream m → Option StreamId → Name → Bool → ℕ → StreamId → ConsumerGroup m → ConsumerGroup m
  given s first_id name noack now id g =
      let g1 = if noack then g else pend name now id g in
      record g1 { entries_read = count_read s first_id id g1; last_delivered = id }

  -- The loop over the entries behind the last one delivered.
  unfoldable pub read_new :
      Stream m
      → Option StreamId
      → Name
      → Option ℕ
      → Bool
      → ℕ
      → Tree StreamEntry
      → ConsumerGroup m
      → List (StreamId × Fields)
      → ConsumerGroup m × List (StreamId × Fields)
  read_new s first_id name count noack now [] g out = (g, out)
  read_new s first_id name count noack now ((id, e) ∷ t) g out =
      let skipped = read_new s first_id name count noack now t g out in
      let next =
        read_new s first_id name count noack now t (given s first_id name noack now id g)
          (out ++ (id, e.fields) ∷ []) in
      if e.deleted then skipped else if reached count (length out) then (g, out) else next

  -- The groups with a changed one.
  abbrev pub with_group : Stream m → Name → ConsumerGroup m → Stream m
  with_group s name g = record s { groups = m.put s.groups name g }

  abbrev pub read_from :
      Stream m
      → Name
      → Name
      → StreamId
      → Option ℕ
      → Bool
      → ℕ
      → Option (ConsumerGroup m)
      → Result GroupReadErr (Stream m × List (StreamId × Fields))
  read_from s group_name name id count noack now none = err no_group
  read_from s group_name name id count noack now (some group) =
      let g = consumer_mut group name now in
      if same id new_entries
      then (let (g', out) =
            read_new s (first_live s.entries) name count noack now
              (after g.last_delivered s.entries) g [] in
          ok (with_group s group_name g', out))
      else (let out = read_pending s.entries name count (from id g.pel) [] in
          ok (with_group s group_name (record g { pel = redeliver now out g.pel }), out))

  unfoldable pub read_group :
      Stream m
      → Name
      → Name
      → StreamId
      → Option ℕ
      → Bool
      → ℕ
      → Result GroupReadErr (Stream m × List (StreamId × Fields))
  read_group s group_name name id count noack now =
      read_from s group_name name id count noack now (m.lookup s.groups group_name)

  -- `saturating_sub(1)` on the consumer of an acknowledged entry, if it is still there.
  abbrev pub one_less : ConsumerGroup m → Name → Option Consumer → ConsumerGroup m
  one_less g name none = g
  one_less g name (some c) = record g {
    consumers = m.put g.consumers name (record c { pending = c.pending - 1 });
  }

  abbrev pub acked : ConsumerGroup m → StreamId → Option PendingEntry → ConsumerGroup m × Bool
  acked g id none = (g, false)
  acked g id (some pe) =
      let g1 = record g { pel = remove id g.pel } in
      (one_less g1 pe.consumer (m.lookup g1.consumers pe.consumer), true)

  -- `for id in ids`
  unfoldable pub ack_all : List StreamId → ConsumerGroup m → ℕ → ConsumerGroup m × ℕ
  ack_all [] g removed = (g, removed)
  ack_all (id ∷ ids) g removed =
      let (g', gone) = acked g id (get id g.pel) in ack_all ids g' (add_one gone removed)

  abbrev pub ack_in : Stream m → Name → List StreamId → Option (ConsumerGroup m) → Stream m × ℕ
  ack_in s group_name ids none = (s, 0)
  ack_in s group_name ids (some g) =
      let (g', removed) = ack_all ids g 0 in (with_group s group_name g', removed)

  unfoldable pub ack : Stream m → Name → List StreamId → Stream m × ℕ
  ack s group_name ids = ack_in s group_name ids (m.lookup s.groups group_name)
