-- ===== src/Core/Stream/Tests.antt =====
-- Runs of src/core/stream.rs.
use dragonflydb_rs.Common.{
  ℕ, ◌+◌, ◌-◌, ◌≤◌, ◌≡◌, refl, arith, true, false, List, [], ◌∷◌, ◌++◌, none, some, length, drop,
  min, if◌then◌else◌, bytes_eq,
}
use dragonflydb_rs.Common.Results.{Result, ok, err}
use dragonflydb_rs.Core.HashMap.{HashMap}
use dragonflydb_rs.Core.HashMap.Writes.{writes}
use dragonflydb_rs.Core.Stream.Id.{StreamId, less, same}
use dragonflydb_rs.Core.Stream.Tree.{get, insert, after}
use dragonflydb_rs.Core.Stream.Defs.{Name, Fields, ConsumerGroup, Stream, new, append}
use dragonflydb_rs.Core.Stream.Trim.{trim}
use dragonflydb_rs.Core.Stream.Groups.{
  GroupReadErr, new_entries, new_group, read_group, read_new, consumer_mut, ack,
}
use dragonflydb_rs.Core.Stream.Live.{live, IsValid}
use dragonflydb_rs.Core.Stream.Bounds.{trim_lem}
use dragonflydb_rs.Core.Stream.Exact.{trim-maxlen, trim-minid, at_least}
use dragonflydb_rs.Core.Stream.Edits.{append_lem}
use dragonflydb_rs.Core.Stream.Delivery.{contents, up_to, last_of, read_group_new}
use dragonflydb_rs.Core.Stream.NoLoss.{read_group_twice}
use dragonflydb_rs.Core.Stream.Ack.{mem, ack_lem}

abbrev maps : HashMap Name bytes_eq
maps = writes Name bytes_eq

abbrev at : ℕ → StreamId
at ms = record { ms = ms; seq = 0 }

abbrev none_yet : Stream maps
none_yet = new maps

none_yet-IsValid : IsValid none_yet
unfolding live
none_yet-IsValid = record { ascending = tt; up_to = tt; counted = refl; small = omega arith }

abbrev one : Stream maps
one = append none_yet (at 1) []

one-IsValid : IsValid one
one-IsValid =
    (append_lem none_yet (at 1) [] none_yet-IsValid (unfold less in refl)
      (unfold live in omega arith)).0

one_live : live one.entries ≡ at 1 ∷ []
unfolding live append insert
one_live = refl

abbrev two : Stream maps
two = append one (at 2) []

two-IsValid : IsValid two
two-IsValid =
    (append_lem one (at 2) [] one-IsValid (unfold less append in refl)
      (rw one_live (omega arith))).0

trim_lem_example :
    let (s', removed) = trim two (some 1) none true none in
    IsValid s'
    × (removed ≤ length (live two.entries))
    × (live s'.entries ≡ drop removed (live two.entries))
trim_lem_example = trim_lem two (some 1) none true none two-IsValid

trim-maxlen_example :
    let (s', removed) = trim two (some 1) none false none in
    (removed ≡ length (live two.entries) - 1)
    × (live s'.entries ≡ drop (length (live two.entries) - 1) (live two.entries))
    × (s'.length ≡ min 1 (length (live two.entries)))
trim-maxlen_example = trim-maxlen two 1 two-IsValid

trim-minid_example :
    let (s', removed) = trim two none (some (at 2)) false none in
    (live s'.entries ≡ at_least (at 2) (live two.entries))
    × (removed + length (live s'.entries) ≡ length (live two.entries))
trim-minid_example = trim-minid two (at 2) two-IsValid

abbrev name : Name
name = b'g' ∷ []

-- The stream of two entries with a group at its start.
abbrev grouped : Stream maps
grouped = record two { groups = maps.put two.groups name (new_group (at 0)) }

grouped-IsValid : IsValid grouped
grouped-IsValid = record {
  ascending = two-IsValid.ascending;
  up_to = two-IsValid.up_to;
  counted = two-IsValid.counted;
  small = two-IsValid.small;
}

group_there : maps.lookup grouped.groups name ≡ some (new_group {m = maps} (at 0))
unfolding bytes_eq
group_there = refl

read_group_new_example :
    let out = up_to (some 1) (contents (after (at 0) grouped.entries)) in
    (s' : Stream maps) × (read_group grouped name name new_entries (some 1) false 5 ≡ ok (s', out))
    × (s'.entries ≡ grouped.entries)
    × (g' : ConsumerGroup maps) × (maps.lookup s'.groups name ≡ some g')
    × (g'.last_delivered ≡ last_of (at 0) out)
read_group_new_example = read_group_new grouped name name (some 1) false 5 group_there

ack_lem_example :
    let (s', removed) = ack grouped name (at 1 ∷ []) in
    (g' : ConsumerGroup maps) × (maps.lookup s'.groups name ≡ some g')
    × (get (at 2) g'.pel ≡ (if mem (at 2) (at 1 ∷ []) then none else get (at 2) []))
    × (removed + length g'.pel ≡ 0)
ack_lem_example = ack_lem grouped name (at 1 ∷ []) (at 2) group_there tt

abbrev state : Result GroupReadErr (Stream maps × List (StreamId × Fields)) → Stream maps
state (ok (s, out)) = s
state (err e) = none_yet

-- Two reads of one entry each, and one of two.
abbrev read : Stream maps → ℕ → Result GroupReadErr (Stream maps × List (StreamId × Fields))
read s n = read_group s name name new_entries (some n) false 5

abbrev once : Stream maps
once = state (read grouped 1)

first_read : read grouped 1 ≡ ok (once, (at 1, []) ∷ [])
unfolding read_group read_new after append insert less same bytes_eq consumer_mut
first_read = refl

second_read : read once 1 ≡ ok (state (read once 1), (at 2, []) ∷ [])
unfolding read_group read_new after append insert less same bytes_eq consumer_mut
second_read = refl

both_read : read grouped (1 + 1) ≡ ok (state (read grouped 2), (at 1, []) ∷ (at 2, []) ∷ [])
unfolding read_group read_new after append insert less same bytes_eq consumer_mut
both_read = refl

read_group_twice_example :
    ◌≡◌ {A = List (StreamId × Fields)}
      (((at 1, []) ∷ []) ++ (at 2, []) ∷ [])
      ((at 1, []) ∷ (at 2, []) ∷ [])
read_group_twice_example =
    read_group_twice grouped once (state (read once 1)) (state (read grouped 2)) name name name name
      1 1 false false false 5 5 5 ((at 1, []) ∷ []) ((at 2, []) ∷ []) ((at 1, []) ∷ (at 2, []) ∷ [])
      grouped-IsValid first_read second_read both_read
