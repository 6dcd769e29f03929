-- ===== src/Commands/Streams/Tests.antt =====
-- Runs of src/commands/exec/streams.rs.
use dragonflydb_rs.Common.{
  ℕ, ◌+◌, ◌-◌, ◌≡◌, refl, arith, true, false, List, [], ◌∷◌, ◌++◌, none, some, length, drop,
  if◌then◌else◌, bytes_eq,
}
use dragonflydb_rs.Common.Results.{Result, ok, err}
use dragonflydb_rs.Core.HashMap.{HashMap}
use dragonflydb_rs.Core.HashMap.Writes.{writes}
use dragonflydb_rs.Core.Stream.Id.{StreamId, less, render}
use dragonflydb_rs.Core.Stream.Defs.{Name, Stream, new}
use dragonflydb_rs.Core.Stream.Live.{live, IsValid}
use dragonflydb_rs.Commands.Streams.{
  IdError, XAddArgs, equal_or_smaller, parse_xadd_id, next_star_id, xadd,
}
use dragonflydb_rs.Commands.Streams.Ids.{parse_xadd_id_above, parse_xadd_id-render, xadd-maxlen}

abbrev star : List ℕ
star = b'*' ∷ []

abbrev last : StreamId
last = record { ms = 7; seq = 3 }

-- A clock behind the last id: the sequence goes on.
star_id : parse_xadd_id star last 5 ≡ ok (record { ms = 7; seq = 4 })
unfolding parse_xadd_id next_star_id bytes_eq
star_id = refl

parse_xadd_id_above_example : less last (record { ms = 7; seq = 4 }) ≡ true
parse_xadd_id_above_example = parse_xadd_id_above star last 5 (record { ms = 7; seq = 4 }) star_id

parse_xadd_id-render_example : parse_xadd_id (render (record { ms = 7; seq = 3 })) last 5 ≡ (
    if less last (record { ms = 7; seq = 3 })
    then ok (record { ms = 7; seq = 3 })
    else err equal_or_smaller)
parse_xadd_id-render_example =
    parse_xadd_id-render (record { ms = 7; seq = 3 }) last 5 (omega arith) (omega arith)

abbrev maps : HashMap Name bytes_eq
maps = writes Name bytes_eq

abbrev none_yet : Stream maps
none_yet = new maps

none_yet-IsValid : IsValid none_yet
unfolding live
none_yet-IsValid = record { ascending = tt; up_to = tt; counted = refl; small = omega arith }

abbrev to_one : XAddArgs
to_one = record { maxlen = some 1; minid = none; approx = false; limit = none }

abbrev first : StreamId
first = record { ms = 5; seq = 0 }

abbrev state : Result IdError (Stream maps × StreamId) → Stream maps
state (ok (s, id)) = s
state (err e) = none_yet

added : xadd none_yet to_one star [] 5 ≡ ok (state (xadd none_yet to_one star [] 5), first)
unfolding xadd parse_xadd_id next_star_id bytes_eq
added = refl

xadd-maxlen_example :
    let s = state (xadd none_yet to_one star [] 5) in
    IsValid s
    × (less none_yet.last_id first ≡ true)
    × (s.last_id ≡ first)
    × (live s.entries
        ≡ drop (length (live none_yet.entries) + 1 - 1) (live none_yet.entries ++ first ∷ []))
xadd-maxlen_example =
    xadd-maxlen none_yet (state (xadd none_yet to_one star [] 5)) 1 star [] 5 first none_yet-IsValid
      (unfold live in omega arith) added
