-- ===== src/Commands/Streams.antt =====
-- src/commands/exec/streams.rs: the ids of XADD, and XADD on a stream.
pub mod Ids
mod Tests
use dragonflydb_rs.Common.{
  ℕ, ◌+◌, ◌-◌, ◌*◌, ◌^◌, Bool, true, false, not, ◌&&◌, ◌||◌, List, [], ◌∷◌, Option, none, some, ltb,
  ◌==◌, if◌then◌else◌, bytes_eq,
}
use dragonflydb_rs.Common.Results.{Result, ok, err, ◌>>=◌}
use dragonflydb_rs.Util.Decimal.{parse_u64}
use dragonflydb_rs.Core.HashMap.{HashMap}
use dragonflydb_rs.Core.Stream.Id.{StreamId, less}
use dragonflydb_rs.Core.Stream.Defs.{Name, Fields, Stream, append}
use dragonflydb_rs.Core.Stream.Trim.{node_max_entries, trim}

-- The texts "ERR The ID specified in XADD is equal or smaller ..." and "ERR Invalid stream ID ...".
pub data IdError : Type 0 where
  equal_or_smaller : IdError
  invalid : IdError

abbrev pub ok_or {ℓ} : {A : Type ℓ} → IdError → Option A → Result IdError A
ok_or e none = err e
ok_or e (some a) = ok a

abbrev pub with_first : ℕ → Option (List ℕ × List ℕ) → Option (List ℕ × List ℕ)
with_first b none = none
with_first b (some (left, right)) = some (b ∷ left, right)

-- What stands before and behind the first `-`.
unfoldable pub split_dash : List ℕ → Option (List ℕ × List ℕ)
split_dash [] = none
split_dash (b ∷ s) = if b == b'-' then some ([], s) else with_first b (split_dash s)

abbrev pub is_star : List ℕ → Bool
is_star s = bytes_eq s (b'*' ∷ [])

abbrev pub literal_id : ℕ → List ℕ → Option (List ℕ × List ℕ) → Result IdError StreamId
literal_id missing_seq s none = do
  ms ← ok_or invalid (parse_u64 s)
  ok (record { ms = ms; seq = missing_seq })
literal_id missing_seq s (some (left, right)) = do
  ms ← ok_or invalid (parse_u64 left)
  seq ← ok_or invalid (parse_u64 right)
  ok (record { ms = ms; seq = seq })

unfoldable pub parse_stream_id_literal : List ℕ → ℕ → Result IdError StreamId
parse_stream_id_literal s missing_seq =
    if is_star s then err invalid else literal_id missing_seq s (split_dash s)

unfoldable pub next_star_id : StreamId → ℕ → Option StreamId
next_star_id last now_ms =
    if ltb last.ms now_ms
    then some (record { ms = now_ms; seq = 0 })
    else if last.seq == 2 ^ 64 - 1
    then none
    else some (record { ms = last.ms; seq = last.seq + 1 })

-- The milliseconds, and the text of the sequence if there is one.
abbrev pub xadd_parts :
    StreamId → List ℕ → Option (List ℕ × List ℕ) → Result IdError (ℕ × Option (List ℕ))
xadd_parts last s none = do ms ← ok_or invalid (parse_u64 s); ok (ms, none)
xadd_parts last s (some (left, right)) =
    if is_star left
    then ok (last.ms, some right)
    else (do ms ← ok_or invalid (parse_u64 left); ok (ms, some right))

-- The sequence is left to the server.
abbrev pub seq_auto : Option (List ℕ) → Bool
seq_auto none = true
seq_auto (some s) = is_star s

abbrev pub or_empty : Option (List ℕ) → List ℕ
or_empty none = []
or_empty (some s) = s

abbrev pub auto_id : StreamId → ℕ → Result IdError StreamId
auto_id last ms =
    if ltb ms last.ms
    then err equal_or_smaller
    else if ms == last.ms && last.seq == 2 ^ 64 - 1
    then err equal_or_smaller
    else if ms == last.ms
    then ok (record { ms = ms; seq = last.seq + 1 })
    else ok (record { ms = ms; seq = 0 })

abbrev pub explicit_id : StreamId → ℕ → ℕ → Result IdError StreamId
explicit_id last ms seq =
    let id : StreamId = record { ms = ms; seq = seq } in
    if not (less last id) then err equal_or_smaller else ok id

abbrev pub complete_id : StreamId → ℕ × Option (List ℕ) → Result IdError StreamId
complete_id last (ms, seq_str) =
    if seq_auto seq_str
    then auto_id last ms
    else (do seq ← ok_or invalid (parse_u64 (or_empty seq_str)); explicit_id last ms seq)

unfoldable pub parse_xadd_id : List ℕ → StreamId → ℕ → Result IdError StreamId
parse_xadd_id s last now_ms =
    if is_star s
    then ok_or equal_or_smaller (next_star_id last now_ms)
    else (do parts ← xadd_parts last s (split_dash s); complete_id last parts)

-- The options of XADD that reach the stream.
pub record XAddArgs : Type 0 where
  pub maxlen : Option ℕ
  pub minid : Option StreamId
  pub approx : Bool
  pub limit : Option ℕ

-- `parsed.limit.or(Some(100 * NODE_MAX_ENTRIES))`
abbrev pub or_default : Option ℕ → Option ℕ
or_default none = some (100 * node_max_entries)
or_default (some limit) = some limit

abbrev pub effective_limit : Bool → Option ℕ → Option ℕ
effective_limit approx limit = if approx then or_default limit else limit

abbrev pub is_some {ℓ} : {A : Type ℓ} → Option A → Bool
is_some none = false
is_some (some a) = true

module _ {m : HashMap Name bytes_eq} where
  -- `exec_xadd` from the id on, where the stream is there: the stream and the id of the reply.
  unfoldable pub xadd :
      Stream m → XAddArgs → List ℕ → Fields → ℕ → Result IdError (Stream m × StreamId)
  xadd s parsed id_arg fields now = do
    id ← parse_xadd_id id_arg s.last_id now
    let s1 = append s id fields
    ok (
      if is_some parsed.maxlen || is_some parsed.minid
          then (trim s1 parsed.maxlen parsed.minid parsed.approx
              (effective_limit parsed.approx parsed.limit)).0
          else s1,
      id,
    )

  -- The end of `exec_xtrim`, where the stream is there.
  unfoldable pub xtrim : Stream m → XAddArgs → Stream m × ℕ
  xtrim s parsed =
      trim s parsed.maxlen parsed.minid parsed.approx (effective_limit parsed.approx parsed.limit)
