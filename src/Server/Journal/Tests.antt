-- ===== src/Server/Journal/Tests.antt =====
-- Runs of src/server/journal.rs.
use dragonflydb_rs.Common.{
  ℕ, ◌≡◌, refl, arith, inl, List, [], ◌∷◌, ◌++◌, none, some, ◌&&◌, ◌==◌, if◌then◌else◌, length,
}
use dragonflydb_rs.Common.Results.{ok, err}
use dragonflydb_rs.Core.Rdb.{write_len}
use dragonflydb_rs.Server.Journal.{
  Reader, ParsedEntry, op_command, serialize_record, read_byte, read_packed, read_entry, truncated,
}
use dragonflydb_rs.Server.Journal.Packed.{here}
use dragonflydb_rs.Server.Journal.RoundTrip.{read_entry-serialize_record}
use dragonflydb_rs.Server.Journal.Slice.{
  JournalItem, JournalSlice, with_capacity, front, record_entry, get_entry,
}
use dragonflydb_rs.Server.Journal.Slice.Ring.{IsValid}
use dragonflydb_rs.Server.Journal.Slice.Calls.{
  after, call_record, after-IsValid_journal, get_entry-record_entry,
}

abbrev bytes : List ℕ
bytes = serialize_record 7 op_command 2 0 (b'S' ∷ b'E' ∷ b'T' ∷ []) ((b'k' ∷ []) ∷ (b'v' ∷ []) ∷ [])

abbrev entry : ParsedEntry
entry = record {
  opcode = op_command;
  dbid = 2;
  txid = 7;
  lsn = 0;
  cmd = (b'S' ∷ b'E' ∷ b'T' ∷ []) ∷ (b'k' ∷ []) ∷ (b'v' ∷ []) ∷ [];
}

serialized : bytes ≡ 6 ∷ 2 ∷ 10 ∷ 7 ∷ 1 ∷ 3 ∷ 5 ∷ 3 ∷ b'S' ∷ b'E' ∷ b'T' ∷ 1 ∷ b'k' ∷ 1 ∷ b'v' ∷ []
unfolding serialize_record write_len
serialized = refl

read_entry-serialize_record_example :
    read_entry (here (0 ∷ []) (bytes ++ 1 ∷ []) 0) ≡ ok (entry, here (0 ∷ [] ++ bytes) (1 ∷ []) 2)
read_entry-serialize_record_example =
    read_entry-serialize_record 7 op_command 2 0 (b'S' ∷ b'E' ∷ b'T' ∷ [])
      ((b'k' ∷ []) ∷ (b'v' ∷ []) ∷ []) (0 ∷ []) (1 ∷ []) 0 (inl refl) (omega arith) (omega arith)
      (omega arith) (omega arith) (rw serialized (omega arith))

-- SELECT without an end.
abbrev cut : Reader
cut = record { bytes = 6 ∷ 2 ∷ 6 ∷ []; pos = 0; dbid = 0 }

truncated_select : read_entry cut ≡ err truncated
unfolding read_entry read_byte read_packed
truncated_select = refl

-- Consumers that keep what they see.
abbrev notify : List JournalItem → JournalItem → List JournalItem
notify seen item = seen ++ item ∷ []

abbrev start : JournalSlice (List JournalItem)
start = with_capacity (List JournalItem) 2

start-IsValid : IsValid start
start-IsValid = record {
  room = omega arith;
  bounded = omega arith;
  given_out = omega arith;
  consecutive = refl;
}

after-IsValid_journal_example : IsValid (after notify (call_record (b'a' ∷ [])) start)
after-IsValid_journal_example =
    after-IsValid_journal notify (call_record (b'a' ∷ [])) start (omega arith) start-IsValid

abbrev one : JournalSlice (List JournalItem)
one = (record_entry notify start (b'a' ∷ [])).0

one-IsValid : IsValid one
one-IsValid =
    after-IsValid_journal notify (call_record (b'a' ∷ [])) start (omega arith) start-IsValid

get_entry-record_entry_example : get_entry (record_entry notify one (b'b' ∷ [])).0 2 ≡ (
    if (record_entry notify one (b'b' ∷ [])).1 == 2
    then some (b'b' ∷ [])
    else if length one.ring == one.capacity && front one.ring == 2
    then none
    else get_entry one 2)
unfolding record_entry
get_entry-record_entry_example =
    get_entry-record_entry notify one (b'b' ∷ []) 2 (omega arith) one-IsValid
