-- ===== src/Server/Journal.antt =====
-- src/server/journal.rs: records of the replication journal and their reader. A record is its bytes;
-- the child modules have the ring of a shard.
pub mod Slice
pub mod Packed
pub mod RoundTrip
pub mod Rounds
mod Tests
use dragonflydb_rs.Common.{
  ℕ, zero, suc, ◌+◌, ◌-◌, ◌*◌, ◌/◌, ◌^◌, Bool, not, ◌&&◌, ◌||◌, bit_and, bit_or, List, [], ◌∷◌,
  ◌++◌, Option, none, some, length, get_elem?, take, drop, slice, sum, map, ltb, ◌==◌,
  if◌then◌else◌,
}
use dragonflydb_rs.Common.Le.{from_be}
use dragonflydb_rs.Common.Results.{Result, ok, err, ◌>>=◌}
use dragonflydb_rs.Core.Rdb.{write_len}

abbrev pub op_select : ℕ
op_select = 6

abbrev pub op_expired : ℕ
op_expired = 9

abbrev pub op_command : ℕ
op_command = 10

abbrev pub op_ping : ℕ
op_ping = 13

abbrev pub op_lsn : ℕ
op_lsn = 15

pub record Writer : Type 0 where
  pub out : List ℕ
  pub cur_dbid : Option ℕ

unfoldable pub write_packed : Writer → ℕ → Writer
write_packed w v = record w { out = write_len w.out v }

unfoldable pub push : Writer → ℕ → Writer
push w b = record w { out = w.out ++ b ∷ [] }

unfoldable pub write_bytes : Writer → List ℕ → Writer
unfolding write_packed
write_bytes w s = let w1 = write_packed w (length s) in record w1 { out = w1.out ++ s }

-- `for arg in args { self.write_bytes(arg) }`
unfoldable pub write_args : Writer → List (List ℕ) → Writer
write_args w [] = w
write_args w (arg ∷ args) = write_args (write_bytes w arg) args

-- The bytes of all arguments.
abbrev pub total_of : List (List ℕ) → ℕ
total_of [] = 0
total_of (arg ∷ args) = length arg + total_of args

unfoldable pub write_payload : Writer → List ℕ → List (List ℕ) → Writer
unfolding write_packed write_bytes write_args
write_payload w cmd args =
    let w1 = write_packed w (1 + length args) in
    let w2 = write_packed w1 (length cmd + total_of args) in write_args (write_bytes w2 cmd) args

-- `self.cur_dbid != Some(dbid)`
abbrev pub other_db : Option ℕ → ℕ → Bool
other_db none dbid = Bool.true
other_db (some d) dbid = not (d == dbid)

-- The SELECT in front of an entry of another database.
unfoldable pub write_select : Writer → ℕ → ℕ → Writer
unfolding push write_packed
write_select w op dbid =
    if not (op == op_select)
      && not (op == op_lsn)
      && not (op == op_ping)
      && other_db w.cur_dbid dbid
    then record (write_packed (push w op_select) dbid) { cur_dbid = some dbid }
    else w

unfoldable pub write_entry : Writer → ℕ → ℕ → ℕ → ℕ → List ℕ → List (List ℕ) → Writer
unfolding write_select write_payload push write_packed
write_entry w txid op dbid lsn cmd args =
    let w1 = push (write_select w op dbid) op in
    if op == op_select
    then write_packed w1 dbid
    else if op == op_lsn
    then write_packed w1 lsn
    else if op == op_command || op == op_expired
    then write_payload (write_packed (write_packed w1 txid) 1) cmd args
    else w1

unfoldable pub serialize_record : ℕ → ℕ → ℕ → ℕ → List ℕ → List (List ℕ) → List ℕ
unfolding write_entry
serialize_record txid op dbid lsn cmd args =
    (write_entry (record { out = []; cur_dbid = none }) txid op dbid lsn cmd args).out

pub record ParsedEntry : Type 0 where
  pub opcode : ℕ
  pub dbid : ℕ
  pub txid : ℕ
  pub lsn : ℕ
  pub cmd : List (List ℕ)

pub data JournalError : Type 0 where
  corrupt : JournalError
  truncated : JournalError

pub record Reader : Type 0 where
  pub bytes : List ℕ
  pub pos : ℕ
  pub dbid : ℕ

abbrev pub Read : Type 0 → Type 0
Read A = Result JournalError (A × Reader)

-- `opt.ok_or(JournalError::Truncated)`, and the reader moved on by `n`.
abbrev pub or_truncated : {A : Type 0} → Reader → ℕ → Option A → Read A
or_truncated r n none = err truncated
or_truncated r n (some a) = ok (a, record r { pos = r.pos + n })

unfoldable pub read_byte : Reader → Read ℕ
read_byte r = or_truncated r 1 (get_elem? r.bytes r.pos)

unfoldable pub read_exact : Reader → ℕ → Read (List ℕ)
read_exact r n =
    if ltb (r.pos + n) (2 ^ 64) then or_truncated r n (slice r.bytes r.pos n) else err corrupt

-- The `match` on the first byte.
unfoldable pub read_packed_from : ℕ → Reader → Read ℕ
unfolding read_byte read_exact
read_packed_from b r =
    if b / 2 ^ 6 == 0
    then ok (bit_and b 0x3f, r)
    else if b / 2 ^ 6 == 1
    then (do (lo, r') ← read_byte r; ok (bit_or (bit_and b 0x3f * 2 ^ 8) lo, r'))
    else if b / 2 ^ 6 == 2
    then (if b == 0x80
        then (do (s, r') ← read_exact r 4; ok (from_be s, r'))
        else if b == 0x81
        then (do (s, r') ← read_exact r 8; ok (from_be s, r'))
        else err corrupt)
    else err corrupt

unfoldable pub read_packed : Reader → Read ℕ
unfolding read_packed_from
read_packed r = do (b, r') ← read_byte r; read_packed_from b r'

-- `for _ in 0..num`, with what is left of the total.
unfoldable pub read_args : ℕ → ℕ → Reader → Read (List (List ℕ))
unfolding read_packed
read_args zero total r = ok ([], r)
read_args (suc num) total r = do
  (size, r1) ← read_packed r
  if ltb total size then err corrupt else (do
    (s, r2) ← read_exact r1 size
    (rest, r3) ← read_args num (total - size) r2
    ok (s ∷ rest, r3))

unfoldable pub read_command : ℕ → Reader → Read ParsedEntry
unfolding read_args
read_command op r = do
  (txid, r1) ← read_packed r
  (_, r2) ← read_packed r1
  (num, r3) ← read_packed r2
  (total, r4) ← read_packed r3
  (cmd, r5) ← read_args num total r4
  ok (record { opcode = op; dbid = r.dbid; txid = txid; lsn = 0; cmd = cmd }, r5)

-- An entry behind its opcode, other than SELECT.
unfoldable pub read_payload : ℕ → Reader → Read ParsedEntry
unfolding read_command
read_payload op r =
    if op == op_ping
    then ok (record { opcode = op; dbid = r.dbid; txid = 0; lsn = 0; cmd = [] }, r)
    else if op == op_lsn
    then (do
      (lsn, r1) ← read_packed r
      ok (record { opcode = op; dbid = r.dbid; txid = 0; lsn = lsn; cmd = [] }, r1))
    else if op == op_command || op == op_expired
    then read_command op r
    else err corrupt

-- One round of `read_entry`, with its call of itself behind a SELECT.
abbrev pub entry_step : (Reader → Read ParsedEntry) → Reader → Read ParsedEntry
entry_step again r = do
  (op, r1) ← read_byte r
  if op == op_select
      then (do (dbid, r2) ← read_packed r1; again (record r2 { dbid = dbid }))
      else read_payload op r1

-- Each round takes a byte; at the end of the bytes the next one is missing.
unfoldable pub read_entry_on : ℕ → Reader → Read ParsedEntry
read_entry_on zero r = err truncated
read_entry_on (suc fuel) r = entry_step (λ r'. read_entry_on fuel r') r

unfoldable pub read_entry : Reader → Read ParsedEntry
unfolding read_entry_on
read_entry r = read_entry_on (length r.bytes - r.pos) r
