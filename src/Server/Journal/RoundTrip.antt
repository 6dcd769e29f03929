-- ===== src/Server/Journal/RoundTrip.antt =====
-- src/server/journal.rs: the reader reads what the writer wrote.
use dragonflydb_rs.Common.{
  ℕ, suc, ◌+◌, ◌-◌, ◌^◌, ◌<◌, ◌≡◌, refl, ap, sym, ◌∙◌, ◌⊎◌, inl, inr, arith, false, List, [], ◌∷◌,
  ◌++◌, length, length-append, append_assoc, append-nil, ltb, le→ltb_false,
}
use dragonflydb_rs.Common.Results.{ok}
use dragonflydb_rs.Core.Rdb.{len_bytes, write_len}
use dragonflydb_rs.Server.Journal.{
  Writer, ParsedEntry, op_select, op_command, op_expired, total_of, push, write_packed, write_bytes,
  write_args, write_payload, write_select, write_entry, serialize_record, read_args, read_command,
  read_payload, read_entry,
}
use dragonflydb_rs.Server.Journal.Packed.{here, read_packed-here, read_byte-here, read_exact-here}
use dragonflydb_rs.Server.Journal.Rounds.{read_entry_ends}

abbrev args_bytes : List (List ℕ) → List ℕ
args_bytes [] = []
args_bytes (a ∷ args) = len_bytes (length a) ++ (a ++ args_bytes args)

write_args-out :
    (w : Writer) (args : List (List ℕ)) → (write_args w args).out ≡ w.out ++ args_bytes args
unfolding write_args write_bytes write_packed write_len
write_args-out w [] = sym (append-nil w.out)
write_args-out w (a ∷ args) = write_args-out (write_bytes w a) args ∙ simp append_assoc

-- The arguments, in front of any bytes.
read_args-here :
    (args : List (List ℕ)) (pre rest : List ℕ) (dbid : ℕ)
    → length pre + length (args_bytes args) + 9 < 2 ^ 64
    → read_args (length args) (total_of args) (here pre (args_bytes args ++ rest) dbid)
      ≡ ok (args, here (pre ++ args_bytes args) rest dbid)
unfolding read_args
read_args-here [] pre rest dbid fits = rw (append-nil pre) refl
read_args-here (a ∷ args) pre rest dbid fits =
    let n = len_bytes (length a) in
    let more = args_bytes args in
    let size : length (n ++ (a ++ more)) ≡ length n + (length a + length more) =
      length-append n (a ++ more) ∙ ap (λ k. length n + k) (length-append a more) in
    let enough : ltb (length a + total_of args) (length a) ≡ false =
      le→ltb_false _ _ (omega arith) in
    let left : length a + total_of args - length a ≡ total_of args = omega arith in
    let split : (n ++ (a ++ more)) ++ rest ≡ n ++ (a ++ (more ++ rest)) = simp append_assoc in
    let join : ((pre ++ n) ++ a) ++ more ≡ pre ++ (n ++ (a ++ more)) = simp append_assoc in
    let len1 : length (pre ++ n) ≡ length pre + length n = length-append pre n in
    let len2 : length ((pre ++ n) ++ a) ≡ length pre + length n + length a =
      length-append (pre ++ n) a ∙ ap (λ k. k + length a) len1 in
    rw split (
      rw
        (read_packed-here pre (a ++ (more ++ rest)) dbid (length a) (omega (arith, size))
          (omega (arith, size)))
        (rw enough (
          rw (read_exact-here (pre ++ n) a (more ++ rest) dbid (omega (arith, size, len1))) (
            rw left (
              rw (read_args-here args ((pre ++ n) ++ a) rest dbid (omega (arith, size, len2)))
                (rw join refl))))))

-- What a command carries behind its opcode.
abbrev command_bytes : ℕ → List ℕ → List (List ℕ) → List ℕ
command_bytes txid cmd args =
    len_bytes txid
    ++ (len_bytes 1
        ++ (len_bytes (1 + length args)
            ++ (len_bytes (total_of (cmd ∷ args)) ++ args_bytes (cmd ∷ args))))

abbrev parsed : ℕ → ℕ → ℕ → ℕ → List (List ℕ) → ParsedEntry
parsed op dbid txid lsn cmd = record { opcode = op; dbid = dbid; txid = txid; lsn = lsn; cmd = cmd }

read_command-here :
    (op txid dbid : ℕ) (cmd : List ℕ) (args : List (List ℕ)) (pre rest : List ℕ)
    → txid < 2 ^ 64
    → length args + 1 < 2 ^ 64
    → total_of (cmd ∷ args) < 2 ^ 64
    → length pre + length (command_bytes txid cmd args) + 9 < 2 ^ 64
    → read_command op (here pre (command_bytes txid cmd args ++ rest) dbid)
      ≡ ok (parsed op dbid txid 0 (cmd ∷ args), here (pre ++ command_bytes txid cmd args) rest dbid)
unfolding read_command
read_command-here op txid dbid cmd args pre rest h1 h2 h3 fits =
    let t = len_bytes txid in
    let o = len_bytes 1 in
    let n = len_bytes (1 + length args) in
    let s = len_bytes (total_of (cmd ∷ args)) in
    let a = args_bytes (cmd ∷ args) in
    let size : length (command_bytes txid cmd args)
        ≡ length t + (length o + (length n + (length s + length a))) =
      simp (length-append) in
    let p1 : length (pre ++ t) ≡ length pre + length t = length-append pre t in
    let p2 : length ((pre ++ t) ++ o) ≡ length pre + length t + length o =
      length-append (pre ++ t) o ∙ ap (λ k. k + length o) p1 in
    let p3 : length (((pre ++ t) ++ o) ++ n) ≡ length pre + length t + length o + length n =
      length-append ((pre ++ t) ++ o) n ∙ ap (λ k. k + length n) p2 in
    let p4 : length ((((pre ++ t) ++ o) ++ n) ++ s)
        ≡ length pre + length t + length o + length n + length s =
      length-append (((pre ++ t) ++ o) ++ n) s ∙ ap (λ k. k + length s) p3 in
    let split : command_bytes txid cmd args ++ rest ≡ t ++ (o ++ (n ++ (s ++ (a ++ rest)))) =
      simp append_assoc in
    let join : ((((pre ++ t) ++ o) ++ n) ++ s) ++ a ≡ pre ++ command_bytes txid cmd args =
      simp append_assoc in
    let count : 1 + length args ≡ length (cmd ∷ args) = omega arith in
    let q = (((pre ++ t) ++ o) ++ n) ++ s in
    let args_read : read_args (1 + length args) (total_of (cmd ∷ args)) (here q (a ++ rest) dbid)
        ≡ ok (cmd ∷ args, here (q ++ a) rest dbid) =
      ap (λ k. read_args k (total_of (cmd ∷ args)) (here q (a ++ rest) dbid)) count
      ∙ read_args-here (cmd ∷ args) q rest dbid (omega (arith, size, p4)) in
    rw split (
      rw (read_packed-here pre (o ++ (n ++ (s ++ (a ++ rest)))) dbid txid h1 (omega (arith, size)))
        (rw
          (read_packed-here (pre ++ t) (n ++ (s ++ (a ++ rest))) dbid 1 (omega arith)
            (omega (arith, size, p1)))
          (rw
            (read_packed-here ((pre ++ t) ++ o) (s ++ (a ++ rest)) dbid (1 + length args)
              (omega arith) (omega (arith, size, p2)))
            (rw
              (read_packed-here (((pre ++ t) ++ o) ++ n) (a ++ rest) dbid (total_of (cmd ∷ args)) h3
                (omega (arith, size, p3)))
              (rw args_read (rw join refl))))))

-- The opcodes that carry a command.
abbrev IsCommand : ℕ → Type 0
IsCommand op = (op ≡ op_command) ⊎ (op ≡ op_expired)

record_of_command :
    (txid op dbid lsn : ℕ) (cmd : List ℕ) (args : List (List ℕ))
    → IsCommand op
    → serialize_record txid op dbid lsn cmd args
      ≡ op_select ∷ (len_bytes dbid ++ op ∷ command_bytes txid cmd args)
unfolding serialize_record write_entry write_select write_payload write_packed push write_len
    write_bytes
record_of_command txid op dbid lsn cmd args (inl e) =
    rw e (write_args-out _ args ∙ simp append_assoc)
record_of_command txid op dbid lsn cmd args (inr e) =
    rw e (write_args-out _ args ∙ simp append_assoc)

-- An entry behind its SELECT.
read_entry-here :
    (op : ℕ) (pre rest : List ℕ) (dbid : ℕ)
    → IsCommand op
    → read_entry (here pre (op ∷ rest) dbid) ≡ read_command op (here (pre ++ op ∷ []) rest dbid)
unfolding read_payload
read_entry-here op pre rest dbid (inl e) =
    read_entry_ends (here pre (op ∷ rest) dbid) ∙ rw (read_byte-here pre rest dbid op) (rw e refl)
read_entry-here op pre rest dbid (inr e) =
    read_entry_ends (here pre (op ∷ rest) dbid) ∙ rw (read_byte-here pre rest dbid op) (rw e refl)

read_select_here :
    (pre rest : List ℕ) (dbid old : ℕ)
    → dbid < 2 ^ 64
    → length pre + 10 < 2 ^ 64
    → read_entry (here pre (op_select ∷ (len_bytes dbid ++ rest)) old)
      ≡ read_entry (here ((pre ++ op_select ∷ []) ++ len_bytes dbid) rest dbid)
read_select_here pre rest dbid old small fits =
    read_entry_ends (here pre (op_select ∷ (len_bytes dbid ++ rest)) old)
    ∙ rw (read_byte-here pre (len_bytes dbid ++ rest) old op_select) (
        rw
          (read_packed-here (pre ++ op_select ∷ []) rest old dbid small
            (omega (arith, length-append pre (op_select ∷ []))))
          refl)

-- Whatever stands before and behind it, a COMMAND or EXPIRED record is read back with its database,
-- transaction, name and arguments, and the reader stops behind it, in that database. The numbers, the
-- size of the arguments and the end of the record fit 64 bits.
pub read_entry-serialize_record :
    (txid op dbid lsn : ℕ) (cmd : List ℕ) (args : List (List ℕ)) (pre rest : List ℕ) (old : ℕ)
    → IsCommand op
    → txid < 2 ^ 64
    → dbid < 2 ^ 64
    → length args + 1 < 2 ^ 64
    → total_of (cmd ∷ args) < 2 ^ 64
    → length pre + length (serialize_record txid op dbid lsn cmd args) + 9 < 2 ^ 64
    → let bytes = serialize_record txid op dbid lsn cmd args in
      read_entry (here pre (bytes ++ rest) old)
      ≡ ok (
        record { opcode = op; dbid = dbid; txid = txid; lsn = 0; cmd = cmd ∷ args },
        here (pre ++ bytes) rest dbid,
      )
read_entry-serialize_record txid op dbid lsn cmd args pre rest old is h1 h2 h3 h4 fits =
    let c = command_bytes txid cmd args in
    let d = len_bytes dbid in
    let form = record_of_command txid op dbid lsn cmd args is in
    let size : length (serialize_record txid op dbid lsn cmd args)
        ≡ suc (length d + suc (length c)) =
      ap length form ∙ ap suc (length-append d (op ∷ c)) in
    let p1 : length ((pre ++ op_select ∷ []) ++ d) ≡ length pre + 1 + length d =
      length-append (pre ++ op_select ∷ []) d
      ∙ ap (λ k. k + length d) (length-append pre (op_select ∷ [])) in
    let p2 : length (((pre ++ op_select ∷ []) ++ d) ++ op ∷ []) ≡ length pre + 1 + length d + 1 =
      length-append ((pre ++ op_select ∷ []) ++ d) (op ∷ []) ∙ ap (λ k. k + 1) p1 in
    let split : (op_select ∷ (d ++ op ∷ c)) ++ rest ≡ op_select ∷ (d ++ op ∷ (c ++ rest)) =
      simp append_assoc in
    let join : (((pre ++ op_select ∷ []) ++ d) ++ op ∷ []) ++ c ≡ pre ++ op_select ∷ (d ++ op ∷ c) =
      simp append_assoc in
    rw form (
      rw split (
        read_select_here pre (op ∷ (c ++ rest)) dbid old h2 (omega (arith, size))
        ∙ read_entry-here op ((pre ++ op_select ∷ []) ++ d) (c ++ rest) dbid is
        ∙ read_command-here op txid dbid cmd args (((pre ++ op_select ∷ []) ++ d) ++ op ∷ []) rest
            h1 h3 h4 (omega (arith, size, p2))
        ∙ rw join refl))
