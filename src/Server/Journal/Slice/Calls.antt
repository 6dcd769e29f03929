-- ===== src/Server/Journal/Slice/Calls.antt =====
-- src/server/journal.rs: the ring after a record, and after any method.
use dragonflydb_rs.Common.{
  ℕ, suc, ◌+◌, ◌-◌, ◌^◌, ◌<◌, ◌≡◌, refl, ◌∙◌, inl, inr, arith, false, ◌&&◌, List, [], ◌∷◌, ◌++◌,
  none, some, length, ◌==◌, if◌then◌else◌, Bool-cases,
}
use dragonflydb_rs.Server.Journal.Slice.{
  JournalItem, JournalSlice, front, get_entry, clear_buffer, start_at_lsn, record_entry,
  register_consumer, unregister_consumer,
}
use dragonflydb_rs.Server.Journal.Slice.Ring.{
  find, IsValid, Runs, kept, head_run, find_before, find_behind, find-append, find-append_found,
  kept_lem, record_entry-IsValid, get_entry-find,
}

find-kept :
    (capacity : ℕ) (ring : List JournalItem) (s l : ℕ)
    → 0 < capacity
    → Runs ring s
    → find l (kept capacity ring)
      ≡ (if length ring == capacity && front ring == l then none else find l ring)
find-kept capacity [] s l room run = let e : (0 == capacity) ≡ false = ground arith in rw e refl
find-kept capacity (x ∷ ring) s l room run = elim (Bool-cases (suc (length ring) == capacity)) [
  | inl full ↦
      let (first, rest) = head_run x ring s run in
      elim (Bool-cases (x.lsn == l)) [
        | inl oldest ↦ rw (full, oldest) (find_before ring (suc s) l rest (ground arith))
        | inr other ↦ rw (full, other) refl
      ]
  | inr space ↦ rw space refl
]

-- After record, get_entry gives the new bytes for the number that record returned, nothing for the
-- number of the oldest record where the ring was full, and for every other number what it gave before.
-- The journal is valid and its counter does not wrap.
pub get_entry-record_entry :
    {C : Type 0} (notify : C → JournalItem → C) (j : JournalSlice C) (bytes : List ℕ) (lsn : ℕ)
    → j.lsn + 1 < 2 ^ 64
    → IsValid j
    → get_entry (record_entry notify j bytes).0 lsn ≡ (
        if (record_entry notify j bytes).1 == lsn
        then some bytes
        else if length j.ring == j.capacity && front j.ring == lsn
        then none
        else get_entry j lsn)
get_entry-record_entry notify j bytes lsn fits v =
    let item : JournalItem = record { lsn = j.lsn; bytes = bytes } in
    let k = kept j.capacity j.ring in
    let (small, given, run) =
      kept_lem j.capacity j.ring j.lsn v.room v.bounded v.given_out v.consecutive in
    let after = record_entry-IsValid notify j bytes fits v in
    let old = find-kept j.capacity j.ring (j.lsn - length j.ring) lsn v.room v.consecutive in
    let found : find lsn (k ++ item ∷ []) ≡ (
        if j.lsn == lsn
        then some bytes
        else if length j.ring == j.capacity && front j.ring == lsn
        then none
        else find lsn j.ring) =
      elim (Bool-cases (j.lsn == lsn)) [
        | inl this ↦ rw this (
            find-append lsn k item (find_behind k (j.lsn - length k) lsn run (ground arith))
            ∙ rw this refl)
        | inr other ↦ rw other (find-append_found lsn k item other ∙ old)
      ] in
    get_entry-find _ lsn after ∙ unfold record_entry in rw (get_entry-find j lsn v) found

-- The methods that change a journal.
pub data Call (C : Type 0) : Type 0 where
  call_record : List ℕ → Call C
  call_clear_buffer : Call C
  call_start_at_lsn : ℕ → Call C
  call_register_consumer : C → Call C
  call_unregister_consumer : ℕ → Call C

abbrev pub after : {C : Type 0} → (C → JournalItem → C) → Call C → JournalSlice C → JournalSlice C
after notify (call_record bytes) j = (record_entry notify j bytes).0
after notify call_clear_buffer j = clear_buffer j
after notify (call_start_at_lsn lsn) j = start_at_lsn j lsn
after notify (call_register_consumer c) j = (register_consumer j c).0
after notify (call_unregister_consumer id) j = unregister_consumer j id

emptied-IsValid :
    {C : Type 0} (j : JournalSlice C) (lsn : ℕ)
    → 0 < j.capacity
    → IsValid (record j { ring = []; lsn = lsn })
emptied-IsValid j lsn room = record {
  room = room;
  bounded = omega arith;
  given_out = omega arith;
  consecutive = refl;
}

-- Every method keeps the journal valid: the ring holds at most its capacity, and its records carry the
-- last numbers given out, in order without a gap. The counter does not wrap.
pub after-IsValid_journal :
    {C : Type 0} (notify : C → JournalItem → C) (call : Call C) (j : JournalSlice C)
    → j.lsn + 1 < 2 ^ 64
    → IsValid j
    → IsValid (after notify call j)
unfolding clear_buffer start_at_lsn register_consumer unregister_consumer
after-IsValid_journal notify (call_record bytes) j fits v =
    record_entry-IsValid notify j bytes fits v
after-IsValid_journal notify call_clear_buffer j fits v = emptied-IsValid j _ v.room
after-IsValid_journal notify (call_start_at_lsn lsn) j fits v = emptied-IsValid j lsn v.room
after-IsValid_journal notify (call_register_consumer c) j fits v = record {
  room = v.room;
  bounded = v.bounded;
  given_out = v.given_out;
  consecutive = v.consecutive;
}
after-IsValid_journal notify (call_unregister_consumer id) j fits v = record {
  room = v.room;
  bounded = v.bounded;
  given_out = v.given_out;
  consecutive = v.consecutive;
}
