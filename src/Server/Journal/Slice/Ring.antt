-- ===== src/Server/Journal/Slice/Ring.antt =====
-- src/server/journal.rs: what the ring holds.
use dragonflydb_rs.Common.{
  ℕ, suc, ◌+◌, ◌-◌, ◌%◌, ◌^◌, ◌≤◌, ◌<◌, ◌≡◌, refl, ap, sym, ◌∙◌, inl, inr, arith, false, List, [],
  ◌∷◌, ◌++◌, Option, none, some, length, length-append, get_elem?, drop, numbers, numbers_snoc, leb,
  ◌==◌, if◌then◌else◌, Bool-cases,
}
use dragonflydb_rs.Server.Journal.Slice.{
  JournalItem, JournalSlice, bytes_of, front, back, in_ring, is_lsn_in_buffer, get_entry,
  record_entry,
}

abbrev pub lsns : List JournalItem → List ℕ
lsns [] = []
lsns (item ∷ ring) = item.lsn ∷ lsns ring

-- The bytes of the record with a number, by a search.
abbrev pub find : ℕ → List JournalItem → Option (List ℕ)
find lsn [] = none
find lsn (item ∷ ring) = if item.lsn == lsn then some item.bytes else find lsn ring

-- The ring holds at most its capacity, and the last numbers given out, in order.
pub record IsValid {C : Type 0} (j : JournalSlice C) : Type 0 where
  pub room : 0 < j.capacity
  pub bounded : length j.ring ≤ j.capacity
  pub given_out : length j.ring ≤ j.lsn
  pub consecutive : lsns j.ring ≡ numbers (j.lsn - length j.ring) (length j.ring)

abbrev pub Runs : List JournalItem → ℕ → Type 0
Runs ring s = lsns ring ≡ numbers s (length ring)

pub head_run :
    (x : JournalItem) (ring : List JournalItem) (s : ℕ)
    → Runs (x ∷ ring) s
    → (x.lsn ≡ s) × Runs ring (suc s)
head_run x ring s h = (ap (λ xs. head_or s xs) h, ap (drop 1) h)
  where
    head_or : ℕ → List ℕ → ℕ
    head_or d [] = d
    head_or d (y ∷ ys) = y

pub find_before : (ring : List JournalItem) (s l : ℕ) → Runs ring s → l < s → find l ring ≡ none
find_before [] s l h before = refl
find_before (x ∷ ring) s l h before =
    let (first, rest) = head_run x ring s h in
    ground (arith, find_before ring (suc s) l rest (omega arith))

find_from :
    (ring : List JournalItem) (s l : ℕ)
    → Runs ring s
    → s ≤ l
    → find l ring ≡ bytes_of (get_elem? ring (l - s))
find_from [] s l h le = refl
find_from (x ∷ ring) s l h le = elim (Bool-cases (s == l)) [
  | inl this ↦
      let (first, rest) = head_run x ring s h in
      let e : l - s ≡ 0 = ground arith in rw e (rw first (rw this refl))
  | inr later ↦
      let (first, rest) = head_run x ring s h in
      let e : l - s ≡ suc (l - suc s) = ground arith in
      rw e (rw first (rw later (find_from ring (suc s) l rest (ground arith))))
]

pub find_behind :
    (ring : List JournalItem) (s l : ℕ) → Runs ring s → s + length ring ≤ l → find l ring ≡ none
find_behind [] s l h le = refl
find_behind (x ∷ ring) s l h le =
    let (first, rest) = head_run x ring s h in
    ground (arith, find_behind ring (suc s) l rest (omega arith))

back_run :
    (x : JournalItem) (ring : List JournalItem) (s : ℕ)
    → Runs (x ∷ ring) s
    → back (x ∷ ring) ≡ s + length ring
back_run x [] s h = (head_run x [] s h).0 ∙ omega arith
back_run x (y ∷ ring) s h = back_run y ring (suc s) (head_run x (y ∷ ring) s h).1 ∙ omega arith

-- Looking a number up in a valid ring is searching for it.
find_lem :
    (ring : List JournalItem) (s l : ℕ)
    → Runs ring s
    → (if in_ring ring l then bytes_of (get_elem? ring (l - front ring)) else none) ≡ find l ring
unfolding in_ring
find_lem [] s l h = refl
find_lem (x ∷ []) s l h = elim (Bool-cases (x.lsn == l)) [
  | inl this ↦ let e : l - x.lsn ≡ 0 = ground arith in rw e (rw this refl)
  | inr other ↦ rw other refl
]
find_lem (x ∷ y ∷ ring) s l h =
    let zs = x ∷ y ∷ ring in
    let first : x.lsn ≡ s = (head_run x (y ∷ ring) s h).0 in
    let last : back zs ≡ s + suc (length ring) = back_run x (y ∷ ring) s h in
    let two : (length zs == 0) ≡ false = ground arith in
    let more : (length zs == 1) ≡ false = ground arith in
    elim (Bool-cases (leb (front zs) l)) [
      | inl from ↦ elim (Bool-cases (leb l (back zs))) [
        | inl upto ↦
            rw (two, more)
              (rw (from, upto)
                (ap (λ k. bytes_of (get_elem? zs (l - k))) first
                  ∙ sym (find_from zs s l h (ground arith))))
        | inr past ↦ rw (two, more) (rw (from, past) (sym (find_behind zs s l h (ground arith))))
      ]
      | inr before ↦ rw (two, more) (rw before (sym (find_before zs s l h (ground arith))))
    ]

-- In a valid journal, get_entry finds exactly the record with that number in the ring, as a search
-- through all records does.
pub get_entry-find :
    {C : Type 0} (j : JournalSlice C) (lsn : ℕ) → IsValid j → get_entry j lsn ≡ find lsn j.ring
unfolding get_entry is_lsn_in_buffer
get_entry-find j lsn v = find_lem j.ring (j.lsn - length j.ring) lsn v.consecutive

pub find-append :
    (l : ℕ) (ring : List JournalItem) (item : JournalItem)
    → find l ring ≡ none
    → find l (ring ++ item ∷ []) ≡ (if item.lsn == l then some item.bytes else none)
find-append l [] item h = refl
find-append l (x ∷ ring) item h = ground (arith, find-append l ring item)

pub find-append_found :
    (l : ℕ) (ring : List JournalItem) (item : JournalItem)
    → (item.lsn == l) ≡ false
    → find l (ring ++ item ∷ []) ≡ find l ring
find-append_found l [] item h = rw h refl
find-append_found l (x ∷ ring) item h =
    ap (λ r. if x.lsn == l then some x.bytes else r) (find-append_found l ring item h)

lsns-append : (xs ys : List JournalItem) → lsns (xs ++ ys) ≡ lsns xs ++ lsns ys
lsns-append [] ys = refl
lsns-append (x ∷ xs) ys = ap (◌∷◌ x.lsn) (lsns-append xs ys)

-- An item behind a run continues it.
Runs-snoc :
    (ring : List JournalItem) (s : ℕ) (item : JournalItem)
    → Runs ring s
    → item.lsn ≡ s + length ring
    → Runs (ring ++ item ∷ []) s
Runs-snoc ring s item h e =
    let size : length (ring ++ item ∷ []) ≡ suc (length ring) =
      length-append ring (item ∷ []) ∙ omega arith in
    lsns-append ring (item ∷ [])
    ∙ ap (λ xs. xs ++ item.lsn ∷ []) h
    ∙ ap (λ k. numbers s (length ring) ++ k ∷ []) e
    ∙ numbers_snoc s (length ring)
    ∙ ap (numbers s) (sym size)

-- The ring before an item goes in: without its oldest record where it is full.
abbrev pub kept : ℕ → List JournalItem → List JournalItem
kept capacity ring = if length ring == capacity then drop 1 ring else ring

pub kept_lem :
    (capacity : ℕ) (ring : List JournalItem) (next : ℕ)
    → 0 < capacity
    → length ring ≤ capacity
    → length ring ≤ next
    → Runs ring (next - length ring)
    → (length (kept capacity ring) < capacity)
      × (length (kept capacity ring) ≤ next)
      × Runs (kept capacity ring) (next - length (kept capacity ring))
kept_lem capacity [] next room bounded given run =
    let e : (0 == capacity) ≡ false = ground arith in rw e (room, omega arith, refl)
kept_lem capacity (x ∷ ring) next room bounded given run =
    elim (Bool-cases (suc (length ring) == capacity)) [
      | inl full ↦
          let start : suc (next - suc (length ring)) ≡ next - length ring = omega arith in
          rw full (
            ground arith,
            omega arith,
            rw start at (head_run x ring (next - suc (length ring)) run).1,
          )
      | inr space ↦ rw space (ground arith, given, run)
    ]

-- record keeps the journal valid, as long as the counter does not wrap.
pub record_entry-IsValid :
    {C : Type 0} (notify : C → JournalItem → C) (j : JournalSlice C) (bytes : List ℕ)
    → j.lsn + 1 < 2 ^ 64
    → IsValid j
    → IsValid (record_entry notify j bytes).0
unfolding record_entry
record_entry-IsValid notify j bytes fits v =
    let item : JournalItem = record { lsn = j.lsn; bytes = bytes } in
    let (small, given, run) =
      kept_lem j.capacity j.ring j.lsn v.room v.bounded v.given_out v.consecutive in
    let k = kept j.capacity j.ring in
    let next : (j.lsn + 1) % 2 ^ 64 ≡ j.lsn + 1 = omega arith in
    let size : length (k ++ item ∷ []) ≡ suc (length k) =
      length-append k (item ∷ []) ∙ omega arith in
    let start : j.lsn - length k ≡ j.lsn + 1 - length (k ++ item ∷ []) =
      omega (arith, size, given) in
    record {
      room = v.room;
      bounded = omega (arith, size, small);
      given_out = omega (arith, size, given, next);
      consecutive =
          rw next (rw (← start) (Runs-snoc k (j.lsn - length k) item run (omega (arith, given))));
    }
