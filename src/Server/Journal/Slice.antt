-- ===== src/Server/Journal/Slice.antt =====
-- src/server/journal.rs: the ring of a shard's last records. The callbacks are the caller's: a consumer
-- is its state `C`, which `notify` changes at each record. Counters are `u64` and wrap.
pub mod Ring
pub mod Calls
use dragonflydb_rs.Common.{
  ℕ, zero, suc, ◌+◌, ◌-◌, ◌%◌, ◌^◌, Bool, true, false, not, ◌&&◌, List, [], ◌∷◌, ◌++◌, Option, none,
  some, length, get_elem?, drop, leb, last?, ◌==◌, if◌then◌else◌,
}

pub record JournalItem : Type 0 where
  pub lsn : ℕ
  pub bytes : List ℕ

module _ (C : Type 0) where
  pub record JournalSlice : Type 0 where
    pub lsn : ℕ
    pub ring : List JournalItem
    pub capacity : ℕ
    pub consumers : List (ℕ × C)
    pub next_consumer_id : ℕ

  abbrev pub with_capacity : ℕ → JournalSlice
  with_capacity capacity = record {
    lsn = 1;
    ring = [];
    capacity = capacity;
    consumers = [];
    next_consumer_id = 0;
  }

-- `front` and `back`, which the code unwraps on a ring that is not empty.
abbrev pub lsn_or_zero : Option JournalItem → ℕ
lsn_or_zero none = 0
lsn_or_zero (some item) = item.lsn

abbrev pub front : List JournalItem → ℕ
front ring = lsn_or_zero (get_elem? ring 0)

abbrev pub back : List JournalItem → ℕ
back ring = lsn_or_zero (last? ring)

abbrev pub bytes_of : Option JournalItem → Option (List ℕ)
bytes_of none = none
bytes_of (some item) = some item.bytes

unfoldable pub in_ring : List JournalItem → ℕ → Bool
in_ring ring lsn =
    if length ring == 0
    then false
    else if length ring == 1
    then front ring == lsn
    else leb (front ring) lsn && leb lsn (back ring)

-- `for (_, cb) in &mut self.consumers { cb(&item) }`
abbrev pub notify_all :
    {C : Type 0} → (C → JournalItem → C) → JournalItem → List (ℕ × C) → List (ℕ × C)
notify_all notify item [] = []
notify_all notify item ((id, c) ∷ cs) = (id, notify c item) ∷ notify_all notify item cs

-- `retain(|(i, _)| *i != id)`
abbrev pub without : {C : Type 0} → ℕ → List (ℕ × C) → List (ℕ × C)
without id [] = []
without id ((i, c) ∷ cs) = if i == id then without id cs else (i, c) ∷ without id cs

-- The ring after an item: at capacity the oldest is dropped.
abbrev pub pushed : ℕ → List JournalItem → JournalItem → List JournalItem
pushed capacity ring item = (if length ring == capacity then drop 1 ring else ring) ++ item ∷ []

module _ {C : Type 0} where
  unfoldable pub is_lsn_in_buffer : JournalSlice C → ℕ → Bool
  unfolding in_ring
  is_lsn_in_buffer j lsn = in_ring j.ring lsn

  unfoldable pub get_entry : JournalSlice C → ℕ → Option (List ℕ)
  unfolding is_lsn_in_buffer
  get_entry j lsn =
      if is_lsn_in_buffer j lsn then bytes_of (get_elem? j.ring (lsn - front j.ring)) else none

  unfoldable pub clear_buffer : JournalSlice C → JournalSlice C
  clear_buffer j = record j { ring = []; lsn = (j.lsn + 1) % 2 ^ 64 }

  unfoldable pub start_at_lsn : JournalSlice C → ℕ → JournalSlice C
  start_at_lsn j lsn = record j { ring = []; lsn = lsn }

  unfoldable pub register_consumer : JournalSlice C → C → JournalSlice C × ℕ
  register_consumer j c = (
    record j {
      next_consumer_id = (j.next_consumer_id + 1) % 2 ^ 64;
      consumers = j.consumers ++ (j.next_consumer_id, c) ∷ [];
    },
    j.next_consumer_id,
  )

  unfoldable pub unregister_consumer : JournalSlice C → ℕ → JournalSlice C
  unregister_consumer j id = record j { consumers = without id j.consumers }

  unfoldable pub record_entry : (C → JournalItem → C) → JournalSlice C → List ℕ → JournalSlice C × ℕ
  record_entry notify j bytes =
      let item : JournalItem = record { lsn = j.lsn; bytes = bytes } in
      (
        record j {
          lsn = (j.lsn + 1) % 2 ^ 64;
          consumers = notify_all notify item j.consumers;
          ring = pushed j.capacity j.ring item;
        },
        j.lsn,
      )
