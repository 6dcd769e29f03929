-- ===== src/Server/Journal/Packed.antt =====
-- src/server/journal.rs: `read_packed` agrees with `read_len` of src/core/rdb.rs on plain lengths.
use dragonflydb_rs.Common.{
  ℕ, ◌+◌, ◌^◌, ◌<◌, ◌/◌, ◌≡◌, refl, ap, ◌∙◌, arith, false, List, [], ◌∷◌, ◌++◌, some, length,
  length-append, append_assoc, lt→ltb, ◌==◌, get_elem?, get_elem?_front, slice, slice_middle,
  Option-cases, Bool-cases, inl, inr,
}
use dragonflydb_rs.Common.Results.{ok}
use dragonflydb_rs.Core.Rdb
use dragonflydb_rs.Core.Rdb.{len_bytes}
use dragonflydb_rs.Core.Rdb.Lengths.{at, read_len-len_bytes}
use dragonflydb_rs.Server.Journal.{Reader, read_byte, read_exact, read_packed_from, read_packed}

-- The reader of the journal that stands where a reader of the RDB format does.
abbrev pub journal : Rdb.Reader → ℕ → Reader
journal r dbid = record { bytes = r.buf; pos = r.position; dbid = dbid }

module _ (r r' : Rdb.Reader) (dbid : ℕ) where
  byte_agrees :
      (b : ℕ) → Rdb.read_u8 r ≡ some (b, r') → read_byte (journal r dbid) ≡ ok (b, journal r' dbid)
  unfolding Rdb.read_u8 read_byte
  byte_agrees b h = elim (Option-cases (get_elem? r.buf r.position)) [
    | inl out ↦ ground arith
    | inr (c, found) ↦ rw found (ground arith)
  ]

  exact_agrees :
      (n : ℕ) (s : List ℕ)
      → r.position + n < 2 ^ 64
      → Rdb.read_exact r n ≡ some (s, r')
      → read_exact (journal r dbid) n ≡ ok (s, journal r' dbid)
  unfolding Rdb.read_exact read_exact
  exact_agrees n s fits h = elim (Option-cases (slice r.buf r.position n)) [
    | inl out ↦ ground arith
    | inr (c, found) ↦ rw (lt→ltb _ _ fits) (rw found (ground arith))
  ]

module _ (r r' : Rdb.Reader) (dbid v : ℕ) (fits : r.position + 8 < 2 ^ 64) where
  packed_from_agrees :
      (b : ℕ)
      → Rdb.read_len_from b r ≡ some ((v, false), r')
      → read_packed_from b (journal r dbid) ≡ ok (v, journal r' dbid)
  unfolding Rdb.read_len_from read_packed_from
  packed_from_agrees b h = elim (Bool-cases (b / 2 ^ 6 == 1)) [
    | inl two ↦ elim (Option-cases (Rdb.read_u8 r)) [
      | inl out ↦ ground arith
      | inr ((lo, r1), found) ↦ ground (arith, byte_agrees r r1 dbid lo found)
    ]
    | inr other ↦ elim (Bool-cases (b == 0x80)) [
      | inl four ↦ elim (Option-cases (Rdb.read_exact r 4)) [
        | inl out ↦ ground arith
        | inr ((s, r1), found) ↦ ground (arith, exact_agrees r r1 dbid 4 s (omega arith) found)
      ]
      | inr no_four ↦ elim (Option-cases (Rdb.read_exact r 8)) [
        | inl out ↦ ground arith
        | inr ((s, r1), found) ↦ ground (arith, exact_agrees r r1 dbid 8 s fits found)
      ]
    ]
  ]

-- Where `read_len` of the RDB format reads a plain length, `read_packed` reads the same number and
-- stops at the same place, while positions fit the machine word.
pub read_packed-read_len :
    (r r' : Rdb.Reader) (dbid v : ℕ)
    → r.position + 9 < 2 ^ 64
    → Rdb.read_len r ≡ some ((v, false), r')
    → read_packed (journal r dbid) ≡ ok (v, journal r' dbid)
unfolding Rdb.read_len Rdb.read_u8 read_packed read_byte
read_packed-read_len r r' dbid v fits h = elim (Option-cases (get_elem? r.buf r.position)) [
  | inl out ↦ ground arith
  | inr (b, found) ↦
      let r1 : Rdb.Reader = record r { position = r.position + 1 } in
      rw found (packed_from_agrees r1 r' dbid v (omega arith) b (rw found at h))
]

-- A reader behind `pre` in front of `rest`.
abbrev pub here : List ℕ → List ℕ → ℕ → Reader
here pre rest dbid = record { bytes = pre ++ rest; pos = length pre; dbid = dbid }

-- Reading moves bytes from the rest to what has been read.
pub moved :
    (pre s rest : List ℕ) (dbid n : ℕ)
    → length s ≡ n
    → ◌≡◌ {A = Reader}
        (record { bytes = pre ++ (s ++ rest); pos = length pre + n; dbid = dbid })
        (here (pre ++ s) rest dbid)
moved pre s rest dbid n h = rw (← h) (rw (append_assoc pre s rest, length-append pre s) refl)

pub read_packed-here :
    (pre rest : List ℕ) (dbid v : ℕ)
    → v < 2 ^ 64
    → length pre + 9 < 2 ^ 64
    → read_packed (here pre (len_bytes v ++ rest) dbid)
      ≡ ok (v, here (pre ++ len_bytes v) rest dbid)
read_packed-here pre rest dbid v small fits =
    let start : length pre + 0 ≡ length pre = omega arith in
    let plain = read_len-len_bytes pre rest v small in
    let read =
      read_packed-read_len (at pre (len_bytes v ++ rest) 0)
        (at pre (len_bytes v ++ rest) (length (len_bytes v))) dbid v (omega arith) plain in
    let same : here pre (len_bytes v ++ rest) dbid ≡ journal (at pre (len_bytes v ++ rest) 0) dbid =
      rw start refl in
    ap read_packed same ∙ read ∙ ap (λ r. ok (v, r)) (moved pre (len_bytes v) rest dbid _ refl)

pub read_byte-here :
    (pre rest : List ℕ) (dbid b : ℕ)
    → read_byte (here pre (b ∷ rest) dbid) ≡ ok (b, here (pre ++ b ∷ []) rest dbid)
unfolding read_byte
read_byte-here pre rest dbid b =
    rw (get_elem?_front pre rest b) (ap (λ r. ok (b, r)) (moved pre (b ∷ []) rest dbid 1 refl))

pub read_exact-here :
    (pre s rest : List ℕ) (dbid : ℕ)
    → length pre + length s < 2 ^ 64
    → read_exact (here pre (s ++ rest) dbid) (length s) ≡ ok (s, here (pre ++ s) rest dbid)
unfolding read_exact
read_exact-here pre s rest dbid fits =
    rw (lt→ltb _ _ fits, slice_middle pre s rest)
      (ap (λ r. ok (s, r)) (moved pre s rest dbid _ refl))
