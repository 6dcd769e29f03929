-- ===== src/Core/Intset/Blob/Records.antt =====
-- src/core/intset.rs: the records of a blob are read back.
use dragonflydb_rs.Common.{
  ℕ, suc, ◌+◌, ◌*◌, ◌^◌, ◌≤◌, ◌<◌, ◌≡◌, ◌⊎◌, refl, ap, sym, ◌∙◌, arith, List, [], ◌∷◌, ◌++◌, length,
  length-append, append_assoc, take, drop, take_front, drop-append, All, inl, inr,
}
use dragonflydb_rs.Common.Int.{ℤ, IsI64, to_signed, to_unsigned}
use dragonflydb_rs.Common.Le.{from_le, length-le_bytes, from_le-le_bytes}
use dragonflydb_rs.Core.Intset.Blob.{
  value_encoding, signed_record, read_value, read_all, record_bytes, records,
}

-- The widths of records.
abbrev pub IsWidth : ℕ → Type 0
IsWidth enc = (enc ≡ 2) ⊎ (enc ≡ 4) ⊎ (enc ≡ 8)

-- A value that a record of the width holds.
abbrev pub Holds : ℕ → ℤ → Type 0
Holds enc v = IsI64 v × (value_encoding v ≤ enc)

pub length-record_bytes : (enc : ℕ) (v : ℤ) → IsWidth enc → length (record_bytes enc v) ≡ enc
unfolding record_bytes
length-record_bytes enc v (inl e) = rw e (length-le_bytes 2 (to_unsigned (2 ^ 16) v))
length-record_bytes enc v (inr (inl e)) = rw e (length-le_bytes 4 (to_unsigned (2 ^ 32) v))
length-record_bytes enc v (inr (inr e)) = rw e (length-le_bytes 8 (to_unsigned (2 ^ 64) v))

-- A record gives the value back.
pub record_round :
    (enc : ℕ) (v : ℤ)
    → IsWidth enc
    → Holds enc v
    → signed_record enc (from_le (record_bytes enc v)) ≡ v
unfolding record_bytes signed_record value_encoding
record_round enc v (inl e) (range, small) =
    let fits : to_unsigned (2 ^ 16) v < 256 ^ 2 = ground arith in
    let back : to_signed (2 ^ 15) (to_unsigned (2 ^ 16) v) ≡ v = ground arith in
    rw e (ap (to_signed (2 ^ 15)) (from_le-le_bytes 2 _ fits) ∙ back)
record_round enc v (inr (inl e)) (range, small) =
    let fits : to_unsigned (2 ^ 32) v < 256 ^ 4 = ground arith in
    let back : to_signed (2 ^ 31) (to_unsigned (2 ^ 32) v) ≡ v = ground arith in
    rw e (ap (to_signed (2 ^ 31)) (from_le-le_bytes 4 _ fits) ∙ back)
record_round enc v (inr (inr e)) (range, small) =
    let fits : to_unsigned (2 ^ 64) v < 256 ^ 8 = ground arith in
    let back : to_signed (2 ^ 63) (to_unsigned (2 ^ 64) v) ≡ v = ground arith in
    rw e (ap (to_signed (2 ^ 63)) (from_le-le_bytes 8 _ fits) ∙ back)

pub times_step : (enc n : ℕ) → IsWidth enc → enc + n * enc ≡ suc n * enc
times_step enc n (inl e) = rw e (omega arith)
times_step enc n (inr (inl e)) = rw e (omega arith)
times_step enc n (inr (inr e)) = rw e (omega arith)

pub length-records :
    (enc : ℕ) (vs : List ℤ) → IsWidth enc → length (records enc vs) ≡ length vs * enc
unfolding records
length-records enc [] w = omega arith
length-records enc (v ∷ vs) w =
    length-append (record_bytes enc v) (records enc vs)
    ∙ omega
        (arith, length-record_bytes enc v w, length-records enc vs w, times_step enc (length vs) w)

-- The record behind a header of eight bytes and other records.
pub read_value_lem :
    (head pre rest : List ℕ) (enc i : ℕ) (v : ℤ)
    → length head ≡ 8
    → length pre ≡ i * enc
    → IsWidth enc
    → Holds enc v
    → read_value (head ++ (pre ++ (record_bytes enc v ++ rest))) enc i ≡ v
unfolding read_value
read_value_lem head pre rest enc i v size place w ok =
    let tail = record_bytes enc v ++ rest in
    let there : drop (8 + i * enc) (head ++ (pre ++ tail)) ≡ tail =
      ap (λ n. drop n (head ++ (pre ++ tail))) (omega (arith, size, place))
      ∙ drop-append head (pre ++ tail) (length pre + 0)
      ∙ drop-append pre tail 0 in
    let cut : take enc tail ≡ record_bytes enc v =
      ap (λ n. take n tail) (sym (length-record_bytes enc v w))
      ∙ take_front (record_bytes enc v) rest in
    ap (λ bs. signed_record enc (from_le (take enc bs))) there
    ∙ ap (λ bs. signed_record enc (from_le bs)) cut
    ∙ record_round enc v w ok

-- All records from a position on.
pub read_all_lem :
    (head pre : List ℕ) (enc i : ℕ) (vs : List ℤ)
    → length head ≡ 8
    → length pre ≡ i * enc
    → IsWidth enc
    → All (Holds enc) vs
    → read_all (head ++ (pre ++ records enc vs)) enc i (length vs) ≡ vs
unfolding read_all records
read_all_lem head pre enc i [] size place w ok = refl
read_all_lem head pre enc i (v ∷ vs) size place w ok =
    let here = read_value_lem head pre (records enc vs) enc i v size place w ok.0 in
    let next : length (pre ++ record_bytes enc v) ≡ (i + 1) * enc = omega (
      arith,
      place,
      length-append pre (record_bytes enc v),
      length-record_bytes enc v w,
      times_step enc i w,
    ) in
    let more : head ++ (pre ++ (record_bytes enc v ++ records enc vs))
        ≡ head ++ ((pre ++ record_bytes enc v) ++ records enc vs) =
      ap (λ bs. head ++ bs) (sym (append_assoc pre (record_bytes enc v) (records enc vs))) in
    rw here (
      ap (◌∷◌ v) (
        ap (λ bs. read_all bs enc (i + 1) (length vs)) more
        ∙ read_all_lem head (pre ++ record_bytes enc v) enc (i + 1) vs size next w ok.1))
