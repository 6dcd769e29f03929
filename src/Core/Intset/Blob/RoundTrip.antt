-- ===== src/Core/Intset/Blob/RoundTrip.antt =====
-- src/core/intset.rs: `values` reads back what `build` wrote, and the validation accepts it.
use dragonflydb_rs.Common.{
  ℕ, suc, ◌+◌, ◌-◌, ◌*◌, ◌%◌, ◌^◌, ◌≤◌, ◌<◌, ◌≡◌, ◌≢◌, refl, ap, sym, ◌∙◌, arith, max, true, false,
  not, List, [], ◌∷◌, ◌++◌, some, length, length-append, append_assoc, All, inl, inr, ltb, ◌==◌,
  ◌||◌, Bool-cases,
}
use native.Mathlib.Decide.{dec_lt}
use dragonflydb_rs.Common.Int.{ℤ, pos_part, neg_part, IsI64, leb_ℤ, ◌<ℤ◌, eq_of_parts}
use dragonflydb_rs.Common.Le.{le_bytes, from_le-le_bytes}
use dragonflydb_rs.Core.Intset.Blob.{
  value_encoding, read_value, read_all, ascending, validate_integrity, encoding_of, count_of,
  values, record_bytes, records, widest, blob, build, sort_unstable, insert_sorted,
}
use dragonflydb_rs.Core.Intset.Blob.Records.{
  IsWidth, Holds, read_value_lem, read_all_lem, length-records, length-record_bytes, times_step,
}

-- Each value is above the one before it.
abbrev pub Ascending : ℤ → List ℤ → Type 0
Ascending prev [] = Unit
Ascending prev (v ∷ vs) = (prev <ℤ v) × Ascending v vs

abbrev pub Sorted : List ℤ → Type 0
Sorted [] = Unit
Sorted (v ∷ vs) = Ascending v vs

abbrev pub Distinct : List ℤ → Type 0
Distinct [] = Unit
Distinct (v ∷ vs) = All (λ x. v ≢ x) vs × Distinct vs

ascending_lem :
    (head pre : List ℕ) (enc i : ℕ) (prev : ℤ) (vs : List ℤ)
    → length head ≡ 8
    → length pre ≡ i * enc
    → IsWidth enc
    → All (Holds enc) vs
    → Ascending prev vs
    → ascending (head ++ (pre ++ records enc vs)) enc prev i (length vs) ≡ true
unfolding ascending records
ascending_lem head pre enc i prev [] size place w ok up = refl
ascending_lem head pre enc i prev (v ∷ vs) size place w ok up =
    let here = read_value_lem head pre (records enc vs) enc i v size place w ok.0 in
    let next : length (pre ++ record_bytes enc v) ≡ (i + 1) * enc = omega (
      arith,
      place,
      length-append pre (record_bytes enc v),
      length-record_bytes enc v w,
      times_step enc i w,
    ) in
    let more : head ++ (pre ++ (record_bytes enc v ++ records enc vs))
        ≡ head ++ ((pre ++ record_bytes enc v) ++ records enc vs) =
      ap (λ bs. head ++ bs) (sym (append_assoc pre (record_bytes enc v) (records enc vs))) in
    let above : leb_ℤ v prev ≡ false = ground arith in
    rw here (
      rw above (
        ap (λ bs. ascending bs enc v (i + 1) (length vs)) more
        ∙ ascending_lem head (pre ++ record_bytes enc v) enc (i + 1) v vs size next w ok.1 up.1))

-- The header of a blob.
encoding_of-blob : (enc : ℕ) (vs : List ℤ) → IsWidth enc → encoding_of (blob enc vs) ≡ enc
unfolding blob
encoding_of-blob enc vs w =
    let small : enc < 2 ^ 32 = width_small w in
    from_le-le_bytes 4 (enc % 2 ^ 32) (omega arith) ∙ omega (arith, small)
  where
    width_small : IsWidth enc → enc < 2 ^ 32
    width_small (inl e) = omega arith
    width_small (inr (inl e)) = omega arith
    width_small (inr (inr e)) = omega arith

count_of-blob : (enc : ℕ) (vs : List ℤ) → length vs < 2 ^ 32 → count_of (blob enc vs) ≡ length vs
unfolding blob
count_of-blob enc vs small = from_le-le_bytes 4 (length vs % 2 ^ 32) (omega arith) ∙ omega arith

known_width : (enc : ℕ) → IsWidth enc → not (enc == 8 || enc == 4 || enc == 2) ≡ false
known_width enc (inl e) = rw e refl
known_width enc (inr (inl e)) = rw e refl
known_width enc (inr (inr e)) = rw e refl

-- Any values in strictly ascending order, in records that hold them, are a blob that the deep
-- validation accepts and `values` reads.
pub values-blob :
    (enc : ℕ) (v : ℤ) (vs : List ℤ)
    → IsWidth enc
    → All (Holds enc) (v ∷ vs)
    → Ascending v vs
    → length (v ∷ vs) < 2 ^ 32
    → (validate_integrity (blob enc (v ∷ vs)) true ≡ true)
      × (values (blob enc (v ∷ vs)) ≡ some (v ∷ vs))
values-blob enc v vs w ok up small = (valid, unfold values in rw valid (rw e (rw c (ap some read))))
  where
    head : List ℕ
    head = le_bytes 4 (enc % 2 ^ 32) ++ le_bytes 4 (length (v ∷ vs) % 2 ^ 32)

    buf : List ℕ
    buf = blob enc (v ∷ vs)

    e : encoding_of buf ≡ enc
    e = encoding_of-blob enc (v ∷ vs) w

    c : count_of buf ≡ length (v ∷ vs)
    c = count_of-blob enc (v ∷ vs) small

    whole : buf ≡ head ++ ([] ++ records enc (v ∷ vs))
    whole = unfold blob in refl

    read : read_all buf enc 0 (length (v ∷ vs)) ≡ v ∷ vs
    read =
        ap (λ bs. read_all bs enc 0 (length (v ∷ vs))) whole
        ∙ read_all_lem head [] enc 0 (v ∷ vs) refl (omega arith) w ok

    first : read_value buf enc 0 ≡ v
    first =
        ap (λ bs. read_value bs enc 0) whole
        ∙ (unfold records in
            read_value_lem head [] (records enc vs) enc 0 v refl (omega arith) w ok.0)

    rest : ascending buf enc v 1 (length vs) ≡ true
    rest =
        ap (λ bs. ascending bs enc v 1 (length vs)) whole
        ∙ (unfold records in
            ascending_lem head (record_bytes enc v) enc 1 v vs refl
              (omega (arith, length-record_bytes enc v w, times_step enc 0 w)) w ok.1 up)

    size : length buf ≡ 8 + length (v ∷ vs) * enc
    size = ap length whole ∙ omega (arith, length-records enc (v ∷ vs) w)

    valid : validate_integrity buf true ≡ true
    valid =
        let long : ltb (length buf) 8 ≡ false = ground (arith, size) in
        let known : not (enc == 8 || enc == 4 || enc == 2) ≡ false = known_width enc w in
        let fits : not (8 + length (v ∷ vs) * enc == length buf) ≡ false = ground (arith, size) in
        let some_there : (length (v ∷ vs) == 0) ≡ false = ground arith in
        let pred : length (v ∷ vs) - 1 ≡ length vs = omega arith in
        unfold validate_integrity in
        rw long (rw e (rw known (rw c (rw fits (rw some_there (rw first (rw pred rest)))))))

below_of_ne : (v x : ℤ) → leb_ℤ v x ≡ true → v ≢ x → v <ℤ x
below_of_ne v x low ne = elim (dec_lt (pos_part v + neg_part x) (pos_part x + neg_part v)) [
  | yes less ↦ less
  | no not_less ↦ absurd (ne (eq_of_parts v x (ground arith)))
]

insert_sorted-Ascending :
    (p v : ℤ) (xs : List ℤ)
    → p <ℤ v
    → Ascending p xs
    → All (λ x. v ≢ x) xs
    → Ascending p (insert_sorted v xs)
unfolding insert_sorted
insert_sorted-Ascending p v [] above up new_one = (above, tt)
insert_sorted-Ascending p v (x ∷ xs) above up new_one = elim (Bool-cases (leb_ℤ v x)) [
  | inl low ↦ let less : v <ℤ x = below_of_ne v x low new_one.0 in rw low (above, (less, up.1))
  | inr high ↦
      let more : x <ℤ v = ground arith in
      rw high (up.0, insert_sorted-Ascending x v xs more up.1 new_one.1)
]

insert_sorted-Sorted :
    (v : ℤ) (xs : List ℤ) → Sorted xs → All (λ x. v ≢ x) xs → Sorted (insert_sorted v xs)
unfolding insert_sorted
insert_sorted-Sorted v [] up new_one = tt
insert_sorted-Sorted v (x ∷ xs) up new_one = elim (Bool-cases (leb_ℤ v x)) [
  | inl low ↦ rw low (below_of_ne v x low new_one.0, up)
  | inr high ↦
      let more : x <ℤ v = ground arith in rw high (insert_sorted-Ascending x v xs more up new_one.1)
]

-- What holds of all values holds of the sorted ones.
insert_sorted-All {κ} :
    (P : ℤ → Type κ) (v : ℤ) (xs : List ℤ) → P v → All P xs → All P (insert_sorted v xs)
unfolding insert_sorted
insert_sorted-All P v [] hv hs = (hv, tt)
insert_sorted-All P v (x ∷ xs) hv hs = elim (Bool-cases (leb_ℤ v x)) [
  | inl low ↦ rw low (hv, hs)
  | inr high ↦ rw high (hs.0, insert_sorted-All P v xs hv hs.1)
]

sort_unstable-All {κ} : (P : ℤ → Type κ) (vs : List ℤ) → All P vs → All P (sort_unstable vs)
unfolding sort_unstable
sort_unstable-All P [] h = tt
sort_unstable-All P (v ∷ vs) h =
    insert_sorted-All P v (sort_unstable vs) h.0 (sort_unstable-All P vs h.1)

sort_unstable-Sorted : (vs : List ℤ) → Distinct vs → Sorted (sort_unstable vs)
unfolding sort_unstable
sort_unstable-Sorted [] d = tt
sort_unstable-Sorted (v ∷ vs) d =
    insert_sorted-Sorted v (sort_unstable vs) (sort_unstable-Sorted vs d.1)
      (sort_unstable-All (λ x. v ≢ x) vs d.0)

length-insert_sorted : (v : ℤ) (xs : List ℤ) → length (insert_sorted v xs) ≡ suc (length xs)
unfolding insert_sorted
length-insert_sorted v [] = refl
length-insert_sorted v (x ∷ xs) = elim (Bool-cases (leb_ℤ v x)) [
  | inl low ↦ rw low refl
  | inr high ↦ rw high (ap suc (length-insert_sorted v xs))
]

length-sort_unstable : (vs : List ℤ) → length (sort_unstable vs) ≡ length vs
unfolding sort_unstable
length-sort_unstable [] = refl
length-sort_unstable (v ∷ vs) =
    length-insert_sorted v (sort_unstable vs) ∙ ap suc (length-sort_unstable vs)

value_encoding-IsWidth : (v : ℤ) → IsWidth (value_encoding v)
unfolding value_encoding
value_encoding-IsWidth v = ground arith

widest-IsWidth : (vs : List ℤ) → IsWidth (widest vs)
unfolding widest
widest-IsWidth [] = inl refl
widest-IsWidth (v ∷ vs) = ground (arith, value_encoding-IsWidth v, widest-IsWidth vs)

weaken : (a b : ℕ) (vs : List ℤ) → a ≤ b → All (Holds a) vs → All (Holds b) vs
weaken a b [] h hs = tt
weaken a b (v ∷ vs) h hs = ((hs.0.0, omega (arith, hs.0.1)), weaken a b vs h hs.1)

widest-Holds : (vs : List ℤ) → All IsI64 vs → All (Holds (widest vs)) vs
unfolding widest
widest-Holds [] h = tt
widest-Holds (v ∷ vs) h = (
  (h.0, omega arith),
  weaken (widest vs) (max (value_encoding v) (widest vs)) vs (omega arith) (widest-Holds vs h.1),
)

-- Building from different values, at least one and fewer than 2^32, in the range of `i64`, makes a
-- blob that the deep validation accepts, and `values` reads back exactly the values, sorted.
pub values-build :
    (vs : List ℤ)
    → 1 ≤ length vs
    → length vs < 2 ^ 32
    → All IsI64 vs
    → Distinct vs
    → (validate_integrity (build vs) true ≡ true) × (values (build vs) ≡ some (sort_unstable vs))
unfolding build
values-build vs some_there few range distinct =
    built (sort_unstable vs) (omega (arith, length-sort_unstable vs))
      (omega (arith, length-sort_unstable vs)) (sort_unstable-All IsI64 vs range)
      (sort_unstable-Sorted vs distinct)
  where
    built :
        (xs : List ℤ)
        → 1 ≤ length xs
        → length xs < 2 ^ 32
        → All IsI64 xs
        → Sorted xs
        → (validate_integrity (blob (widest xs) xs) true ≡ true)
          × (values (blob (widest xs) xs) ≡ some xs)
    built [] some_there few range up = absurd (omega (arith, some_there))
    built (x ∷ xs) some_there few range up =
        values-blob (widest (x ∷ xs)) x xs (widest-IsWidth (x ∷ xs)) (widest-Holds (x ∷ xs) range)
          up few
