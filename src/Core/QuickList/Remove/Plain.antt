-- ===== src/Core/QuickList/Remove/Plain.antt =====
-- src/core/quicklist.rs: the operations that rebuild the list, against the plain list of items.
use dragonflydb_rs.Common.{
  ℕ, zero, suc, ◌+◌, ◌-◌, ◌≤◌, ◌≡◌, refl, ap, sym, ◌∙◌, arith, Bool, true, false, List, [], ◌∷◌,
  ◌++◌, Option, none, some, length, take, drop, insert_at, min, Bool-cases, Option-cases, inl, inr,
  if◌then◌else◌, ltb, ◌==◌, ◌>>=◌, bytes_eq,
}
use dragonflydb_rs.Common.Int.{ℤ, pos, pos_part, neg_part, +ℤ_parts}
use dragonflydb_rs.Util.Range.{redis_range, redis_range_bounds}
use dragonflydb_rs.Core.QuickList.Item.{ListItem, as_bytes}
use dragonflydb_rs.Core.QuickList.Ends.{QuickList, iter}
use dragonflydb_rs.Core.QuickList.Ends.Valid.{IsValid}
use dragonflydb_rs.Core.QuickList.Ends.Push.{Pushed, from_items_lem}
use dragonflydb_rs.Core.QuickList.Remove.{
  remove_count, remove_window, remove_range, drop_matches, drop_all, remove_value, position,
  insert_found, insert_relative,
}

-- A window cut out of a plain list, and the length of the window.
abbrev pub cut_window : List ListItem → Option (ℤ × ℤ) → ℕ × List ListItem
cut_window xs none = (0, xs)
cut_window xs (some (s, count)) =
    (pos_part count, take (pos_part s) xs ++ drop (pos_part s + pos_part count) xs)

-- The number of items that are equal to a value.
abbrev pub occurrences : List ℕ → List ListItem → ℕ
occurrences value [] = 0
occurrences value (it ∷ its) =
    if bytes_eq (as_bytes it) value then suc (occurrences value its) else occurrences value its

-- A plain list without its first `n` items that are equal to a value.
abbrev pub remove_first : ℕ → List ℕ → List ListItem → List ListItem
remove_first zero value xs = xs
remove_first (suc n) value [] = []
remove_first (suc n) value (it ∷ its) =
    let fewer = remove_first n value its in
    let same = remove_first (suc n) value its in
    if bytes_eq (as_bytes it) value then fewer else it ∷ same

-- A plain list with an item put before or after the first item that is equal to a value.
abbrev pub put_beside : List ℕ → ListItem → Bool → List ListItem → List ListItem
put_beside pivot elem after [] = []
put_beside pivot elem after (it ∷ its) =
    let rest = put_beside pivot elem after its in
    if bytes_eq (as_bytes it) pivot
    then if after then it ∷ elem ∷ its else elem ∷ it ∷ its
    else it ∷ rest

remove_count_lem :
    (ql : QuickList) (start count : ℕ)
    → start + count ≤ length (iter ql)
    → let r = remove_count ql start count in
      (r.0 ≡ count) × Pushed r.1 (take start (iter ql) ++ drop (start + count) (iter ql))
unfolding remove_count
remove_count_lem ql start count h =
    let end : min (start + count) (length (iter ql)) ≡ start + count = omega arith in
    rw end (omega arith, from_items_lem (take start (iter ql) ++ drop (start + count) (iter ql)))

-- `remove_range` on a valid list cuts the window of `redis_range` out of the items and reports its
-- length; the list stays valid.
pub remove_range_lem :
    (ql : QuickList) (start stop : ℤ)
    → IsValid ql
    → let r = remove_range ql start stop in
      let (removed, kept) =
        cut_window (iter ql) (redis_range start stop (pos (length (iter ql)))) in
      (r.0 ≡ removed) × Pushed r.1 kept
unfolding remove_range
remove_range_lem ql start stop v =
    rw (← v.counted) (cut (redis_range start stop (pos ql.count)) refl)
  where
    cut :
        (w : Option (ℤ × ℤ))
        → redis_range start stop (pos ql.count) ≡ w
        → let r = remove_window ql w in
          let (removed, kept) = cut_window (iter ql) w in (r.0 ≡ removed) × Pushed r.1 kept
    cut none e = (refl, (v, refl))
    cut (some (s, count)) e =
        let bounds = redis_range_bounds start stop ql.count s count e in
        remove_count_lem ql (pos_part s) (pos_part count)
          (ground (arith, bounds, v.counted, +ℤ_parts s count))

occurrences_le : (value : List ℕ) (xs : List ListItem) → occurrences value xs ≤ length xs
occurrences_le value [] = omega arith
occurrences_le value (it ∷ its) = ground (arith, occurrences_le value its)

remove_first_nil : (n : ℕ) (value : List ℕ) → remove_first n value [] ≡ []
remove_first_nil zero value = refl
remove_first_nil (suc n) value = refl

-- An item that is not the value stays.
remove_first_miss :
    (n : ℕ) (value : List ℕ) (it : ListItem) (its : List ListItem)
    → bytes_eq (as_bytes it) value ≡ false
    → remove_first n value (it ∷ its) ≡ it ∷ remove_first n value its
remove_first_miss zero value it its miss = refl
remove_first_miss (suc n) value it its miss = rw miss refl

drop_all_lem :
    (value : List ℕ) (xs : List ListItem)
    → (drop_all value xs ≡ remove_first (occurrences value xs) value xs)
      × (length (drop_all value xs) + occurrences value xs ≡ length xs)
unfolding drop_all
drop_all_lem value [] = (refl, omega arith)
drop_all_lem value (it ∷ its) =
    let (items, size) = drop_all_lem value its in
    elim (Bool-cases (bytes_eq (as_bytes it) value)) [
      | inl hit ↦
          let gone : remove_first (suc (occurrences value its)) value (it ∷ its)
              ≡ remove_first (occurrences value its) value its =
            rw hit refl in
          rw hit (items ∙ sym gone, omega (arith, size))
      | inr miss ↦
          rw (remove_first_miss (occurrences value (it ∷ its)) value it its miss)
            (rw miss (ap (◌∷◌ it) items, omega (arith, size)))
    ]

-- The loop of `remove_value` drops the first matches that the limit has room for, and counts them.
drop_matches_lem :
    (value : List ℕ) (limit removed : ℕ) (xs : List ListItem)
    → removed ≤ limit
    → let n = min (limit - removed) (occurrences value xs) in
      (drop_matches value limit removed xs).0 ≡ removed + n
      × (drop_matches value limit removed xs).1 ≡ remove_first n value xs
unfolding drop_matches
drop_matches_lem value limit removed [] h = (omega arith, sym (remove_first_nil _ value))
drop_matches_lem value limit removed (it ∷ its) h =
    elim (Bool-cases (bytes_eq (as_bytes it) value)) [
      | inl same ↦ elim (Bool-cases (ltb removed limit)) [
        | inl room ↦
            let (count, items) = drop_matches_lem value limit (removed + 1) its (ground arith) in
            let more : min (limit - removed) (suc (occurrences value its))
                ≡ suc (min (limit - (removed + 1)) (occurrences value its)) =
              ground arith in
            rw same (rw room (rw more (rw same (omega (arith, count), items))))
        | inr full ↦
            let (count, items) = drop_matches_lem value limit removed its h in
            let no_room : limit - removed ≡ 0 = ground arith in
            let none_now : min (limit - removed) (suc (occurrences value its)) ≡ 0 = omega arith in
            let none_later : min (limit - removed) (occurrences value its) ≡ 0 = omega arith in
            let items' : (drop_matches value limit removed its).1 ≡ its =
              items ∙ ap (λ n. remove_first n value its) none_later in
            rw same (rw full (rw none_now (omega (arith, count), ap (◌∷◌ it) items')))
      ]
      | inr miss ↦
          let (count, items) = drop_matches_lem value limit removed its h in
          rw
            (remove_first_miss (min (limit - removed) (occurrences value (it ∷ its))) value it its
              miss)
            (rw miss (count, ap (◌∷◌ it) items))
    ]

-- How many items `remove_value` is asked to remove, all of them where the count is 0.
abbrev pub asked : ℤ → ℕ → ℕ
asked count found =
    if pos_part count + neg_part count == 0
    then found
    else min (pos_part count + neg_part count) found

-- `remove_value` on a valid list removes the first items that are equal to the value, as many as the
-- size of the count, all where it is 0, and reports their number; the list stays valid.
pub remove_value_lem :
    (ql : QuickList) (value : List ℕ) (count : ℤ)
    → IsValid ql
    → let r = remove_value ql value count in
      let n = asked count (occurrences value (iter ql)) in
      (r.0 ≡ n) × Pushed r.1 (remove_first n value (iter ql))
unfolding remove_value
remove_value_lem ql value count v = elim (Bool-cases (pos_part count + neg_part count == 0)) [
  | inl all ↦
      let (items, size) = drop_all_lem value (iter ql) in
      let (valid, same) = from_items_lem (drop_all value (iter ql)) in
      rw all (omega (arith, size, v.counted), (valid, same ∙ items))
  | inr some_of ↦
      let limit = pos_part count + neg_part count in
      let (number, items) = drop_matches_lem value limit 0 (iter ql) (omega arith) in
      let (valid, same) = from_items_lem (drop_matches value limit 0 (iter ql)).1 in
      let whole : limit - 0 ≡ limit = omega arith in
      rw some_of (omega (arith, rw whole at number), (valid, same ∙ (rw whole at items)))
]

some-suc :
    (r : Option ℕ) (i : ℕ)
    → (do k ← r; some (suc k)) ≡ some i
    → (j : ℕ) × (r ≡ some j) × (i ≡ suc j)
some-suc none i h = absurd (ground arith)
some-suc (some k) i h = (k, refl, ground arith)

put_beside_lem :
    (pivot : List ℕ) (elem : ListItem) (after : Bool) (xs : List ListItem) (i : ℕ)
    → position pivot xs ≡ some i
    → insert_at (if after then i + 1 else i) elem xs ≡ put_beside pivot elem after xs
unfolding position
put_beside_lem pivot elem after [] i h = absurd (ground arith)
put_beside_lem pivot elem after (it ∷ its) i h = elim (Bool-cases (bytes_eq (as_bytes it) pivot)) [
  | inl hit ↦ let at : i ≡ 0 = ground arith in rw at (rw hit (beside after))
  | inr miss ↦
      let (j, found, next) = some-suc (position pivot its) i (rw miss at h) in
      let further : (if after then suc j + 1 else suc j) ≡ suc (if after then j + 1 else j) =
        ground arith in
      rw next (rw further (rw miss (ap (◌∷◌ it) (put_beside_lem pivot elem after its j found))))
]
  where
    beside :
        (a : Bool)
        → insert_at (if a then 0 + 1 else 0) elem (it ∷ its)
          ≡ (if a then it ∷ elem ∷ its else elem ∷ it ∷ its)
    beside true = refl
    beside false = refl

no_position :
    (pivot : List ℕ) (elem : ListItem) (after : Bool) (xs : List ListItem)
    → position pivot xs ≡ none
    → (occurrences pivot xs ≡ 0) × (put_beside pivot elem after xs ≡ xs)
unfolding position
no_position pivot elem after [] h = (refl, refl)
no_position pivot elem after (it ∷ its) h =
    let miss : bytes_eq (as_bytes it) pivot ≡ false = ground arith in
    let rest : position pivot its ≡ none = no_suc (position pivot its) (rw miss at h) in
    let (zero_there, same) = no_position pivot elem after its rest in
    (rw miss zero_there, rw miss (ap (◌∷◌ it) same))
  where
    no_suc : (r : Option ℕ) → (do k ← r; some (suc k)) ≡ none → r ≡ none
    no_suc none h = refl
    no_suc (some k) h = absurd (ground arith)

some-position :
    (pivot : List ℕ) (xs : List ListItem) (i : ℕ)
    → position pivot xs ≡ some i
    → 1 ≤ occurrences pivot xs
unfolding position
some-position pivot [] i h = absurd (ground arith)
some-position pivot (it ∷ its) i h = elim (Bool-cases (bytes_eq (as_bytes it) pivot)) [
  | inl hit ↦ rw hit (omega arith)
  | inr miss ↦
      let (j, found, next) = some-suc (position pivot its) i (rw miss at h) in
      rw miss (some-position pivot its j found)
]

-- `insert_relative` on a valid list reports whether the pivot occurs, and puts the element before or
-- after its first occurrence; without one the items stay. The list stays valid.
pub insert_relative_lem :
    (ql : QuickList) (pivot : List ℕ) (elem : ListItem) (after : Bool)
    → IsValid ql
    → let r = insert_relative ql pivot elem after in
      (r.0 ≡ ltb 0 (occurrences pivot (iter ql)))
      × Pushed r.1 (put_beside pivot elem after (iter ql))
unfolding insert_relative insert_found
insert_relative_lem ql pivot elem after v = elim (Option-cases (position pivot (iter ql))) [
  | inl absent ↦
      let (zero_there, same) = no_position pivot elem after (iter ql) absent in
      rw absent (ground arith, (v, sym same))
  | inr (i, found) ↦
      let there = some-position pivot (iter ql) i found in
      let (valid, items) = from_items_lem (insert_at (if after then i + 1 else i) elem (iter ql)) in
      rw found (ground arith, (valid, items ∙ put_beside_lem pivot elem after (iter ql) i found))
]
