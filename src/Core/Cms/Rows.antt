-- ===== src/Core/Cms/Rows.antt =====
-- src/core/cms.rs: an increment and the query of the same item.
use dragonflydb_rs.Common.{
  ℕ, zero, suc, ◌+◌, ◌*◌, ◌%◌, ◌^◌, ◌≤◌, ◌<◌, ◌≡◌, refl, ◌∙◌, inl, inr, arith, List, [], ◌∷◌, some,
  length, get_elem?, set, length-set, get_elem?-eq_none, Option-cases,
}
use native.Mathlib.Nat.{mod-lt}
use dragonflydb_rs.Common.Int.{ℤ, ◌+ℤ◌}
use dragonflydb_rs.Core.Cms.{
  Cms, wrapped, min_ℤ, i64_max, offset, incr_rows, query_rows, incr_by, query,
}

get_elem?-set : (xs : List ℤ) (i : ℕ) (v : ℤ) → i < length xs → get_elem? (set xs i v) i ≡ some v
get_elem?-set [] i v h = absurd (omega (arith, h))
get_elem?-set (x ∷ xs) zero v h = refl
get_elem?-set (x ∷ xs) (suc i) v h = get_elem?-set xs i v (omega (arith, h))

get_elem?-set_other :
    (xs : List ℤ) (i j : ℕ) (v : ℤ) → j < i → get_elem? (set xs i v) j ≡ get_elem? xs j
get_elem?-set_other [] i j v h = refl
get_elem?-set_other (x ∷ xs) zero j v h = absurd (omega (arith, h))
get_elem?-set_other (x ∷ xs) (suc i) zero v h = refl
get_elem?-set_other (x ∷ xs) (suc i) (suc j) v h = get_elem?-set_other xs i j v (omega (arith, h))

module _ (h1 h2 width : ℕ) (wide : 0 < width) (increment : ℤ) where
  offset_from : (row : ℕ) → row * width ≤ offset h1 h2 row width
  unfolding offset
  offset_from row = omega arith

  offset_below : (row : ℕ) → offset h1 h2 row width < row * width + width
  unfolding offset
  offset_below row =
      let small = mod-lt ((h1 + row * h2 % 2 ^ 64) % 2 ^ 64) wide in omega (arith, small)

  -- What an increment of the rows from `row` on does.
  record Done (row n : ℕ) (least : ℤ) (before after : List ℤ) (result : ℤ) : Type 0 where
    ends : incr_rows h1 h2 width increment row n least before ≡ some (after, result)
    queried : query_rows h1 h2 width row n least after ≡ some result
    untouched : (i : ℕ) → i < row * width → get_elem? after i ≡ get_elem? before i
    same_length : length after ≡ length before

  rows-Done :
      (row n : ℕ) (least : ℤ) (before : List ℤ)
      → row * width + n * width ≤ length before
      → (after : List ℤ) × ((result : ℤ) × Done row n least before after result)
  unfolding incr_rows query_rows
  rows-Done row zero least before room = (
    before,
    (least, record { ends = refl; queried = refl; untouched = λ i h. refl; same_length = refl }),
  )
  rows-Done row (suc n) least before room =
      let at = offset h1 h2 row width in
      let from = offset_from row in
      let below = offset_below row in
      let inside : at < length before = omega (arith, below, room) in
      elim (Option-cases (get_elem? before at)) [
        | inl e ↦ let out = get_elem?-eq_none before at e in absurd (omega (arith, out, inside))
        | inr e ↦
            let c = wrapped (e.0 +ℤ increment) in
            let next = set before at c in
            let size = length-set before at c in
            let rest = rows-Done (suc row) n (min_ℤ least c) next (omega (arith, size, room)) in
            let d = rest.1.1 in
            let kept : get_elem? rest.0 at ≡ some c =
              d.untouched at (omega (arith, below)) ∙ get_elem?-set before at c inside in
            (
              rest.0,
              (
                rest.1.0,
                record {
                  ends = rw (e.1) d.ends;
                  queried = rw kept d.queried;
                  untouched = λ i h.
                      d.untouched i (omega (arith, h))
                      ∙ get_elem?-set_other before at i c (omega (arith, h, from));
                  same_length = d.same_length ∙ size;
                },
              ),
            )
      ]

-- An increment of a sketch of positive width with a counter for every place succeeds, the query of the item afterwards gives
-- the estimate that the increment returned, and every place still has its counter.
pub query-incr_by :
    (hash_fp : List ℕ → ℕ × ℕ) (s : Cms) (item : List ℕ) (increment : ℤ)
    → 0 < s.width
    → length s.counters ≡ s.width * s.depth
    → (t : Cms) × (n : ℤ) × (incr_by hash_fp s item increment ≡ some (t, n))
      × (query hash_fp t item ≡ some n)
      × (length t.counters ≡ s.width * s.depth)
unfolding incr_by query
query-incr_by hash_fp s item increment wide filled =
    let h = hash_fp item in
    let all =
      rows-Done h.0 h.1 s.width wide increment 0 s.depth i64_max s.counters
        (omega (arith, filled)) in
    let d = all.1.1 in
    let t : Cms = record s { count = wrapped (s.count +ℤ increment); counters = all.0 } in
    (t, all.1.0, rw (d.ends) refl, d.queried, d.same_length ∙ filled)
