-- ===== src/Core/Cms/Tests.antt =====
-- Runs of src/core/cms.rs.
use dragonflydb_rs.Common.{ℕ, ◌*◌, ◌≡◌, refl, arith, false, List, [], ◌∷◌, ◌++◌, none, some, length}
use dragonflydb_rs.Common.Int.{ℤ, pos, negsuc}
use dragonflydb_rs.Core.Cms.{Cms, new, incr_by, query, merge_from, serialize, deserialize}
use dragonflydb_rs.Core.Cms.RoundTrip.{IsValid, deserialize-serialize}
use dragonflydb_rs.Core.Cms.Rows.{query-incr_by}

abbrev item : List ℕ
item = b'a' ∷ []

-- A fingerprint of the length.
abbrev hash_fp : List ℕ → ℕ × ℕ
hash_fp bytes = (length bytes, 1)

abbrev sketch : Cms
sketch = record {
  width = 3;
  depth = 2;
  count = negsuc 0;
  counters = pos 1 ∷ pos 2 ∷ pos 3 ∷ negsuc 4 ∷ pos 5 ∷ pos 6 ∷ [];
}

sketch-IsValid : IsValid sketch
sketch-IsValid = record {
  narrow = omega arith;
  flat = omega arith;
  counted = (omega arith, omega arith);
  each = ground arith;
  filled = refl;
  sized = omega arith;
}

deserialize-serialize_example : deserialize (serialize sketch ++ 7 ∷ []) ≡ some sketch
deserialize-serialize_example = deserialize-serialize sketch (7 ∷ []) sketch-IsValid

query-incr_by_example :
    (t : Cms) × (n : ℤ) × (incr_by hash_fp sketch item (pos 4) ≡ some (t, n))
    × (query hash_fp t item ≡ some n)
    × (length t.counters ≡ sketch.width * sketch.depth)
query-incr_by_example = query-incr_by hash_fp sketch item (pos 4) (omega arith) refl

estimate : query hash_fp sketch item ≡ some (pos 2)
unfolding query
estimate = refl

other_dimensions : merge_from sketch (new 3 1) (pos 2) ≡ (sketch, false)
unfolding merge_from
other_dimensions = refl

too_short : deserialize (1 ∷ []) ≡ none
unfolding deserialize
too_short = refl
