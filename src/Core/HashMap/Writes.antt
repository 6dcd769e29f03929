-- ===== src/Core/HashMap/Writes.antt =====
-- A map of src/core/db.rs as a list of writes, for the examples: it shows that what is asked of the
-- maps can hold.
use dragonflydb_rs.Common.{
  ℕ, ◌+◌, ◌-◌, refl, Bool, List, [], ◌∷◌, Option, none, some, if◌then◌else◌,
}
use dragonflydb_rs.Core.HashMap.{HashMap}

module _ {K : Type 0} (same : K → K → Bool) {V : Type 0} where
  -- The last write of a key counts; a delete writes nothing.
  abbrev pub lookup : List (K × Option V) → K → Option V
  lookup [] j = none
  lookup ((k, v) ∷ t) j = if same k j then v else lookup t j

  abbrev pub write : ℕ → Option V → Option V → ℕ
  write n none none = n
  write n none (some v) = n + 1
  write n (some u) none = n - 1
  write n (some u) (some v) = n

  abbrev pub size : List (K × Option V) → ℕ
  size [] = 0
  size ((k, v) ∷ t) = write (size t) (lookup t k) v

abbrev pub writes : (K : Type 0) (same : K → K → Bool) → HashMap K same
writes K same = record {
  Table = λ V. List (K × Option V);
  empty = λ V. [];
  lookup = λ {V} t k. lookup same t k;
  put = λ {V} t k v. (k, some v) ∷ t;
  delete = λ {V} t k. (k, none) ∷ t;
  size = λ {V} t. size same t;
  lookup_empty = λ V k. refl;
  lookup_put = λ {V} t k v j. refl;
  lookup_delete = λ {V} t k j. refl;
}
