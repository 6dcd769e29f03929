-- ===== src/Core/HashMap.antt =====
-- The hash maps that src/core/db.rs uses. They are hashbrown's, which is not part of the repository,
-- so a map is a parameter: the operations that the code calls, and what hashbrown documents of them.
-- A `HashSet` is a map to `Unit`, as it is in hashbrown.
pub mod Writes
pub mod Entries
pub mod Pairs
use dragonflydb_rs.Common.{ℕ, ◌≡◌, Bool, Option, none, some, if◌then◌else◌}

-- `same` is the keys' `Eq`.
pub record HashMap (K : Type 0) (same : K → K → Bool) : Type 1 where
  pub Table : Type 0 → Type 0
  pub empty : (V : Type 0) → Table V
  pub lookup : {V : Type 0} → Table V → K → Option V
  pub put : {V : Type 0} → Table V → K → V → Table V
  pub delete : {V : Type 0} → Table V → K → Table V
  pub size : {V : Type 0} → Table V → ℕ
  pub lookup_empty : (V : Type 0) (k : K) → lookup (empty V) k ≡ none
  pub lookup_put :
      {V : Type 0} (t : Table V) (k : K) (v : V) (j : K)
      → lookup (put t k v) j ≡ (if same k j then some v else lookup t j)
  pub lookup_delete :
      {V : Type 0} (t : Table V) (k j : K)
      → lookup (delete t k) j ≡ (if same k j then none else lookup t j)
