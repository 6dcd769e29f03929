-- ===== src/Core/HashMap/Entries.antt =====
-- What src/core/set.rs asks of hashbrown's maps when it goes through them: `iter` lists every entry once,
-- and `len` counts them.
use dragonflydb_rs.Common.{
  ℕ, ◌≡◌, List, [], ◌∷◌, Option, none, some, length, if◌then◌else◌, bytes_eq,
}
use dragonflydb_rs.Core.HashMap.{HashMap}

module _ {V : Type 0} where
  abbrev pub find_in : List (List ℕ × V) → List ℕ → Option V
  find_in [] j = none
  find_in ((k, v) ∷ rest) j = if bytes_eq k j then some v else find_in rest j

  -- No key stands twice.
  abbrev pub Once : List (List ℕ × V) → Type 0
  Once [] = Unit
  Once ((k, v) ∷ rest) = (find_in rest k ≡ none) × Once rest

pub record Listing (m : HashMap (List ℕ) bytes_eq) : Type 1 where
  pub entries : {V : Type 0} → m.Table V → List (List ℕ × V)
  pub find_entries :
      {V : Type 0} (t : m.Table V) (k : List ℕ) → find_in (entries t) k ≡ m.lookup t k
  pub entries_once : {V : Type 0} (t : m.Table V) → Once (entries t)
  pub length_entries : {V : Type 0} (t : m.Table V) → length (entries t) ≡ m.size t
