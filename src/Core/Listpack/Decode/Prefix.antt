-- ===== src/Core/Listpack/Decode/Prefix.antt =====
-- src/core/listpack.rs: reading an element does not depend on what stands before it.
use dragonflydb_rs.Common.{
  ℕ, ◌+◌, ◌≡◌, ap, ◌∙◌, arith, List, ◌++◌, length, get_elem?-append, slice-append, get_elem?,
}
use dragonflydb_rs.Core.Listpack.Decode.{read_le, entry_at, encoded_size, get_integer}

module _ (pre xs : List ℕ) where
  at_zero : length pre ≡ length pre + 0
  at_zero = omega arith

  get_elem?_here : get_elem? (pre ++ xs) (length pre) ≡ get_elem? xs 0
  get_elem?_here = ap (get_elem? (pre ++ xs)) at_zero ∙ get_elem?-append pre xs 0

  pub entry_at-append : entry_at (pre ++ xs) (length pre) ≡ entry_at xs 0
  unfolding entry_at read_le
  entry_at-append = rw get_elem?_here (simp (slice-append, get_elem?-append))

  pub encoded_size-append : encoded_size (pre ++ xs) (length pre) ≡ encoded_size xs 0
  unfolding encoded_size read_le
  encoded_size-append = rw get_elem?_here (simp (slice-append, get_elem?-append))

  pub get_integer-append : get_integer (pre ++ xs) (length pre) ≡ get_integer xs 0
  unfolding get_integer read_le
  get_integer-append = rw get_elem?_here (simp (slice-append, get_elem?-append))
