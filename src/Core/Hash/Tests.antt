-- ===== src/Core/Hash/Tests.antt =====
-- Runs of src/core/hash.rs.
use dragonflydb_rs.Common.{◌≡◌, refl, true, false, not, ◌&&◌, List, [], ◌∷◌, none, some, bytes_eq}
use dragonflydb_rs.Core.HashMap.Pairs.{pairs, pairs_listing}
use dragonflydb_rs.Core.Set.{Member, is_some}
use dragonflydb_rs.Core.Hash.{
  Hash, new, get, contains, set, remove, add_expirable, prune_expired, field_expire_ms, len_bytes,
  has_expiry,
}
use dragonflydb_rs.Core.Hash.Contents.{
  Call, call_set, call_add_expirable, call_add_or_skip, call_remove, call_prune_expired, nothing,
  expected_all,
}
use dragonflydb_rs.Core.Hash.Shows.{ValidRepr}
use dragonflydb_rs.Core.Hash.Runs.{run, run-new}

abbrev f : Member
f = b'f' ∷ []

abbrev g : Member
g = b'g' ∷ []

abbrev x : Member
x = b'x' ∷ []

abbrev y : Member
y = b'y' ∷ []

-- A field that keeps its expiry, one that is skipped, and one that is written again.
abbrev calls : List Call
calls =
    call_add_expirable f x (some 5) false
    ∷ call_add_expirable f y (some 9) true
    ∷ call_add_or_skip f x none
    ∷ call_set g x
    ∷ call_prune_expired 5
    ∷ call_remove g
    ∷ call_set f x
    ∷ []

run-new_example :
    ((j : Member)
      → (get (run pairs_listing (new pairs) calls) j ≡ (expected_all nothing calls).value j)
        × (field_expire_ms (run pairs_listing (new pairs) calls) j
            ≡ (expected_all nothing calls).expires j)
        × ((is_some (field_expire_ms (run pairs_listing (new pairs) calls) j)
              && not (contains (run pairs_listing (new pairs) calls) j))
            ≡ false))
    × ValidRepr (run pairs_listing (new pairs) calls).repr
run-new_example = run-new pairs_listing calls

abbrev two : Hash pairs
two = (set (add_expirable (new pairs) f x (some 5) false).0 g y).0

pruned : get (prune_expired pairs_listing two 5) f ≡ none
unfolding prune_expired add_expirable contains set get bytes_eq
pruned = refl

forgotten : has_expiry (remove two f).0 ≡ false
unfolding remove add_expirable contains set bytes_eq
forgotten = refl

counted : len_bytes pairs_listing two ≡ 4
unfolding len_bytes add_expirable contains set bytes_eq
counted = refl
