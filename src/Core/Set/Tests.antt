-- ===== src/Core/Set/Tests.antt =====
-- Runs of src/core/set.rs.
use dragonflydb_rs.Common.{
  ◌≡◌, ◌⊎◌, refl, arith, true, false, List, [], ◌∷◌, none, some, length, if◌then◌else◌, bytes_eq,
}
use dragonflydb_rs.Core.HashMap.Pairs.{pairs, pairs_listing}
use dragonflydb_rs.Core.Set.{
  Member, Set, small, new, contains, len, add, add_expirable, remove, member_expire_ms, pop_random,
  prune_expired, has_expiry,
}
use dragonflydb_rs.Core.Set.Shows.{ValidRepr}
use dragonflydb_rs.Core.Set.Contents.{
  Call, call_add, call_add_expirable, call_remove, call_prune_expired, nothing, expected_all,
}
use dragonflydb_rs.Core.Set.Runs.{after_all, after_all-new}
use dragonflydb_rs.Core.Set.Pop.{pop_random_lem}

abbrev a : Member
a = b'a' ∷ []

abbrev b : Member
b = b'b' ∷ []

-- A member that expires at 5 and one that stays.
abbrev calls : List Call
calls =
    call_add_expirable a 5 false
    ∷ call_add b
    ∷ call_prune_expired 4
    ∷ call_remove b
    ∷ call_add b
    ∷ []

after_all-new_example :
    ((j : Member)
      → (contains (after_all pairs_listing (new pairs) calls) j
          ≡ (expected_all nothing calls).has j)
        × (member_expire_ms (after_all pairs_listing (new pairs) calls) j
            ≡ (expected_all nothing calls).expires j))
    × ValidRepr (after_all pairs_listing (new pairs) calls).repr
after_all-new_example = after_all-new pairs_listing calls

abbrev two : Set pairs
two = record { repr = small (a ∷ b ∷ []); expiry = none }

two-ValidRepr : ValidRepr {m = pairs} (small (a ∷ b ∷ []))
unfolding bytes_eq
two-ValidRepr = ((refl, (refl, tt)), omega arith)

pop_random_lem_example :
    ((len two ≡ 0) × (pop_random pairs_listing length two ≡ (two, none)))
    ⊎ ((k : Member) × ((pop_random pairs_listing length two).1 ≡ some k)
        × (contains two k ≡ true)
        × ((j : Member)
            → contains (pop_random pairs_listing length two).0 j
              ≡ (if bytes_eq k j then false else contains two j)))
pop_random_lem_example = pop_random_lem pairs_listing length two two-ValidRepr

-- The second member, where the hash is the length of the first one.
popped : (pop_random pairs_listing length two).1 ≡ some b
unfolding pop_random len
popped = refl

pruned : has_expiry (prune_expired pairs_listing (add_expirable (new pairs) a 5 false).0 5) ≡ false
unfolding prune_expired add_expirable contains add bytes_eq
pruned = refl

-- A member that is removed and added again still expires when the removed one was to.
kept_expiry :
    member_expire_ms (add (remove (add_expirable (new pairs) a 5 false).0 a).0 a).0 a ≡ some 5
unfolding member_expire_ms add remove add_expirable contains bytes_eq
kept_expiry = refl
