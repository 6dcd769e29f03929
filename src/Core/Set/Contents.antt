-- ===== src/Core/Set/Contents.antt =====
-- The plain description of the sets of src/core/set.rs: members that can expire, and what the methods do to
-- them.
use dragonflydb_rs.Common.{
  ℕ, Bool, false, ◌||◌, List, [], ◌∷◌, Option, none, some, if◌then◌else◌, bytes_eq,
}
use dragonflydb_rs.Core.Set.{Member, any_eq}
use dragonflydb_rs.Core.Set.Shows.{past}

-- The methods that change a set. Only `pop_random` is not among them, as it chooses by a hash.
pub data Call : Type 0 where
  call_add : Member → Call
  call_add_expirable : Member → ℕ → Bool → Call
  call_remove : Member → Call
  call_prune_expired : ℕ → Call
  call_extend : List Member → Call
  call_clear : Call

-- Which members a set has, and when they expire.
pub record Contents : Type 0 where
  pub has : Member → Bool
  pub expires : Member → Option ℕ

abbrev pub nothing : Contents
nothing = record { has = λ j. false; expires = λ j. none }

abbrev pub with_member : Contents → Member → Contents
with_member c k = record c { has = λ j. bytes_eq k j || c.has j }

abbrev pub with_expiry : Contents → Member → ℕ → Contents
with_expiry c k at = record c { expires = λ j. if bytes_eq k j then some at else c.expires j }

abbrev pub expected : Contents → Call → Contents
expected c (call_add k) = with_member c k
expected c (call_add_expirable k at keepttl) =
    if c.has k
    then if keepttl then c else with_expiry c k at
    else with_expiry (with_member c k) k at
expected c (call_remove k) = record c { has = λ j. if bytes_eq k j then false else c.has j }
expected c (call_prune_expired now) = record {
  has = λ j. if past now (c.expires j) then false else c.has j;
  expires = λ j. if past now (c.expires j) then none else c.expires j;
}
expected c (call_extend ks) = record c { has = λ j. any_eq ks j || c.has j }
expected c call_clear = nothing

abbrev pub expected_all : Contents → List Call → Contents
expected_all c [] = c
expected_all c (call ∷ calls) = expected_all (expected c call) calls
