-- ===== src/Core/Hash/Contents.antt =====
-- The plain description of the hashes of src/core/hash.rs: fields with values that can expire, and what the
-- methods do to them.
use dragonflydb_rs.Common.{
  ℕ, ◌≡◌, refl, sym, ap, ◌∙◌, inl, inr, arith, Bool, true, false, List, [], ◌∷◌, Option, none, some,
  if◌then◌else◌, bytes_eq, Bool-cases,
}
use dragonflydb_rs.Core.Set.{Member, is_some}
use dragonflydb_rs.Core.Set.Shows.{past}

-- The methods that change a hash.
pub data Call : Type 0 where
  call_set : Member → Member → Call
  call_add_expirable : Member → Member → Option ℕ → Bool → Call
  call_add_or_skip : Member → Member → Option ℕ → Call
  call_remove : Member → Call
  call_prune_expired : ℕ → Call

-- The value of each field, and when it expires.
pub record Contents : Type 0 where
  pub value : Member → Option Member
  pub expires : Member → Option ℕ

abbrev pub nothing : Contents
nothing = record { value = λ j. none; expires = λ j. none }

abbrev pub with_value : Contents → Member → Member → Contents
with_value c k y = record c { value = λ j. if bytes_eq k j then some y else c.value j }

abbrev pub with_expiry : Contents → Member → Option ℕ → Contents
with_expiry c k o = record c { expires = λ j. if bytes_eq k j then o else c.expires j }

-- The expiry of a field that gets a new value: with `keepttl` the old one stays if there is one.
abbrev pub kept : Bool → Option ℕ → Option ℕ → Option ℕ
kept false old at = at
kept true none at = at
kept true (some e) at = some e

abbrev pub expected : Contents → Call → Contents
expected c (call_set k y) = with_value c k y
expected c (call_add_expirable k y at keepttl) =
    with_value (with_expiry c k (if is_some (c.value k) then kept keepttl (c.expires k) at else at))
      k y
expected c (call_add_or_skip k y at) =
    if is_some (c.value k) then c else with_value (with_expiry c k at) k y
expected c (call_remove k) = record {
  value = λ j. if bytes_eq k j then none else c.value j;
  expires = λ j. if bytes_eq k j then none else c.expires j;
}
expected c (call_prune_expired now) = record {
  value = λ j. if past now (c.expires j) then none else c.value j;
  expires = λ j. if past now (c.expires j) then none else c.expires j;
}

abbrev pub expected_all : Contents → List Call → Contents
expected_all c [] = c
expected_all c (call ∷ calls) = expected_all (expected c call) calls

-- What does not exist does not expire.
abbrev pub Covered : Contents → Type 0
Covered c = (j : Member) → c.value j ≡ none → c.expires j ≡ none

absurd_some {ℓ} : {A : Type ℓ} {y : Member} → some y ≡ none → A
absurd_some h = absurd (ground (arith, h))

with_value-Covered :
    (c : Contents) (k y : Member) (o : Option ℕ)
    → Covered c
    → Covered (with_value (with_expiry c k o) k y)
with_value-Covered c k y o covered j h = elim (Bool-cases (bytes_eq k j)) [
  | inl e ↦ absurd_some {y = y} (ap (λ b. if b then some y else c.value j) (sym e) ∙ h)
  | inr e ↦ rw e (covered j (ap (λ b. if b then some y else c.value j) (sym e) ∙ h))
]

both_gone :
    (c : Contents) (gone : Member → Bool)
    → Covered c
    → Covered (record {
      value = λ j. if gone j then none else c.value j;
      expires = λ j. if gone j then none else c.expires j;
    })
both_gone c gone covered j h = elim (Bool-cases (gone j)) [
  | inl e ↦ rw e refl
  | inr e ↦ rw e (covered j (ap (λ b. if b then none else c.value j) (sym e) ∙ h))
]

pub expected-Covered : (c : Contents) (call : Call) → Covered c → Covered (expected c call)
expected-Covered c (call_set k y) covered = λ j h. elim (Bool-cases (bytes_eq k j)) [
  | inl e ↦ absurd_some {y = y} (ap (λ b. if b then some y else c.value j) (sym e) ∙ h)
  | inr e ↦ covered j (ap (λ b. if b then some y else c.value j) (sym e) ∙ h)
]
expected-Covered c (call_add_expirable k y at keepttl) covered =
    with_value-Covered c k y (if is_some (c.value k) then kept keepttl (c.expires k) at else at)
      covered
expected-Covered c (call_add_or_skip k y at) covered =
    elim (is_some (c.value k))
      as (λ b. Covered (if b then c else with_value (with_expiry c k at) k y)) [
        | true ↦ covered
        | false ↦ with_value-Covered c k y at covered
      ]
expected-Covered c (call_remove k) covered = both_gone c (bytes_eq k) covered
expected-Covered c (call_prune_expired now) covered =
    both_gone c (λ j. past now (c.expires j)) covered
