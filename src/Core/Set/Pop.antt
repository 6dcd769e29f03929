-- ===== src/Core/Set/Pop.antt =====
-- src/core/set.rs: the listing of the members, and the removal of one of them by `pop_random`.
use dragonflydb_rs.Common.{
  ℕ, zero, suc, ◌%◌, ◌<◌, ◌≡◌, refl, sym, ap, ◌∙◌, ◌⊎◌, inl, inr, arith, true, false, List, [], ◌∷◌,
  none, some, length, get_elem?, get_elem?-eq_none, ◌==◌, ==_iff, if◌then◌else◌, bytes_eq,
  bytes_eq→eq, bytes_eq_self, Bool-cases, Option-cases,
}
use native.Mathlib.Nat.{mod-lt}
use dragonflydb_rs.Core.HashMap.{HashMap}
use dragonflydb_rs.Core.HashMap.Entries.{Listing, find_in, Once}
use dragonflydb_rs.Core.Set.{
  Member, is_some, any_eq, one_more, position, keys, SetRepr, Set, small, large, repr_contains,
  contains, repr_len, len, remove_from, repr_members, member_at, sample_seed, taken, pop_at,
  pop_random,
}
use dragonflydb_rs.Core.Set.Small.{Distinct}
use dragonflydb_rs.Core.Set.Shows.{ValidRepr, remove_from_lem}

any-keys : (e : List (Member × Unit {0})) (j : Member) → any_eq (keys e) j ≡ is_some (find_in e j)
any-keys [] j = refl
any-keys ((k, u) ∷ e) j = elim (Bool-cases (bytes_eq k j)) [
  | inl h ↦ rw h refl
  | inr h ↦ rw h (any-keys e j)
]

keys-Distinct : (e : List (Member × Unit {0})) → Once e → Distinct (keys e)
keys-Distinct [] once = tt
keys-Distinct ((k, u) ∷ e) once = (any-keys e k ∙ ap is_some once.0, keys-Distinct e once.1)

length-keys : (e : List (Member × Unit {0})) → length (keys e) ≡ length e
length-keys [] = refl
length-keys (x ∷ e) = ap suc (length-keys e)

at_index : (v : List Member) (i : ℕ) {k : Member} → get_elem? v i ≡ some k → any_eq v k ≡ true
at_index [] i h = absurd (ground (arith, h))
at_index (x ∷ v) zero {k} h = let e : x ≡ k = cc in rw (e, bytes_eq_self k) refl
at_index (x ∷ v) (suc i) h = let rest = at_index v i h in ground (arith, rest)

-- In a vector without repetition a member has one index.
position_of :
    (v : List Member) (i : ℕ) {k : Member}
    → Distinct v
    → get_elem? v i ≡ some k
    → position v k ≡ some i
position_of [] i d h = absurd (ground (arith, h))
position_of (x ∷ v) zero {k} d h = let e : x ≡ k = cc in rw (e, bytes_eq_self k) refl
position_of (x ∷ v) (suc i) {k} d h =
    let there = at_index v i h in
    elim (Bool-cases (bytes_eq x k)) [
      | inl e ↦
          let s = bytes_eq→eq x k e in
          let twice : true ≡ false = sym there ∙ (ap (any_eq v) (sym s) ∙ d.0) in
          absurd (ground (arith, twice))
      | inr e ↦ rw e (ap one_more (position_of v i d.1 h))
    ]

module _ {m : HashMap Member bytes_eq} (l : Listing m) where
  listed :
      (r : SetRepr m)
      → ValidRepr r
      → Distinct (repr_members l r)
        × ((j : Member) → any_eq (repr_members l r) j ≡ repr_contains r j)
        × (length (repr_members l r) ≡ repr_len r)
  listed (small v) valid = (valid.0, (λ j. refl), refl)
  listed (large t) valid = (
    keys-Distinct (l.entries t) (l.entries_once t),
    (λ j. any-keys (l.entries t) j ∙ ap is_some (l.find_entries t j)),
    length-keys (l.entries t) ∙ l.length_entries t,
  )

  taken_lem :
      (r : SetRepr m) (i : ℕ) (k : Member)
      → ValidRepr r
      → member_at l r i ≡ some k
      → taken l r i (some k) ≡ ((remove_from r k).0, some k)
  taken_lem (small v) i k valid h = rw (position_of v i valid.0 h) refl
  taken_lem (large t) i k valid h = refl

  pop_at_lem :
      (r : SetRepr m) (i : ℕ) (k : Member)
      → ValidRepr r
      → member_at l r i ≡ some k
      → pop_at l r i ≡ ((remove_from r k).0, some k)
  pop_at_lem r i k valid h = ap (taken l r i) h ∙ taken_lem r i k valid h

  found_at :
      (r : SetRepr m) (i : ℕ)
      → ValidRepr r
      → i < repr_len r
      → (k : Member) × (pop_at l r i ≡ ((remove_from r k).0, some k)) × (repr_contains r k ≡ true)
  found_at r i valid bound =
      let all = listed r valid in
      let size = all.2 in
      elim (Option-cases (member_at l r i)) [
        | inl h ↦
            let out = get_elem?-eq_none (repr_members l r) i h in
            absurd (omega (arith, out, size, bound))
        | inr h ↦
            (h.0, pop_at_lem r i h.0 valid h.1, sym (all.1 h.0) ∙ at_index (repr_members l r) i h.1)
      ]

  -- Whatever the hash, popping a valid set that is not empty returns one of its members and removes that one
  -- only; an empty set stays as it is.
  pub pop_random_lem :
      (shard_hash : Member → ℕ) (s : Set m)
      → ValidRepr s.repr
      → ((len s ≡ 0) × (pop_random l shard_hash s ≡ (s, none)))
        ⊎ ((k : Member) × ((pop_random l shard_hash s).1 ≡ some k)
            × (contains s k ≡ true)
            × ((j : Member)
                → contains (pop_random l shard_hash s).0 j
                  ≡ (if bytes_eq k j then false else contains s j)))
  unfolding pop_random contains len
  pop_random_lem shard_hash s valid = elim (Bool-cases (repr_len s.repr == 0)) [
    | inl e ↦ inl ((==_iff (repr_len s.repr) 0).0 e, rw e refl)
    | inr e ↦
        let i = shard_hash (sample_seed l s.repr) % repr_len s.repr in
        let within : i < repr_len s.repr =
          mod-lt (shard_hash (sample_seed l s.repr)) (ground (arith, e)) in
        let found = found_at s.repr i valid within in
        let popped = found.1 in
        let one = remove_from_lem s.repr found.0 valid in
        inr (found.0, rw (e, popped) refl, found.2, λ j. rw (e, popped) (one.1 j))
  ]
