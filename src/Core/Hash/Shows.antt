-- ===== src/Core/Hash/Shows.antt =====
-- src/core/hash.rs: what single changes do to the fields and to the expiries, in either representation.
use dragonflydb_rs.Common.{
  ℕ, zero, suc, ◌≤◌, ◌≡◌, refl, sym, ap, ◌∙◌, inl, inr, arith, true, List, [], ◌∷◌, ◌++◌, Option,
  none, some, length, ltb, if◌then◌else◌, bytes_eq, bytes_eq→eq, Bool-cases, Option-cases,
}
use dragonflydb_rs.Core.HashMap.{HashMap}
use dragonflydb_rs.Core.HashMap.Entries.{Listing, find_in, Once}
use dragonflydb_rs.Core.Set.{Member, is_some, one_more, expiry_in}
use dragonflydb_rs.Core.Set.Shows.{length-removed_at, unless_empty_lem}
use dragonflydb_rs.Core.Hash.{
  Pair, hash_max_small, any_field, position, value_at, replaced_at, HashRepr, small, large,
  insert_all, expiry_without, repr_get, repr_contains, set_small, set_in, remove_from,
}
use dragonflydb_rs.Core.Hash.Small.{
  any_field_lem, value_at-position, over, find-replaced_at, replaced_at-Once, find-removed_at,
  removed_at-Once, find-snoc, snoc-Once,
}

position_lem : (v : List Pair) (k : Member) → is_some (position v k) ≡ any_field v k
position_lem [] k = refl
position_lem ((f, x) ∷ v) k =
    let more : (o : Option ℕ) → is_some (one_more o) ≡ is_some o =
      λ o. elim o as (λ o. is_some (one_more o) ≡ is_some o) [ none ↦ refl | some i ↦ refl ] in
    elim (Bool-cases (bytes_eq f k)) [
      | inl e ↦ rw e refl
      | inr e ↦ rw e (more (position v k) ∙ position_lem v k)
    ]

length-replaced_at :
    (v : List Pair) (o : Option ℕ) (y : Member) → length (replaced_at v o y) ≡ length v
length-replaced_at v none y = refl
length-replaced_at [] (some i) y = refl
length-replaced_at ((f, x) ∷ v) (some zero) y = refl
length-replaced_at ((f, x) ∷ v) (some (suc i)) y = ap suc (length-replaced_at v (some i) y)

over-some : (o : Option Member) (y : Member) → is_some o ≡ true → over y o ≡ some y
over-some none y h = absurd (ground (arith, h))
over-some (some x) y h = refl

abbrev or_else : Option Member → Option Member → Option Member
or_else none o = o
or_else (some x) o = some x

or_else-none : (o : Option Member) → or_else o none ≡ o
or_else-none none = refl
or_else-none (some x) = refl

module _ (m : HashMap Member bytes_eq) where
  insert_all_lem :
      (v : List Pair) (t : m.Table Member) (j : Member)
      → Once v
      → m.lookup (insert_all m v t) j ≡ or_else (find_in v j) (m.lookup t j)
  insert_all_lem [] t j once = refl
  insert_all_lem ((f, x) ∷ v) t j once =
      insert_all_lem v (m.put t f x) j once.1
      ∙ ap (or_else (find_in v j)) (m.lookup_put t f x j)
      ∙ elim (Bool-cases (bytes_eq f j)) [
        | inl h ↦
            let s = bytes_eq→eq f j h in
            let absent : find_in v j ≡ none = ap (find_in v) (sym s) ∙ once.0 in rw (h, absent) refl
        | inr h ↦ rw h refl
      ]

  promoted :
      (v : List Pair) (j : Member)
      → Once v
      → m.lookup (insert_all m v (m.empty Member)) j ≡ find_in v j
  promoted v j once =
      insert_all_lem v (m.empty Member) j once
      ∙ ap (or_else (find_in v j)) (m.lookup_empty Member j)
      ∙ or_else-none (find_in v j)

module _ {m : HashMap Member bytes_eq} where
  -- A small hash keeps to its bound and names no field twice.
  abbrev pub ValidRepr : HashRepr m → Type 0
  ValidRepr (small v) = Once v × (length v ≤ hash_max_small)
  ValidRepr (large t) = Unit

  pub contains_lem : (r : HashRepr m) (k : Member) → repr_contains r k ≡ is_some (repr_get r k)
  contains_lem (small v) k = any_field_lem v k
  contains_lem (large t) k = refl

  abbrev Sets : HashRepr m → Member → Member → HashRepr m × Option Member → Type 0
  Sets r k y (after, old) =
      ValidRepr after
      × ((j : Member) → repr_get after j ≡ (if bytes_eq k j then some y else repr_get r j))
      × (old ≡ repr_get r k)

  abbrev Removes : HashRepr m → Member → HashRepr m × Option Member → Type 0
  Removes r k (after, old) =
      ValidRepr after
      × ((j : Member) → repr_get after j ≡ (if bytes_eq k j then none else repr_get r j))
      × (old ≡ repr_get r k)

module _ (m : HashMap Member bytes_eq) where
  new_field :
      (v : List Pair) (k y : Member)
      → Once v
      → find_in v k ≡ none
      → Sets {m = m} (small v) k y (set_small v k y none)
  new_field v k y once absent =
      let n = length (v ++ (k, y) ∷ []) in
      let all = snoc-Once v k y absent once in
      let found = λ (j : Member). find-snoc v k y j absent in
      elim (Bool-cases (ltb hash_max_small n)) [
        | inl more ↦ rw more (tt, (λ j. promoted m (v ++ (k, y) ∷ []) j all ∙ found j), sym absent)
        | inr fits ↦
            let bound : n ≤ hash_max_small = ground (arith, fits) in
            rw fits ((all, bound), found, sym absent)
      ]

  old_field :
      (v : List Pair) (k y : Member) (i : ℕ)
      → ValidRepr {m = m} (small v)
      → position v k ≡ some i
      → Sets {m = m} (small v) k y (set_small v k y (some i))
  old_field v k y i valid e =
      let there : is_some (find_in v k) ≡ true =
        sym (any_field_lem v k) ∙ sym (position_lem v k) ∙ ap is_some e in
      let same : replaced_at v (some i) y ≡ replaced_at v (position v k) y =
        ap (λ o. replaced_at v o y) (sym e) in
      let found : (j : Member)
          → find_in (replaced_at v (position v k) y) j
            ≡ (if bytes_eq k j then some y else find_in v j) =
        λ j. find-replaced_at v k y j ∙ elim (Bool-cases (bytes_eq k j)) [
          | inl h ↦
              let s = bytes_eq→eq k j h in
              rw h (over-some (find_in v j) y (ap (λ x. is_some (find_in v x)) (sym s) ∙ there))
          | inr h ↦ rw h refl
        ] in
      let size = length-replaced_at v (position v k) y in
      let bound = valid.1 in
      rw same (
        (replaced_at-Once v k y valid.0, omega (arith, size, bound)),
        found,
        ap (value_at v) (sym e) ∙ value_at-position v k,
      )

module _ {m : HashMap Member bytes_eq} where
  pub set_in_lem : (r : HashRepr m) (k y : Member) → ValidRepr r → Sets r k y (set_in r k y)
  set_in_lem (small v) k y valid = elim (Option-cases (position v k)) [
    | inl e ↦ rw e (new_field m v k y valid.0 (sym (value_at-position v k) ∙ ap (value_at v) e))
    | inr e ↦ rw (e.1) (old_field m v k y e.0 valid e.1)
  ]
  set_in_lem (large t) k y valid = (tt, (λ j. m.lookup_put t k y j), refl)

  pub remove_from_lem : (r : HashRepr m) (k : Member) → ValidRepr r → Removes r k (remove_from r k)
  remove_from_lem (small v) k valid =
      let shorter = length-removed_at v (position v k) in
      let bound = valid.1 in
      (
        (removed_at-Once v k valid.0, omega (arith, shorter, bound)),
        (λ j. find-removed_at v k j valid.0),
        value_at-position v k,
      )
  remove_from_lem (large t) k valid = (tt, (λ j. m.lookup_delete t k j), refl)

module _ {m : HashMap Member bytes_eq} (l : Listing m) where
  pub expiry_without_lem :
      (exp : Option (m.Table ℕ)) (f j : Member)
      → expiry_in m (expiry_without m exp f) j ≡ (if bytes_eq f j then none else expiry_in m exp j)
  expiry_without_lem none f j = elim (Bool-cases (bytes_eq f j)) [
    | inl h ↦ rw h refl
    | inr h ↦ rw h refl
  ]
  expiry_without_lem (some exp) f j =
      unless_empty_lem l (m.delete exp f) j ∙ m.lookup_delete exp f j
