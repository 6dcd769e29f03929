-- ===== src/Core/Set/Shows.antt =====
-- src/core/set.rs: what the operations do to the members and their expiries, in either representation.
use dragonflydb_rs.Common.{
  ℕ, zero, suc, ◌≤◌, ◌≡◌, refl, sym, ap, ◌∙◌, inl, inr, arith, Bool, true, false, not, ◌||◌, List,
  [], ◌∷◌, ◌++◌, Option, none, some, length, init, ltb, leb, ◌==◌, ==_iff, if◌then◌else◌, bytes_eq,
  bytes_eq→eq, Bool-cases,
}
use dragonflydb_rs.Core.HashMap.{HashMap}
use dragonflydb_rs.Core.HashMap.Entries.{Listing, find_in, Once}
use dragonflydb_rs.Core.Set.{
  Member, is_some, any_eq, position, last_first, swap_remove, removed_at, set_max_small, expired,
  SetRepr, small, large, collect, delete_all, unless_empty, expiry_in, repr_contains, add_to,
  remove_from, remove_all,
}
use dragonflydb_rs.Core.Set.Small.{
  Distinct, position_lem, any-removed_at, removed_at-Distinct, any_eq-snoc, snoc-Distinct,
}

module _ {A : Type 0} where
  length-init : (x : A) (v : List A) → length (init (x ∷ v)) ≡ length v
  length-init x [] = refl
  length-init x (y ∷ v) = ap suc (length-init y v)

  length-last_first : (v : List A) → length (last_first v) ≡ length v
  length-last_first [] = refl
  length-last_first (x ∷ v) = ap suc (length-init x v)

  length-swap_remove : (v : List A) (i : ℕ) → length (swap_remove v i) ≤ length v
  length-swap_remove [] i = omega arith
  length-swap_remove (x ∷ v) zero = omega (arith, length-last_first v)
  length-swap_remove (x ∷ v) (suc i) = omega (arith, length-swap_remove v i)

  pub length-removed_at : (v : List A) (o : Option ℕ) → length (removed_at v o) ≤ length v
  length-removed_at v none = omega arith
  length-removed_at v (some i) = length-swap_remove v i

pub two_tests {ℓ} :
    {A : Type ℓ} (a b : Bool) (x y : A)
    → (if b then x else if a then x else y) ≡ (if a || b then x else y)
two_tests true true x y = refl
two_tests true false x y = refl
two_tests false true x y = refl
two_tests false false x y = refl

-- Whether a time has passed.
abbrev pub past : ℕ → Option ℕ → Bool
past now none = false
past now (some at) = leb at now

-- The expired members are those whose time has passed.
pub any-expired :
    (now : ℕ) (e : List (Member × ℕ)) (j : Member)
    → Once e
    → any_eq (expired now e) j ≡ past now (find_in e j)
any-expired now [] j once = refl
any-expired now ((k, at) ∷ e) j once =
    let rest = any-expired now e j once.1 in
    elim (Bool-cases (bytes_eq k j)) [
      | inl h ↦
          let s = bytes_eq→eq k j h in
          let alone : past now (find_in e j) ≡ false = rw (sym s, once.0) refl in
          elim (Bool-cases (leb at now)) [
            | inl due ↦ rw (due, h, due) refl
            | inr later ↦ rw (later, h, later) (rest ∙ alone)
          ]
      | inr h ↦ elim (Bool-cases (leb at now)) [
        | inl due ↦ rw (due, h) rest
        | inr later ↦ rw (later, h) rest
      ]
    ]

module _ (m : HashMap Member bytes_eq) where
  collect_lem :
      (v : List Member) (t : m.Table Unit) (j : Member)
      → is_some (m.lookup (collect m v t) j) ≡ (any_eq v j || is_some (m.lookup t j))
  collect_lem [] t j = refl
  collect_lem (k ∷ v) t j =
      let one = m.lookup_put t k tt j in
      let swap : (a b c : Bool) → (b || (if a then true else c)) ≡ ((a || b) || c) =
        λ a b c. ground arith in
      collect_lem v (m.put t k tt) j
      ∙ ap (λ o. any_eq v j || is_some o) one
      ∙ elim (Bool-cases (bytes_eq k j)) [ inl h ↦ rw h (ground arith) | inr h ↦ rw h refl ]

  promoted :
      (v : List Member) (j : Member)
      → is_some (m.lookup (collect m v (m.empty Unit)) j) ≡ any_eq v j
  promoted v j =
      let nothing = m.lookup_empty Unit j in
      collect_lem v (m.empty Unit) j ∙ rw nothing (ground arith)

module _ {m : HashMap Member bytes_eq} where
  -- A small set keeps to its bound and names no member twice.
  abbrev pub ValidRepr : SetRepr m → Type 0
  ValidRepr (small v) = Distinct v × (length v ≤ set_max_small)
  ValidRepr (large t) = Unit

  -- What an addition makes of a representation.
  abbrev Adds : SetRepr m → Member → SetRepr m × Bool → Type 0
  Adds r k (after, added) =
      ValidRepr after
      × ((j : Member) → repr_contains after j ≡ (bytes_eq k j || repr_contains r j))
      × (added ≡ not (repr_contains r k))

  abbrev Removes : SetRepr m → Member → SetRepr m × Bool → Type 0
  Removes r k (after, removed) =
      ValidRepr after
      × ((j : Member) → repr_contains after j ≡ (if bytes_eq k j then false else repr_contains r j))
      × (removed ≡ repr_contains r k)

  pub add_to_lem : (r : SetRepr m) (k : Member) → ValidRepr r → Adds r k (add_to r k)
  add_to_lem (small v) k valid = elim (Bool-cases (any_eq v k)) [
    | inl there ↦
        let same : (j : Member) → any_eq v j ≡ (bytes_eq k j || any_eq v j) = λ j.
          elim (Bool-cases (bytes_eq k j)) [
            | inl h ↦ let s = bytes_eq→eq k j h in rw h (ap (any_eq v) (sym s) ∙ there)
            | inr h ↦ rw h refl
          ] in
        rw there (valid, same, refl)
    | inr new ↦
        let n = length (v ++ k ∷ []) in
        rw new (elim (Bool-cases (ltb set_max_small n)) [
          | inl over ↦ rw over (tt, (λ j. promoted m (v ++ k ∷ []) j ∙ any_eq-snoc v k j), refl)
          | inr fits ↦
              let bound : n ≤ set_max_small = ground (arith, fits) in
              rw fits ((snoc-Distinct v k new valid.0, bound), any_eq-snoc v k, refl)
        ])
  ]
  add_to_lem (large t) k valid =
      let one = λ (j : Member). m.lookup_put t k tt j in
      (
        tt,
        (λ j.
            ap is_some (one j)
            ∙ elim (Bool-cases (bytes_eq k j)) [ inl h ↦ rw h refl | inr h ↦ rw h refl ]),
        refl,
      )

  pub remove_from_lem : (r : SetRepr m) (k : Member) → ValidRepr r → Removes r k (remove_from r k)
  remove_from_lem (small v) k valid =
      let shorter = length-removed_at v (position v k) in
      let bound = valid.1 in
      (
        (removed_at-Distinct v k valid.0, omega (arith, shorter, bound)),
        (λ j. any-removed_at v k j valid.0),
        position_lem v k,
      )
  remove_from_lem (large t) k valid = (
    tt,
    (λ j.
        ap is_some (m.lookup_delete t k j)
        ∙ elim (Bool-cases (bytes_eq k j)) [ inl h ↦ rw h refl | inr h ↦ rw h refl ]),
    refl,
  )

  -- The removal of several members.
  pub remove_all_lem :
      (ks : List Member) (r : SetRepr m)
      → ValidRepr r
      → ValidRepr (remove_all ks r)
        × ((j : Member)
            → repr_contains (remove_all ks r) j
              ≡ (if any_eq ks j then false else repr_contains r j))
  remove_all_lem [] r valid = (valid, λ j. refl)
  remove_all_lem (k ∷ ks) r valid =
      let one = remove_from_lem r k valid in
      let more = remove_all_lem ks (remove_from r k).0 one.0 in
      (
        more.0,
        λ j.
            more.1 j
            ∙ ap (λ b. if any_eq ks j then false else b) (one.1 j)
            ∙ two_tests (bytes_eq k j) (any_eq ks j) false (repr_contains r j),
      )

module _ (m : HashMap Member bytes_eq) where
  pub delete_all_lem :
      (ks : List Member) (exp : m.Table ℕ) (j : Member)
      → m.lookup (delete_all m ks exp) j ≡ (if any_eq ks j then none else m.lookup exp j)
  delete_all_lem [] exp j = refl
  delete_all_lem (k ∷ ks) exp j =
      let one = m.lookup_delete exp k j in
      delete_all_lem ks (m.delete exp k) j
      ∙ ap (λ o. if any_eq ks j then none else o) one
      ∙ two_tests (bytes_eq k j) (any_eq ks j) none (m.lookup exp j)

module _ {m : HashMap Member bytes_eq} (l : Listing m) where
  no_entries : (e : List (Member × ℕ)) (j : Member) → length e ≡ 0 → find_in e j ≡ none
  no_entries [] j h = refl
  no_entries (x ∷ e) j h = absurd (omega (arith, h))

  pub unless_empty_lem :
      (exp : m.Table ℕ) (j : Member) → expiry_in m (unless_empty m exp) j ≡ m.lookup exp j
  unless_empty_lem exp j = elim (Bool-cases (m.size exp == 0)) [
    | inl e ↦
        let none_left : length (l.entries exp) ≡ 0 =
          l.length_entries exp ∙ (==_iff (m.size exp) 0).0 e in
        rw e (sym (no_entries (l.entries exp) j none_left) ∙ l.find_entries exp j)
    | inr e ↦ rw e refl
  ]
