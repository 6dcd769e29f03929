-- ===== src/Core/Set/Small.antt =====
-- src/core/set.rs: the members of a small set, a vector that names none of them twice.
use dragonflydb_rs.Common.{
  ℕ, ◌≡◌, refl, sym, ap, ◌∙◌, inl, inr, arith, true, false, ◌||◌, List, [], ◌∷◌, ◌++◌, Option, none,
  some, init, if◌then◌else◌, bytes_eq, bytes_eq→eq, Bool-cases,
}
use dragonflydb_rs.Core.Set.{
  Member, any_eq, one_more, position, last_of, last_first, removed_at, is_some,
}

-- No member stands twice.
abbrev pub Distinct : List Member → Type 0
Distinct [] = Unit
Distinct (x ∷ v) = (any_eq v x ≡ false) × Distinct v

pub bytes_eq_sym : (a b : Member) → bytes_eq a b ≡ bytes_eq b a
bytes_eq_sym a b = elim (Bool-cases (bytes_eq a b)) [
  | inl e ↦ let s = bytes_eq→eq a b e in rw s refl
  | inr e ↦ elim (Bool-cases (bytes_eq b a)) [
    | inl h ↦ let s = bytes_eq→eq b a h in rw s refl
    | inr h ↦ e ∙ sym h
  ]
]

-- The same members, with the last one in front.
any_last :
    (x : Member) (v : List Member) (k : Member)
    → (bytes_eq (last_of x v) k || any_eq (init (x ∷ v)) k) ≡ (bytes_eq x k || any_eq v k)
any_last x [] k = refl
any_last x (y ∷ v) k = let rest = any_last y v k in ground (arith, rest)

pub any-last_first : (v : List Member) (k : Member) → any_eq (last_first v) k ≡ any_eq v k
any-last_first [] k = refl
any-last_first (x ∷ v) k = any_last x v k

last_apart :
    (x : Member) (v : List Member) → Distinct (x ∷ v) → any_eq (init (x ∷ v)) (last_of x v) ≡ false
last_apart x [] d = refl
last_apart x (y ∷ v) d =
    let rest = last_apart y v d.1 in
    let found : (bytes_eq (last_of y v) x || any_eq (init (y ∷ v)) x) ≡ false =
      any_last y v x ∙ d.0 in
    let flip = bytes_eq_sym x (last_of y v) in ground (arith, rest, found, flip)

init-Distinct : (x : Member) (v : List Member) → Distinct (x ∷ v) → Distinct (init (x ∷ v))
init-Distinct x [] d = tt
init-Distinct x (y ∷ v) d =
    let found : (bytes_eq (last_of y v) x || any_eq (init (y ∷ v)) x) ≡ false =
      any_last y v x ∙ d.0 in
    (ground (arith, found), init-Distinct y v d.1)

last_first-Distinct : (v : List Member) → Distinct v → Distinct (last_first v)
last_first-Distinct [] d = tt
last_first-Distinct (x ∷ v) d = (last_apart x v d, init-Distinct x v d)

removed_more :
    (x : Member) (v : List Member) (o : Option ℕ)
    → removed_at (x ∷ v) (one_more o) ≡ x ∷ removed_at v o
removed_more x v none = refl
removed_more x v (some i) = refl

some_more : (o : Option ℕ) → is_some (one_more o) ≡ is_some o
some_more none = refl
some_more (some i) = refl

pub position_lem : (v : List Member) (k : Member) → is_some (position v k) ≡ any_eq v k
position_lem [] k = refl
position_lem (x ∷ v) k = elim (Bool-cases (bytes_eq x k)) [
  | inl e ↦ rw e refl
  | inr e ↦ rw e (some_more (position v k) ∙ position_lem v k)
]

-- Members that are equal to a third one.
pub same_as : (x k j : Member) → bytes_eq k j ≡ true → bytes_eq x j ≡ bytes_eq x k
same_as x k j e = let s = bytes_eq→eq k j e in rw s refl

first_removed :
    (x : Member) (v : List Member) (k j : Member)
    → any_eq v x ≡ false
    → bytes_eq x k ≡ true
    → any_eq (last_first v) j ≡ (if bytes_eq k j then false else bytes_eq x j || any_eq v j)
first_removed x v k j apart e =
    let here = bytes_eq→eq x k e in
    any-last_first v j ∙ elim (Bool-cases (bytes_eq k j)) [
      | inl h ↦ let s = bytes_eq→eq k j h in rw h (ap (any_eq v) (sym (here ∙ s)) ∙ apart)
      | inr h ↦ rw (here, h) refl
    ]

-- What is left of a vector without one of its members.
pub any-removed_at :
    (v : List Member) (k j : Member)
    → Distinct v
    → any_eq (removed_at v (position v k)) j ≡ (if bytes_eq k j then false else any_eq v j)
any-removed_at [] k j d = elim (Bool-cases (bytes_eq k j)) [ inl e ↦ rw e refl | inr e ↦ rw e refl ]
any-removed_at (x ∷ v) k j d = elim (Bool-cases (bytes_eq x k)) [
  | inl e ↦ rw e (first_removed x v k j d.0 e)
  | inr e ↦
      let rest = any-removed_at v k j d.1 in
      rw (e, removed_more x v (position v k), rest)
        (elim (Bool-cases (bytes_eq k j)) [
          | inl h ↦ rw (same_as x k j h, h, e) refl
          | inr h ↦ rw h refl
        ])
]

pub removed_at-Distinct :
    (v : List Member) (k : Member) → Distinct v → Distinct (removed_at v (position v k))
removed_at-Distinct [] k d = tt
removed_at-Distinct (x ∷ v) k d = elim (Bool-cases (bytes_eq x k)) [
  | inl e ↦ rw e (last_first-Distinct v d.1)
  | inr e ↦
      let left = any-removed_at v k x d.1 in
      let gone : any_eq (removed_at v (position v k)) x ≡ false =
        left ∙ elim (Bool-cases (bytes_eq k x)) [ inl h ↦ rw h refl | inr h ↦ rw h d.0 ] in
      rw (e, removed_more x v (position v k)) (gone, removed_at-Distinct v k d.1)
]

any_eq-append : (v w : List Member) (k : Member) → any_eq (v ++ w) k ≡ (any_eq v k || any_eq w k)
any_eq-append [] w k = refl
any_eq-append (x ∷ v) w k = let rest = any_eq-append v w k in ground (arith, rest)

pub any_eq-snoc :
    (v : List Member) (k j : Member) → any_eq (v ++ k ∷ []) j ≡ (bytes_eq k j || any_eq v j)
any_eq-snoc v k j = let both = any_eq-append v (k ∷ []) j in ground (arith, both)

pub snoc-Distinct :
    (v : List Member) (k : Member) → any_eq v k ≡ false → Distinct v → Distinct (v ++ k ∷ [])
snoc-Distinct [] k new d = (refl, tt)
snoc-Distinct (x ∷ v) k new d =
    let both = any_eq-snoc v k x in
    let flip = bytes_eq_sym k x in
    let old = d.0 in
    (ground (arith, both, flip, new, old), snoc-Distinct v k (ground (arith, new)) d.1)
