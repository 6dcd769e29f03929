-- ===== src/Core/Hash/Small.antt =====
-- src/core/hash.rs: the fields of a small hash, a vector that names none of them twice.
use dragonflydb_rs.Common.{
  ℕ, ◌≡◌, refl, sym, ap, ◌∙◌, inl, inr, arith, false, List, [], ◌∷◌, ◌++◌, Option, none, some, init,
  if◌then◌else◌, bytes_eq, bytes_eq→eq, Bool-cases,
}
use dragonflydb_rs.Core.HashMap.Entries.{find_in, Once}
use dragonflydb_rs.Core.Set.{Member, is_some, one_more, last_of, last_first, removed_at}
use dragonflydb_rs.Core.Set.Small.{bytes_eq_sym, same_as}
use dragonflydb_rs.Core.Hash.{Pair, any_field, position, value_at, replaced_at}

pub any_field_lem : (v : List Pair) (k : Member) → any_field v k ≡ is_some (find_in v k)
any_field_lem [] k = refl
any_field_lem ((f, x) ∷ v) k = elim (Bool-cases (bytes_eq f k)) [
  | inl e ↦ rw e refl
  | inr e ↦ rw e (any_field_lem v k)
]

value_more :
    (x : Pair) (v : List Pair) (o : Option ℕ) → value_at (x ∷ v) (one_more o) ≡ value_at v o
value_more x v none = refl
value_more x v (some i) = refl

-- The value at the position of a field is the one that a search finds.
pub value_at-position : (v : List Pair) (k : Member) → value_at v (position v k) ≡ find_in v k
value_at-position [] k = refl
value_at-position ((f, x) ∷ v) k = elim (Bool-cases (bytes_eq f k)) [
  | inl e ↦ rw e refl
  | inr e ↦ rw e (value_more (f, x) v (position v k) ∙ value_at-position v k)
]

-- A new value in place of another.
abbrev pub over : Member → Option Member → Option Member
over y none = none
over y (some x) = some y

replaced_more :
    (x : Pair) (v : List Pair) (o : Option ℕ) (y : Member)
    → replaced_at (x ∷ v) (one_more o) y ≡ x ∷ replaced_at v o y
replaced_more x v none y = refl
replaced_more x v (some i) y = refl

-- What is found once the value of a field has been replaced.
pub find-replaced_at :
    (v : List Pair) (k y j : Member)
    → find_in (replaced_at v (position v k) y) j
      ≡ (if bytes_eq k j then over y (find_in v j) else find_in v j)
find-replaced_at [] k y j = elim (Bool-cases (bytes_eq k j)) [
  | inl h ↦ rw h refl
  | inr h ↦ rw h refl
]
find-replaced_at ((f, x) ∷ v) k y j = elim (Bool-cases (bytes_eq f k)) [
  | inl e ↦
      let s = bytes_eq→eq f k e in
      rw (e, sym s) (elim (Bool-cases (bytes_eq f j)) [ inl h ↦ rw h refl | inr h ↦ rw h refl ])
  | inr e ↦
      let rest = find-replaced_at v k y j in
      rw (e, replaced_more (f, x) v (position v k) y, rest)
        (elim (Bool-cases (bytes_eq k j)) [
          | inl h ↦ let other = same_as f k j h ∙ e in rw (h, other) refl
          | inr h ↦ rw h refl
        ])
]

pub replaced_at-Once :
    (v : List Pair) (k y : Member) → Once v → Once (replaced_at v (position v k) y)
replaced_at-Once [] k y once = tt
replaced_at-Once ((f, x) ∷ v) k y once = elim (Bool-cases (bytes_eq f k)) [
  | inl e ↦ rw e once
  | inr e ↦
      let absent = once.0 in
      let left : find_in (replaced_at v (position v k) y) f ≡ none =
        find-replaced_at v k y f
        ∙ elim (Bool-cases (bytes_eq k f)) [ inl h ↦ rw (h, absent) refl | inr h ↦ rw h absent ] in
      rw (e, replaced_more (f, x) v (position v k) y) (left, replaced_at-Once v k y once.1)
]

-- What is not found is neither in front nor behind.
not_found :
    (z : Pair) (w : List Pair) (j : Member)
    → find_in (z ∷ w) j ≡ none
    → (bytes_eq z.0 j ≡ false) × (find_in w j ≡ none)
not_found z w j h = elim (Bool-cases (bytes_eq z.0 j)) [
  | inl e ↦
      let found : some z.1 ≡ none = ap (λ b. if b then some z.1 else find_in w j) (sym e) ∙ h in
      absurd (ground (arith, found))
  | inr e ↦ (e, ap (λ b. if b then some z.1 else find_in w j) (sym e) ∙ h)
]

-- A vector without repetition with the last pair in front.
find_last :
    (x : Pair) (v : List Pair) (j : Member)
    → Once (x ∷ v)
    → find_in (last_of x v ∷ init (x ∷ v)) j ≡ find_in (x ∷ v) j
find_last x [] j once = refl
find_last x (y ∷ v) j once =
    let rest = find_last y v j once.1 in
    elim (Bool-cases (bytes_eq x.0 j)) [
      | inl h ↦
          let s = bytes_eq→eq x.0 j h in
          let gone : find_in (last_of y v ∷ init (y ∷ v)) j ≡ none =
            rest ∙ ap (find_in (y ∷ v)) (sym s) ∙ once.0 in
          let first = (not_found (last_of y v) (init (y ∷ v)) j gone).0 in rw (first, h) refl
      | inr h ↦ rw h rest
    ]

last_absent :
    (x y : Pair) (v : List Pair)
    → Once (x ∷ y ∷ v)
    → (bytes_eq (last_of y v).0 x.0 ≡ false) × (find_in (init (y ∷ v)) x.0 ≡ none)
last_absent x y v once =
    not_found (last_of y v) (init (y ∷ v)) x.0 (find_last y v x.0 once.1 ∙ once.0)

last_alone :
    (x : Pair) (v : List Pair) → Once (x ∷ v) → find_in (init (x ∷ v)) (last_of x v).0 ≡ none
last_alone x [] once = refl
last_alone x (y ∷ v) once =
    let apart = bytes_eq_sym x.0 (last_of y v).0 ∙ (last_absent x y v once).0 in
    rw apart (last_alone y v once.1)

init-Once : (x : Pair) (v : List Pair) → Once (x ∷ v) → Once (init (x ∷ v))
init-Once x [] once = tt
init-Once x (y ∷ v) once = ((last_absent x y v once).1, init-Once y v once.1)

find-last_first : (v : List Pair) (j : Member) → Once v → find_in (last_first v) j ≡ find_in v j
find-last_first [] j once = refl
find-last_first (x ∷ v) j once = find_last x v j once

last_first-Once : (v : List Pair) → Once v → Once (last_first v)
last_first-Once [] once = tt
last_first-Once (x ∷ v) once = (last_alone x v once, init-Once x v once)

removed_more :
    (x : Pair) (v : List Pair) (o : Option ℕ) → removed_at (x ∷ v) (one_more o) ≡ x ∷ removed_at v o
removed_more x v none = refl
removed_more x v (some i) = refl

-- What is found once a field has been removed.
pub find-removed_at :
    (v : List Pair) (k j : Member)
    → Once v
    → find_in (removed_at v (position v k)) j ≡ (if bytes_eq k j then none else find_in v j)
find-removed_at [] k j once = elim (Bool-cases (bytes_eq k j)) [
  | inl h ↦ rw h refl
  | inr h ↦ rw h refl
]
find-removed_at ((f, x) ∷ v) k j once = elim (Bool-cases (bytes_eq f k)) [
  | inl e ↦
      let s = bytes_eq→eq f k e in
      rw (e, sym s)
        (find-last_first v j once.1 ∙ elim (Bool-cases (bytes_eq f j)) [
          | inl h ↦ let g = bytes_eq→eq f j h in rw h (ap (find_in v) (sym g) ∙ once.0)
          | inr h ↦ rw h refl
        ])
  | inr e ↦
      let rest = find-removed_at v k j once.1 in
      rw (e, removed_more (f, x) v (position v k), rest)
        (elim (Bool-cases (bytes_eq k j)) [
          | inl h ↦ let other = same_as f k j h ∙ e in rw (h, other) refl
          | inr h ↦ rw h refl
        ])
]

pub removed_at-Once : (v : List Pair) (k : Member) → Once v → Once (removed_at v (position v k))
removed_at-Once [] k once = tt
removed_at-Once ((f, x) ∷ v) k once = elim (Bool-cases (bytes_eq f k)) [
  | inl e ↦ rw e (last_first-Once v once.1)
  | inr e ↦
      let absent = once.0 in
      let left : find_in (removed_at v (position v k)) f ≡ none =
        find-removed_at v k f once.1
        ∙ elim (Bool-cases (bytes_eq k f)) [ inl h ↦ rw h refl | inr h ↦ rw h absent ] in
      rw (e, removed_more (f, x) v (position v k)) (left, removed_at-Once v k once.1)
]

pub find-snoc :
    (v : List Pair) (k y j : Member)
    → find_in v k ≡ none
    → find_in (v ++ (k, y) ∷ []) j ≡ (if bytes_eq k j then some y else find_in v j)
find-snoc [] k y j new = refl
find-snoc ((f, x) ∷ v) k y j new =
    let absent = not_found (f, x) v k new in
    let rest = find-snoc v k y j absent.1 in
    rw rest (elim (Bool-cases (bytes_eq k j)) [
      | inl h ↦ let other = same_as f k j h ∙ absent.0 in rw (h, other) refl
      | inr h ↦ rw h refl
    ])

pub snoc-Once :
    (v : List Pair) (k y : Member) → find_in v k ≡ none → Once v → Once (v ++ (k, y) ∷ [])
snoc-Once [] k y new once = (refl, tt)
snoc-Once ((f, x) ∷ v) k y new once =
    let absent = not_found (f, x) v k new in
    let apart = bytes_eq_sym k f ∙ absent.0 in
    let old = once.0 in (find-snoc v k y f absent.1 ∙ rw apart old, snoc-Once v k y absent.1 once.1)
