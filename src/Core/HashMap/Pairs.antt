-- ===== src/Core/HashMap/Pairs.antt =====
-- A map that can be gone through as a list of pairs, for the examples: it shows that what is asked of
-- Entries.Listing can hold.
use dragonflydb_rs.Common.{
  ℕ, ◌≡◌, refl, sym, ap, ◌∙◌, inl, inr, false, List, [], ◌∷◌, none, length, if◌then◌else◌, bytes_eq,
  bytes_eq→eq, bytes_eq_self, Bool-cases,
}
use dragonflydb_rs.Core.HashMap.{HashMap}
use dragonflydb_rs.Core.HashMap.Entries.{Listing, find_in, Once}

module _ {V : Type 0} where
  abbrev pub without : List ℕ → List (List ℕ × V) → List (List ℕ × V)
  without k [] = []
  without k ((a, v) ∷ e) = let rest = without k e in if bytes_eq k a then rest else (a, v) ∷ rest

  -- The first pair of a key counts.
  abbrev pub latest : List (List ℕ × V) → List (List ℕ × V)
  latest [] = []
  latest ((k, v) ∷ e) = (k, v) ∷ without k (latest e)

  pub find_without :
      (k : List ℕ) (e : List (List ℕ × V)) (j : List ℕ)
      → find_in (without k e) j ≡ (if bytes_eq k j then none else find_in e j)
  find_without k [] j = elim (Bool-cases (bytes_eq k j)) [ inl h ↦ rw h refl | inr h ↦ rw h refl ]
  find_without k ((a, v) ∷ e) j =
      let rest = find_without k e j in
      elim (Bool-cases (bytes_eq k a)) [
        | inl same ↦
            let s = bytes_eq→eq k a same in
            rw (same, rest)
              (elim (Bool-cases (bytes_eq k j)) [
                | inl h ↦ rw h refl
                | inr h ↦
                    let other : bytes_eq a j ≡ false = ap (λ x. bytes_eq x j) (sym s) ∙ h in
                    rw (h, other) refl
              ])
        | inr other ↦ rw other (elim (Bool-cases (bytes_eq a j)) [
          | inl h ↦
              let s = bytes_eq→eq a j h in
              let apart : bytes_eq k j ≡ false = ap (bytes_eq k) (sym s) ∙ other in
              rw (h, apart) refl
          | inr h ↦ rw h rest
        ])
      ]

  pub find_latest : (e : List (List ℕ × V)) (j : List ℕ) → find_in (latest e) j ≡ find_in e j
  find_latest [] j = refl
  find_latest ((k, v) ∷ e) j = elim (Bool-cases (bytes_eq k j)) [
    | inl h ↦ rw h refl
    | inr h ↦ rw h (find_without k (latest e) j ∙ rw h (find_latest e j))
  ]

  without-Once : (k : List ℕ) (e : List (List ℕ × V)) → Once e → Once (without k e)
  without-Once k [] once = tt
  without-Once k ((a, v) ∷ e) once = elim (Bool-cases (bytes_eq k a)) [
    | inl h ↦ rw h (without-Once k e once.1)
    | inr h ↦ rw h (find_without k e a ∙ rw h (once.0), without-Once k e once.1)
  ]

  pub latest-Once : (e : List (List ℕ × V)) → Once (latest e)
  latest-Once [] = tt
  latest-Once ((k, v) ∷ e) =
      let self = bytes_eq_self k in
      (find_without k (latest e) k ∙ rw self refl, without-Once k (latest e) (latest-Once e))

abbrev pub pairs : HashMap (List ℕ) bytes_eq
pairs = record {
  Table = λ V. List (List ℕ × V);
  empty = λ V. [];
  lookup = λ {V} t k. find_in t k;
  put = λ {V} t k v. (k, v) ∷ t;
  delete = λ {V} t k. without k t;
  size = λ {V} t. length (latest t);
  lookup_empty = λ V k. refl;
  lookup_put = λ {V} t k v j. refl;
  lookup_delete = λ {V} t k j. find_without k t j;
}

abbrev pub pairs_listing : Listing pairs
pairs_listing = record {
  entries = λ {V} t. latest t;
  find_entries = λ {V} t k. find_latest t k;
  entries_once = λ {V} t. latest-Once t;
  length_entries = λ {V} t. refl;
}
