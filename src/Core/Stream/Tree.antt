-- ===== src/Core/Stream/Tree.antt =====
-- The `BTreeMap`s of src/core/stream.rs: a list of entries in the order of their keys.
use dragonflydb_rs.Common.{
  ◌≡◌, refl, ap, arith, true, List, [], ◌∷◌, ◌++◌, Option, none, some, Bool-cases, inl, inr,
  if◌then◌else◌,
}
use dragonflydb_rs.Core.Stream.Id.{
  StreamId, less, same, same→eq, less_trans, less-ne, less-asym, same_join,
}

abbrev pub Tree : Type 0 → Type 0
Tree V = List (StreamId × V)

module _ {V : Type 0} where
  unfoldable pub get : StreamId → Tree V → Option V
  get k [] = none
  get k ((j, v) ∷ t) = if same j k then some v else get k t

  unfoldable pub insert : StreamId → V → Tree V → Tree V
  insert k v [] = (k, v) ∷ []
  insert k v ((j, w) ∷ t) =
      if less k j
      then (k, v) ∷ (j, w) ∷ t
      else if same j k
      then (k, v) ∷ t
      else (j, w) ∷ insert k v t

  unfoldable pub remove : StreamId → Tree V → Tree V
  remove k [] = []
  remove k ((j, v) ∷ t) = if same j k then t else (j, v) ∷ remove k t

  -- `get_mut`, and a change of what it finds.
  unfoldable pub modify : StreamId → (V → V) → Tree V → Tree V
  modify k f [] = []
  modify k f ((j, v) ∷ t) = if same j k then (j, f v) ∷ t else (j, v) ∷ modify k f t

  -- `range((Excluded(k), Unbounded))` and `range(k..)`
  unfoldable pub after : StreamId → Tree V → Tree V
  after k [] = []
  after k ((j, v) ∷ t) = let rest = after k t in if less k j then (j, v) ∷ t else rest

  unfoldable pub from : StreamId → Tree V → Tree V
  from k [] = []
  from k ((j, v) ∷ t) = let rest = from k t in if less j k then rest else (j, v) ∷ t

  abbrev pub keys : Tree V → List StreamId
  keys [] = []
  keys ((j, v) ∷ t) = j ∷ keys t

-- All ids of a list lie above a bound, and a list goes up.
abbrev pub Above : StreamId → List StreamId → Type 0
Above b [] = Unit
Above b (j ∷ js) = (less b j ≡ true) × Above b js

abbrev pub Ascending : List StreamId → Type 0
Ascending [] = Unit
Ascending (j ∷ js) = Above j js × Ascending js

pub Above-trans : (a b : StreamId) (js : List StreamId) → less a b ≡ true → Above b js → Above a js
Above-trans a b [] p h = tt
Above-trans a b (j ∷ js) p h = (less_trans a b j p h.0, Above-trans a b js p h.1)

-- All ids of a list lie below a bound.
abbrev pub Below : List StreamId → StreamId → Type 0
Below [] b = Unit
Below (j ∷ js) b = (less j b ≡ true) × Below js b

pub Above-snoc :
    (a b : StreamId) (js : List StreamId) → Above a js → less a b ≡ true → Above a (js ++ b ∷ [])
Above-snoc a b [] h p = (p, tt)
Above-snoc a b (j ∷ js) h p = (h.0, Above-snoc a b js h.1 p)

pub Ascending-snoc :
    (js : List StreamId) (b : StreamId) → Ascending js → Below js b → Ascending (js ++ b ∷ [])
Ascending-snoc [] b h p = (tt, tt)
Ascending-snoc (j ∷ js) b h p = (Above-snoc j b js h.0 p.0, Ascending-snoc js b h.1 p.1)

module _ {V : Type 0} where
  pub get-insert :
      (t : Tree V) (k j : StreamId) (v : V)
      → get j (insert k v t) ≡ (if same k j then some v else get j t)
  unfolding get insert
  get-insert [] k j v = refl
  get-insert ((i, w) ∷ t) k j v = elim (Bool-cases (less k i)) [
    | inl before ↦ rw before refl
    | inr not_before ↦ elim (Bool-cases (same i k)) [
      | inl this ↦ let e : i ≡ k = same→eq i k this in rw (not_before, this) (rw e (ground arith))
      | inr other ↦ rw (not_before, other) (ground (arith, get-insert t k j v, same_join i k j))
    ]
  ]

  pub keys-modify : (t : Tree V) (k : StreamId) (f : V → V) → keys (modify k f t) ≡ keys t
  unfolding modify
  keys-modify [] k f = refl
  keys-modify ((i, w) ∷ t) k f = elim (Bool-cases (same i k)) [
    | inl this ↦ rw this refl
    | inr other ↦ rw other (ap (◌∷◌ i) (keys-modify t k f))
  ]

  -- A key above all others goes to the end.
  pub insert_last :
      (t : Tree V) (k : StreamId) (v : V) → Below (keys t) k → insert k v t ≡ t ++ (k, v) ∷ []
  unfolding insert
  insert_last [] k v h = refl
  insert_last ((i, w) ∷ t) k v h =
      let asym = less-asym i k h.0 in
      let other = less-ne i k h.0 in rw (asym, other) (ap (◌∷◌ (i, w)) (insert_last t k v h.1))

  pub keys-append : (t u : Tree V) → keys (t ++ u) ≡ keys t ++ keys u
  keys-append [] u = refl
  keys-append ((i, w) ∷ t) u = ap (◌∷◌ i) (keys-append t u)
