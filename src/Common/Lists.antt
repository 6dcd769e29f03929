-- ===== src/Common/Lists.antt =====
-- Lists measured and indexed by native numbers, under the library's names.
use Prim.Native.Nat.{ℕ, zero, suc, ◌+◌, ◌-◌, ◌≤◌, ◌<◌, min}
use mathlib.Core.Path.{◌≡◌, refl, ap, ◌∙◌}
use mathlib.Core.List.{List, [], ◌∷◌, ◌++◌}
use mathlib.Core.Option.{Option, none, some}
use native.Mathlib.Omega.{arith}
use dragonflydb_rs.Common.Tests.{leb, if◌then◌else◌}

module _ {ℓ} {A : Type ℓ} where
  abbrev pub length : List A → ℕ
  length [] = 0
  length (x ∷ xs) = suc (length xs)

  abbrev pub get_elem? : List A → ℕ → Option A
  get_elem? [] i = none
  get_elem? (x ∷ xs) zero = some x
  get_elem? (x ∷ xs) (suc i) = get_elem? xs i

  -- A write out of bounds changes nothing.
  abbrev pub set : List A → ℕ → A → List A
  set [] i v = []
  set (x ∷ xs) zero v = v ∷ xs
  set (x ∷ xs) (suc i) v = x ∷ set xs i v

  abbrev pub take : ℕ → List A → List A
  take zero xs = []
  take (suc n) [] = []
  take (suc n) (x ∷ xs) = x ∷ take n xs

  abbrev pub drop : ℕ → List A → List A
  drop zero xs = xs
  drop (suc n) [] = []
  drop (suc n) (x ∷ xs) = drop n xs

  -- `Vec::insert`, for a position at most the length.
  abbrev pub insert_at : ℕ → A → List A → List A
  insert_at zero v xs = v ∷ xs
  insert_at (suc n) v [] = v ∷ []
  insert_at (suc n) v (x ∷ xs) = x ∷ insert_at n v xs

  -- The last element, and all but the last.
  abbrev pub last? : List A → Option A
  last? [] = none
  last? (x ∷ []) = some x
  last? (x ∷ y ∷ xs) = last? (y ∷ xs)

  abbrev pub init : List A → List A
  init [] = []
  init (x ∷ []) = []
  init (x ∷ y ∷ xs) = x ∷ init (y ∷ xs)

  pub length-append : (xs ys : List A) → length (xs ++ ys) ≡ length xs + length ys
  length-append [] ys = omega arith
  length-append (x ∷ xs) ys = omega (arith, length-append xs ys)

  pub length-take : (n : ℕ) (xs : List A) → length (take n xs) ≡ min n (length xs)
  length-take zero xs = omega arith
  length-take (suc n) [] = omega arith
  length-take (suc n) (x ∷ xs) = omega (arith, length-take n xs)

  pub length-drop : (n : ℕ) (xs : List A) → length (drop n xs) ≡ length xs - n
  length-drop zero xs = omega arith
  length-drop (suc n) [] = omega arith
  length-drop (suc n) (x ∷ xs) = omega (arith, length-drop n xs)

  pub take-append-drop : (n : ℕ) (xs : List A) → take n xs ++ drop n xs ≡ xs
  take-append-drop zero xs = refl
  take-append-drop (suc n) [] = refl
  take-append-drop (suc n) (x ∷ xs) = ap (◌∷◌ x) (take-append-drop n xs)

  -- A prefix of known length is what `take` gives, and what `drop` leaves out.
  pub take_front : (xs ys : List A) → take (length xs) (xs ++ ys) ≡ xs
  take_front [] ys = refl
  take_front (x ∷ xs) ys = ap (◌∷◌ x) (take_front xs ys)

  pub drop_front : (xs ys : List A) → drop (length xs) (xs ++ ys) ≡ ys
  drop_front [] ys = refl
  drop_front (x ∷ xs) ys = drop_front xs ys

  pub get_elem?_front : (xs ys : List A) (y : A) → get_elem? (xs ++ y ∷ ys) (length xs) ≡ some y
  get_elem?_front [] ys y = refl
  get_elem?_front (x ∷ xs) ys y = get_elem?_front xs ys y

  pub length-insert_at : (n : ℕ) (v : A) (xs : List A) → length (insert_at n v xs) ≡ length xs + 1
  length-insert_at zero v xs = omega arith
  length-insert_at (suc n) v [] = refl
  length-insert_at (suc n) v (x ∷ xs) = omega (arith, length-insert_at n v xs)

  -- `buf.get(pos..pos + n)`
  unfoldable pub slice : List A → ℕ → ℕ → Option (List A)
  slice xs pos n = if leb (pos + n) (length xs) then some (take n (drop pos xs)) else none

module _ {ℓ} {A : Type ℓ} where
  pub length-set : (xs : List A) (i : ℕ) (v : A) → length (set xs i v) ≡ length xs
  length-set [] i v = refl
  length-set (x ∷ xs) zero v = refl
  length-set (x ∷ xs) (suc i) v = omega (arith, length-set xs i v)

  pub init-snoc : (xs : List A) (x : A) → init (xs ++ x ∷ []) ≡ xs
  init-snoc [] x = refl
  init-snoc (y ∷ []) x = refl
  init-snoc (y ∷ z ∷ xs) x = ap (◌∷◌ y) (init-snoc (z ∷ xs) x)

  -- Reading behind a known prefix.
  pub get_elem?-append :
      (xs ys : List A) (i : ℕ) → get_elem? (xs ++ ys) (length xs + i) ≡ get_elem? ys i
  get_elem?-append [] ys i = ap (get_elem? ys) (omega arith)
  get_elem?-append (x ∷ xs) ys i =
      let e : suc (length xs) + i ≡ suc (length xs + i) = omega arith in
      rw e (get_elem?-append xs ys i)

  pub drop-append : (xs ys : List A) (i : ℕ) → drop (length xs + i) (xs ++ ys) ≡ drop i ys
  drop-append [] ys i = ap (λ n. drop n ys) (omega arith)
  drop-append (x ∷ xs) ys i =
      let e : suc (length xs) + i ≡ suc (length xs + i) = omega arith in rw e (drop-append xs ys i)

  pub slice-append : (xs ys : List A) (i n : ℕ) → slice (xs ++ ys) (length xs + i) n ≡ slice ys i n
  unfolding slice
  slice-append xs ys i n = rw (drop-append xs ys i, length-append xs ys) (ground arith)

  pub slice_front : (xs ys : List A) → slice (xs ++ ys) 0 (length xs) ≡ some xs
  unfolding slice
  slice_front xs ys = rw (take_front xs ys, length-append xs ys) (ground arith)

  pub slice_middle :
      (xs ys zs : List A) → slice (xs ++ (ys ++ zs)) (length xs) (length ys) ≡ some ys
  slice_middle xs ys zs =
      let e : length xs ≡ length xs + 0 = omega arith in
      ap (λ n. slice (xs ++ (ys ++ zs)) n (length ys)) e
      ∙ slice-append xs (ys ++ zs) 0 (length ys)
      ∙ slice_front ys zs

module _ {ℓ κ} {A : Type ℓ} where
  abbrev pub All : (A → Type κ) → List A → Type κ
  All P [] = Unit
  All P (x ∷ xs) = P x × All P xs

  pub All-append : (P : A → Type κ) (xs ys : List A) → All P xs → All P ys → All P (xs ++ ys)
  All-append P [] ys hx hy = hy
  All-append P (x ∷ xs) ys hx hy = (hx.0, All-append P xs ys hx.1 hy)

module _ {ℓ} {A : Type ℓ} where
  pub get_elem?-eq_some : (xs : List A) (i : ℕ) {x : A} → get_elem? xs i ≡ some x → i < length xs
  get_elem?-eq_some [] i h = cc
  get_elem?-eq_some (x ∷ xs) zero h = omega arith
  get_elem?-eq_some (x ∷ xs) (suc i) h = omega (arith, get_elem?-eq_some xs i h)

  pub get_elem?-eq_none : (xs : List A) (i : ℕ) → get_elem? xs i ≡ none → length xs ≤ i
  get_elem?-eq_none [] i h = omega arith
  get_elem?-eq_none (x ∷ xs) zero h = cc
  get_elem?-eq_none (x ∷ xs) (suc i) h = omega (arith, get_elem?-eq_none xs i h)

-- The `n` numbers from `start` on.
abbrev pub numbers : ℕ → ℕ → List ℕ
numbers start zero = []
numbers start (suc n) = start ∷ numbers (suc start) n

pub numbers_snoc : (start n : ℕ) → numbers start n ++ (start + n) ∷ [] ≡ numbers start (suc n)
numbers_snoc start zero = ap (λ k. k ∷ []) (omega arith)
numbers_snoc start (suc n) =
    ap (◌∷◌ start)
      (ap (λ k. numbers (suc start) n ++ k ∷ []) (omega arith) ∙ numbers_snoc (suc start) n)

-- `buf[i]`, at an index that the code has checked.
abbrev pub byte_at : List ℕ → ℕ → ℕ
byte_at [] i = 0
byte_at (x ∷ xs) zero = x
byte_at (x ∷ xs) (suc i) = byte_at xs i

abbrev pub sum : List ℕ → ℕ
sum [] = 0
sum (x ∷ xs) = x + sum xs

pub sum-append : (xs ys : List ℕ) → sum (xs ++ ys) ≡ sum xs + sum ys
sum-append [] ys = omega arith
sum-append (x ∷ xs) ys = omega (arith, sum-append xs ys)
