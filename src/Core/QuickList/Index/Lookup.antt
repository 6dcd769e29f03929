-- ===== src/Core/QuickList/Index/Lookup.antt =====
-- src/core/quicklist.rs: `get`, `set` and `range` against the plain list of items.
use dragonflydb_rs.Common.{
  length-set, ℕ, zero, suc, ◌+◌, ◌-◌, ◌≤◌, ◌<◌, ◌≡◌, refl, ap, sym, ◌∙◌, arith, List, [], ◌∷◌, ◌++◌,
  Option, none, some, length, All, get_elem?, set, take, drop, Bool-cases, Option-cases, inl, inr,
  ltb, ltb→lt, ◌>>=◌,
}
use dragonflydb_rs.Common.Int.{ℤ, pos, pos_part}
use dragonflydb_rs.Util.Range.{redis_range}
use dragonflydb_rs.Core.QuickList.Item.{ListItem, byte_len}
use dragonflydb_rs.Core.QuickList.Chunk.{Chunk}
use dragonflydb_rs.Core.QuickList.Ends.{QuickList, iter_chunks, iter}
use dragonflydb_rs.Core.QuickList.Ends.Valid.{ValidChunk, IsValid, size_of}
use dragonflydb_rs.Core.QuickList.Ends.Pop.{Pops}
use dragonflydb_rs.Core.QuickList.Index.{resolve, get_from, get, replace, set_from, set_at, range}

-- Reading and writing in a first list, and behind it.
get_elem?_within {ℓ} :
    {A : Type ℓ} (xs ys : List A) (i : ℕ) → i < length xs → get_elem? (xs ++ ys) i ≡ get_elem? xs i
get_elem?_within [] ys i h = absurd (omega (arith, h))
get_elem?_within (x ∷ xs) ys zero h = refl
get_elem?_within (x ∷ xs) ys (suc i) h = get_elem?_within xs ys i (omega arith)

get_elem?_behind {ℓ} :
    {A : Type ℓ} (xs ys : List A) (i : ℕ)
    → length xs ≤ i
    → get_elem? (xs ++ ys) i ≡ get_elem? ys (i - length xs)
get_elem?_behind [] ys i h = ap (get_elem? ys) (omega arith)
get_elem?_behind (x ∷ xs) ys zero h = absurd (omega (arith, h))
get_elem?_behind (x ∷ xs) ys (suc i) h =
    get_elem?_behind xs ys i (omega arith) ∙ ap (get_elem? ys) (omega arith)

set_within {ℓ} :
    {A : Type ℓ} (xs ys : List A) (i : ℕ) (v : A)
    → i < length xs
    → set (xs ++ ys) i v ≡ set xs i v ++ ys
set_within [] ys i v h = absurd (omega (arith, h))
set_within (x ∷ xs) ys zero v h = refl
set_within (x ∷ xs) ys (suc i) v h = ap (◌∷◌ x) (set_within xs ys i v (omega arith))

set_behind {ℓ} :
    {A : Type ℓ} (xs ys : List A) (i : ℕ) (v : A)
    → length xs ≤ i
    → set (xs ++ ys) i v ≡ xs ++ set ys (i - length xs) v
set_behind [] ys i v h = ap (λ n. set ys n v) (omega arith)
set_behind (x ∷ xs) ys zero v h = absurd (omega (arith, h))
set_behind (x ∷ xs) ys (suc i) v h =
    ap (◌∷◌ x) (set_behind xs ys i v (omega arith) ∙ ap (λ n. xs ++ set ys n v) (omega arith))

size_of-set :
    (xs : List ListItem) (i : ℕ) (old item : ListItem)
    → get_elem? xs i ≡ some old
    → size_of (set xs i item) + byte_len old ≡ size_of xs + byte_len item
size_of-set [] i old item h = absurd (ground arith)
size_of-set (x ∷ xs) zero old item h =
    let same : x ≡ old = ground arith in omega (arith, ap byte_len same)
size_of-set (x ∷ xs) (suc i) old item h = omega (arith, size_of-set xs i old item h)

get_elem?_lt {ℓ} :
    {A : Type ℓ} (xs : List A) (i : ℕ) → i < length xs → (x : A) × (get_elem? xs i ≡ some x)
get_elem?_lt [] i h = absurd (omega (arith, h))
get_elem?_lt (x ∷ xs) zero h = (x, refl)
get_elem?_lt (x ∷ xs) (suc i) h = get_elem?_lt xs i (omega arith)

get_from_lem : (cs : List Chunk) (rem : ℕ) → get_from cs rem ≡ get_elem? (iter_chunks cs) rem
unfolding get_from iter_chunks
get_from_lem [] rem = refl
get_from_lem (c ∷ cs) rem = elim (Bool-cases (ltb rem (length c.items))) [
  | inl here ↦ rw here (sym (get_elem?_within c.items (iter_chunks cs) rem (ltb→lt rem _ here)))
  | inr past ↦ rw past (
      get_from_lem cs (rem - length c.items)
      ∙ sym (get_elem?_behind c.items (iter_chunks cs) rem (ground arith)))
]

-- `get` on a valid list is the item at the position that the index stands for, a negative index
-- counted from the end, and nothing out of range.
pub get_lem :
    (ql : QuickList) (index : ℤ)
    → IsValid ql
    → get ql index ≡ (do idx ← resolve (length (iter ql)) index; get_elem? (iter ql) idx)
unfolding get iter
get_lem ql index v =
    let counted : ql.count ≡ length (iter_chunks ql.chunks) = v.counted in
    ap (λ (n : ℕ). resolve n index >>= (λ idx. get_from ql.chunks idx)) counted
    ∙ ap (λ (f : ℕ → Option ListItem). resolve (length (iter_chunks ql.chunks)) index >>= f)
        (λ i. λ idx. get_from_lem ql.chunks idx i)

-- What writing does to a plain list: the old item and the new list, nothing out of range.
abbrev pub set_plain : List ListItem → ℕ → ListItem → Option (ListItem × List ListItem)
set_plain xs idx item = do old ← get_elem? xs idx; some (old, set xs idx item)

-- The write in the chunks agrees with that in their items.
abbrev Sets : Option (ListItem × List Chunk) → Option (ListItem × List ListItem) → Type 0
Sets none none = Unit
Sets none (some _) = ⊥
Sets (some _) none = ⊥
Sets (some (x, cs)) (some (y, ys)) = (x ≡ y) × All ValidChunk cs × (iter_chunks cs ≡ ys)

set_here :
    (c : Chunk) (cs : List Chunk) (rem : ℕ) (item : ListItem)
    → ValidChunk c
    → All ValidChunk cs
    → rem < length c.items
    → Sets
        (do (old, c') ← replace c rem item; some (old, c' ∷ cs))
        (set_plain (c.items ++ iter_chunks cs) rem item)
unfolding replace iter_chunks
set_here c cs rem item v valid h =
    let (old, found) = get_elem?_lt c.items rem h in
    let seen = get_elem?_within c.items (iter_chunks cs) rem h ∙ found in
    let same_length = length-set c.items rem item in
    rw found (
      rw seen (
        refl,
        (
          record {
            some_items = omega (arith, v.some_items, same_length);
            few_items = omega (arith, v.few_items, same_length);
            enough_bytes = omega (arith, v.enough_bytes, size_of-set c.items rem old item found);
          },
          valid,
        ),
        sym (set_within c.items (iter_chunks cs) rem item h),
      ))

set_further :
    (c : Chunk) (r : Option (ListItem × List Chunk)) (p : Option (ListItem × List ListItem))
    → ValidChunk c
    → Sets r p
    → Sets (do (old, cs') ← r; some (old, c ∷ cs')) (do (old, ys) ← p; some (old, c.items ++ ys))
unfolding iter_chunks
set_further c none none v h = tt
set_further c none (some _) v h = h
set_further c (some _) none v h = h
set_further c (some (x, cs)) (some (y, ys)) v h = (h.0, (v, h.1), ap (◌++◌ c.items) h.2)

set_plain-append :
    (xs ys : List ListItem) (rem : ℕ) (item : ListItem)
    → length xs ≤ rem
    → set_plain (xs ++ ys) rem item
      ≡ (do (old, zs) ← set_plain ys (rem - length xs) item; some (old, xs ++ zs))
set_plain-append xs ys rem item h =
    rw (get_elem?_behind xs ys rem h, set_behind xs ys rem item h)
      (elim (Option-cases (get_elem? ys (rem - length xs))) [
        | inl out ↦ rw out refl
        | inr (old, found) ↦ rw found refl
      ])

set_from_lem :
    (cs : List Chunk) (rem : ℕ) (item : ListItem)
    → All ValidChunk cs
    → Sets (set_from cs rem item) (set_plain (iter_chunks cs) rem item)
unfolding set_from iter_chunks
set_from_lem [] rem item valid = tt
set_from_lem (c ∷ cs) rem item valid = elim (Bool-cases (ltb rem (length c.items))) [
  | inl here ↦ rw here (set_here c cs rem item valid.0 valid.1 (ltb→lt rem _ here))
  | inr past ↦ rw past (
      rw (set_plain-append c.items (iter_chunks cs) rem item (ground arith))
        (set_further c _ _ valid.0 (set_from_lem cs (rem - length c.items) item valid.1)))
]

set_at-of :
    (ql : QuickList) (r : Option (ListItem × List Chunk)) (idx : ℕ) (item : ListItem)
    → IsValid ql
    → Sets r (set_plain (iter ql) idx item)
    → Pops (do (old, cs) ← r; some (old, record ql { chunks = cs })) (set_plain (iter ql) idx item)
unfolding iter
set_at-of ql r idx item v h = elim (Option-cases (get_elem? (iter_chunks ql.chunks) idx)) [
  | inl out ↦ rw out (nothing r (rw out at h))
  | inr (old, found) ↦ rw found (something r old (rw found at h))
]
  where
    nothing :
        (r : Option (ListItem × List Chunk))
        → Sets r none
        → Pops (do (old, cs) ← r; some (old, record ql { chunks = cs })) none
    nothing none h = tt
    nothing (some _) h = h

    something :
        (r : Option (ListItem × List Chunk)) (old : ListItem)
        → Sets r (some (old, set (iter_chunks ql.chunks) idx item))
        → Pops
            (do (old, cs) ← r; some (old, record ql { chunks = cs }))
            (some (old, set (iter_chunks ql.chunks) idx item))
    something none old h = h
    something (some (x, cs)) old h = (
      h.0,
      record {
        chunks_valid = h.1;
        counted =
            v.counted ∙ sym (length-set (iter_chunks ql.chunks) idx item) ∙ ap length (sym h.2);
      },
      h.2,
    )

-- `set` on a valid list replaces the item at the position that the index stands for and gives the
-- old one; the list stays valid, and nothing happens out of range.
pub set_at_lem :
    (ql : QuickList) (index : ℤ) (item : ListItem)
    → IsValid ql
    → Pops
        (set_at ql index item)
        (do idx ← resolve (length (iter ql)) index; set_plain (iter ql) idx item)
unfolding set_at
set_at_lem ql index item v = rw (← v.counted) (elim (Option-cases (resolve ql.count index)) [
  | inl out ↦ rw out tt
  | inr (idx, found) ↦ rw found (
      set_at-of ql (set_from ql.chunks idx item) idx item v
        (unfold iter in set_from_lem ql.chunks idx item v.chunks_valid))
])

-- `range` on a valid list is the window of `redis_range` cut out of the items.
pub range_lem :
    (ql : QuickList) (start stop : ℤ)
    → IsValid ql
    → range ql start stop ≡ (do
      (s, count) ← redis_range start stop (pos (length (iter ql)))
      some (take (pos_part count) (drop (pos_part s) (iter ql))))
unfolding range
range_lem ql start stop v = rw (← v.counted) refl
