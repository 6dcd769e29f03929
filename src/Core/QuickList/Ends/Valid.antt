-- ===== src/Core/QuickList/Ends/Valid.antt =====
-- src/core/quicklist.rs: what every list keeps to, and the list that its chunks stand for.
use dragonflydb_rs.Common.{
  ℕ, ◌+◌, ◌≤◌, ◌≡◌, refl, ap, sym, ◌∙◌, arith, List, [], ◌∷◌, ◌++◌, map, none, some, length,
  append_assoc, append-nil, All, sum, last?, init,
}
use dragonflydb_rs.Core.QuickList.Item.{ListItem, byte_len}
use dragonflydb_rs.Core.QuickList.Chunk.{Chunk}
use dragonflydb_rs.Core.QuickList.Ends.{QuickList, iter_chunks, iter}

-- The bytes of some items.
abbrev pub size_of : List ListItem → ℕ
size_of xs = sum (map byte_len xs)

-- A chunk holds 1 to 128 items, and its counter is at least their bytes.
pub record ValidChunk (c : Chunk) : Type 0 where
  pub some_items : 1 ≤ length c.items
  pub few_items : length c.items ≤ 128
  pub enough_bytes : size_of c.items ≤ c.bytes

-- Every chunk is valid, and the length that the list reports is the number of its items.
pub record IsValid (ql : QuickList) : Type 0 where
  pub chunks_valid : All ValidChunk ql.chunks
  pub counted : ql.count ≡ length (iter ql)

pub iter_chunks-append :
    (cs ds : List Chunk) → iter_chunks (cs ++ ds) ≡ iter_chunks cs ++ iter_chunks ds
unfolding iter_chunks
iter_chunks-append [] ds = refl
iter_chunks-append (c ∷ cs) ds =
    ap (◌++◌ c.items) (iter_chunks-append cs ds)
    ∙ sym (append_assoc c.items (iter_chunks cs) (iter_chunks ds))

pub iter_chunks-snoc :
    (cs : List Chunk) (c : Chunk) → iter_chunks (cs ++ c ∷ []) ≡ iter_chunks cs ++ c.items
iter_chunks-snoc cs c =
    iter_chunks-append cs (c ∷ [])
    ∙ (unfold iter_chunks in ap (◌++◌ (iter_chunks cs)) (append-nil c.items))

pub size_of-append : (xs ys : List ListItem) → size_of (xs ++ ys) ≡ size_of xs + size_of ys
size_of-append [] ys = omega arith
size_of-append (x ∷ xs) ys = omega (arith, size_of-append xs ys)

pub All-split {ℓ κ} :
    {A : Type ℓ} (P : A → Type κ) (xs ys : List A) → All P (xs ++ ys) → All P xs × All P ys
All-split P [] ys h = (tt, h)
All-split P (x ∷ xs) ys h = (let (hx, hy) = All-split P xs ys h.1 in ((h.0, hx), hy))

-- A list with a last element is what stands before it, and it.
pub split_last {ℓ} : {A : Type ℓ} (xs : List A) (x : A) → last? xs ≡ some x → xs ≡ init xs ++ x ∷ []
split_last [] x h = absurd (ground arith)
split_last (y ∷ []) x h = ground arith
split_last (y ∷ z ∷ xs) x h = ap (◌∷◌ y) (split_last (z ∷ xs) x h)

pub last?-snoc {ℓ} : {A : Type ℓ} (xs : List A) (x : A) → last? (xs ++ x ∷ []) ≡ some x
last?-snoc [] x = refl
last?-snoc (y ∷ []) x = refl
last?-snoc (y ∷ z ∷ xs) x = last?-snoc (z ∷ xs) x

pub last?-eq-none {ℓ} : {A : Type ℓ} (xs : List A) → last? xs ≡ none → xs ≡ []
last?-eq-none [] h = refl
last?-eq-none (x ∷ []) h = absurd (ground arith)
last?-eq-none (x ∷ y ∷ xs) h = cc (last?-eq-none (y ∷ xs) h)
