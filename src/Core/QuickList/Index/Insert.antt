-- ===== src/Core/QuickList/Index/Insert.antt =====
-- src/core/quicklist.rs: `insert` against the plain list of items.
use dragonflydb_rs.Common.{
  ℕ, zero, suc, ◌+◌, ◌-◌, ◌/◌, ◌≤◌, ◌<◌, ◌≡◌, refl, ap, sym, ◌∙◌, arith, List, [], ◌∷◌, ◌++◌, some,
  length, length-append, append-nil, All, All-append, take, drop, length-take, length-drop,
  take-append-drop, insert_at, length-insert_at, min, Bool-cases, inl, inr, if◌then◌else◌, ltb,
  ltb→lt,
}
use dragonflydb_rs.Common.Int.{ℤ, pos, pos_part, leb_ℤ}
use dragonflydb_rs.Core.QuickList.Item.{ListItem, byte_len}
use dragonflydb_rs.Core.QuickList.Chunk.{Chunk, chunk_max_items}
use dragonflydb_rs.Core.QuickList.Ends.{QuickList, iter_chunks, iter, push_front, push_back}
use dragonflydb_rs.Core.QuickList.Ends.Valid.{
  ValidChunk, IsValid, size_of, size_of-append, iter_chunks-append,
}
use dragonflydb_rs.Core.QuickList.Ends.Push.{Pushed, push_back_lem, push_front_lem}
use dragonflydb_rs.Core.QuickList.Index.{split, insert_from, insert_middle, insert_index, insert}

insert_at_within {ℓ} :
    {A : Type ℓ} (xs ys : List A) (i : ℕ) (v : A)
    → i < length xs
    → insert_at i v (xs ++ ys) ≡ insert_at i v xs ++ ys
insert_at_within [] ys i v h = absurd (omega (arith, h))
insert_at_within (x ∷ xs) ys zero v h = refl
insert_at_within (x ∷ xs) ys (suc i) v h = ap (◌∷◌ x) (insert_at_within xs ys i v (omega arith))

insert_at_behind {ℓ} :
    {A : Type ℓ} (xs ys : List A) (i : ℕ) (v : A)
    → length xs ≤ i
    → insert_at i v (xs ++ ys) ≡ xs ++ insert_at (i - length xs) v ys
insert_at_behind [] ys i v h = ap (λ n. insert_at n v ys) (omega arith)
insert_at_behind (x ∷ xs) ys zero v h = absurd (omega (arith, h))
insert_at_behind (x ∷ xs) ys (suc i) v h =
    ap (◌∷◌ x)
      (insert_at_behind xs ys i v (omega arith) ∙ ap (λ n. xs ++ insert_at n v ys) (omega arith))

insert_at_end {ℓ} : {A : Type ℓ} (xs : List A) (v : A) → insert_at (length xs) v xs ≡ xs ++ v ∷ []
insert_at_end [] v = refl
insert_at_end (x ∷ xs) v = ap (◌∷◌ x) (insert_at_end xs v)

size_of-insert_at :
    (i : ℕ) (item : ListItem) (xs : List ListItem)
    → size_of (insert_at i item xs) ≡ size_of xs + byte_len item
size_of-insert_at zero item xs = omega arith
size_of-insert_at (suc i) item [] = omega arith
size_of-insert_at (suc i) item (x ∷ xs) = omega (arith, size_of-insert_at i item xs)

-- A chunk of 129 items at most is split into valid chunks of the same items.
split_lem :
    (c : Chunk)
    → 1 ≤ length c.items
    → length c.items ≤ 129
    → size_of c.items ≤ c.bytes
    → All ValidChunk (split c) × (iter_chunks (split c) ≡ c.items)
unfolding split iter_chunks
split_lem c some_there few enough =
    let half = length c.items / 2 in
    let cut = take-append-drop half c.items in
    let size = sym (size_of-append (take half c.items) (drop half c.items)) ∙ ap size_of cut in
    let left = length-take half c.items in
    let right = length-drop half c.items in
    elim (Bool-cases (ltb chunk_max_items (length c.items))) [
      | inl big ↦
          let more : 128 < length c.items = ltb→lt 128 _ big in
          rw big (
            (
              record {
                some_items = omega arith;
                few_items = omega arith;
                enough_bytes = omega arith;
              },
              (
                record {
                  some_items = omega arith;
                  few_items = omega arith;
                  enough_bytes = omega arith;
                },
                tt,
              ),
            ),
            ap (λ ys. take half c.items ++ ys) (append-nil (drop half c.items)) ∙ cut,
          )
      | inr fits ↦ rw fits (
        (record { some_items = some_there; few_items = ground arith; enough_bytes = enough }, tt),
        append-nil c.items,
      )
    ]

-- The loop finds the chunk of every position of the list.
insert_from_lem :
    (cs : List Chunk) (rem : ℕ) (item : ListItem)
    → All ValidChunk cs
    → rem < length (iter_chunks cs)
    → (cs' : List Chunk) × (insert_from cs rem item ≡ some cs')
      × All ValidChunk cs'
      × (iter_chunks cs' ≡ insert_at rem item (iter_chunks cs))
unfolding insert_from iter_chunks
insert_from_lem [] rem item valid h = absurd (omega (arith, h))
insert_from_lem (c ∷ cs) rem item valid h = elim (Bool-cases (ltb rem (length c.items))) [
  | inl here ↦
      let c' : Chunk = record {
        items = insert_at rem item c.items;
        bytes = c.bytes + byte_len item;
      } in
      let longer = length-insert_at rem item c.items in
      let (parts, same) =
        split_lem c' (omega (arith, longer)) (omega (arith, longer, valid.0.few_items))
          (omega (arith, size_of-insert_at rem item c.items, valid.0.enough_bytes)) in
      (
        split c' ++ cs,
        rw here refl,
        All-append ValidChunk (split c') cs parts valid.1,
        iter_chunks-append (split c') cs
            ∙ ap (λ ys. ys ++ iter_chunks cs) same
            ∙ sym (insert_at_within c.items (iter_chunks cs) rem item (ltb→lt rem _ here)),
      )
  | inr past ↦
      let after : length c.items ≤ rem = ground arith in
      let (cs', found, valid', items) =
        insert_from_lem cs (rem - length c.items) item valid.1
          (omega (arith, after, h, length-append c.items (iter_chunks cs))) in
      (
        c ∷ cs',
        rw past (rw found refl),
        (valid.0, valid'),
        ap (λ ys. c.items ++ ys) items
            ∙ sym (insert_at_behind c.items (iter_chunks cs) rem item after),
      )
]

insert_middle_lem :
    (ql : QuickList) (idx : ℕ) (item : ListItem)
    → IsValid ql
    → idx < length (iter ql)
    → Pushed (insert_middle ql idx item) (insert_at idx item (iter ql))
unfolding insert_middle iter
insert_middle_lem ql idx item v h =
    let (cs', found, valid, items) = insert_from_lem ql.chunks idx item v.chunks_valid h in
    rw found (
      record {
        chunks_valid = valid;
        counted =
            omega (
              arith,
              ap length items,
              length-insert_at idx item (iter_chunks ql.chunks),
              v.counted,
            );
      },
      items,
    )

pub insert_lem :
    (ql : QuickList) (index : ℤ) (item : ListItem)
    → IsValid ql
    → Pushed (insert ql index item) (
        insert_at
          (min (pos_part (insert_index (length (iter ql)) index)) (length (iter ql)))
          item
          (iter ql))
unfolding insert
insert_lem ql index item v = rw (← v.counted) (placed (insert_index ql.count index))
  where
    placed :
        (idx : ℤ)
        → Pushed
            (if leb_ℤ idx (pos 0)
              then push_front ql item
              else if leb_ℤ (pos ql.count) idx
              then push_back ql item
              else insert_middle ql (pos_part idx) item)
            (insert_at (min (pos_part idx) ql.count) item (iter ql))
    placed idx = elim (Bool-cases (leb_ℤ idx (pos 0))) [
      | inl low ↦
          let at : min (pos_part idx) ql.count ≡ 0 = ground arith in
          rw low (rw at (push_front_lem ql item v))
      | inr more ↦ elim (Bool-cases (leb_ℤ (pos ql.count) idx)) [
        | inl high ↦
            let at : min (pos_part idx) ql.count ≡ length (iter ql) = ground (arith, v.counted) in
            rw more (rw high (rw at (rw (insert_at_end (iter ql) item) (push_back_lem ql item v))))
        | inr within ↦
            let at : min (pos_part idx) ql.count ≡ pos_part idx = ground arith in
            let lt : pos_part idx < length (iter ql) = ground (arith, v.counted) in
            rw more (rw within (rw at (insert_middle_lem ql (pos_part idx) item v lt)))
      ]
    ]
