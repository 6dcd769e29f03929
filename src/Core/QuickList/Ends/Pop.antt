-- ===== src/Core/QuickList/Ends/Pop.antt =====
-- src/core/quicklist.rs: popping at the two ends, and looking at them.
use dragonflydb_rs.Common.{
  init-snoc, ℕ, ◌-◌, ◌≤◌, ◌≡◌, refl, ap, sym, ◌∙◌, arith, List, [], ◌∷◌, ◌++◌, Option, none, some,
  length, length-append, append_assoc, ◌>>=◌, append-nil, All, All-append, last?, init,
  Option-cases, inl, inr,
}
use mathlib.Core.Path.{subst}
use dragonflydb_rs.Core.QuickList.Item.{ListItem, byte_len}
use dragonflydb_rs.Core.QuickList.Chunk
use dragonflydb_rs.Core.QuickList.Chunk.{Chunk}
use dragonflydb_rs.Core.QuickList.Ends.{
  QuickList, iter_chunks, iter, pop_back, pop_front, pop_front_of, keep_unless_empty, front, back,
  front_of, head?,
}
use dragonflydb_rs.Core.QuickList.Ends.Valid.{
  ValidChunk, IsValid, size_of, size_of-append, iter_chunks-snoc, iter_chunks-append, All-split,
  split_last, last?-snoc, last?-eq-none,
}

-- What popping does to a plain list.
abbrev pub pop_last : List ListItem → Option (ListItem × List ListItem)
pop_last xs = do x ← last? xs; some (x, init xs)

abbrev pub pop_first : List ListItem → Option (ListItem × List ListItem)
pop_first [] = none
pop_first (x ∷ xs) = some (x, xs)

-- A pop of the list agrees with that of its items: the same item, a valid list, and its items.
abbrev pub Pops : Option (ListItem × QuickList) → Option (ListItem × List ListItem) → Type 0
Pops none none = Unit
Pops none (some _) = ⊥
Pops (some _) none = ⊥
Pops (some (x, ql)) (some (y, ys)) = (x ≡ y) × IsValid ql × (iter ql ≡ ys)

keep_unless_empty_lem :
    (c : Chunk)
    → length c.items ≤ 128
    → size_of c.items ≤ c.bytes
    → All ValidChunk (keep_unless_empty c) × (iter_chunks (keep_unless_empty c) ≡ c.items)
unfolding iter_chunks
keep_unless_empty_lem c few enough = kept c.items few enough
  where
    kept :
        (xs : List ListItem)
        → length xs ≤ 128
        → size_of xs ≤ c.bytes
        → let d : Chunk = record { items = xs; bytes = c.bytes } in
          All ValidChunk (keep_unless_empty d) × (iter_chunks (keep_unless_empty d) ≡ xs)
    kept [] few enough = (tt, refl)
    kept (x ∷ xs) few enough = (
      (record { some_items = omega arith; few_items = few; enough_bytes = enough }, tt),
      append-nil (x ∷ xs),
    )

pop_front_chunks :
    (xs : List ListItem) (bytes : ℕ) (cs : List Chunk) (count : ℕ)
    → let c : Chunk = record { items = xs; bytes = bytes } in
      ValidChunk c
      → All ValidChunk cs
      → count ≡ length (xs ++ iter_chunks cs)
      → Pops (pop_front_of (c ∷ cs) count) (pop_first (xs ++ iter_chunks cs))
unfolding pop_front_of Chunk.pop_front
pop_front_chunks [] bytes cs count v valid counted = absurd (omega (arith, v.some_items))
pop_front_chunks (x ∷ xs) bytes cs count v valid counted =
    let c' : Chunk = record { items = xs; bytes = bytes - byte_len x } in
    let (kept, same) =
      keep_unless_empty_lem c' (omega (arith, v.few_items)) (omega (arith, v.enough_bytes)) in
    let items =
      iter_chunks-append (keep_unless_empty c') cs ∙ ap (λ ys. ys ++ iter_chunks cs) same in
    (
      refl,
      record {
        chunks_valid = All-append ValidChunk (keep_unless_empty c') cs kept valid;
        counted = unfold iter in omega (arith, ap length items, counted);
      },
      unfold iter in items,
    )

-- `pop_front` on a valid list takes its first item, and leaves a valid list of the others; it gives
-- nothing on an empty one.
pub pop_front_lem : (ql : QuickList) → IsValid ql → Pops (pop_front ql) (pop_first (iter ql))
unfolding pop_front iter
pop_front_lem ql v = first ql.chunks ql.count v.chunks_valid v.counted
  where
    first :
        (cs : List Chunk) (count : ℕ)
        → All ValidChunk cs
        → count ≡ length (iter_chunks cs)
        → Pops (pop_front_of cs count) (pop_first (iter_chunks cs))
    first [] count valid counted = unfold iter_chunks in tt
    first (c ∷ cs) count valid counted =
        unfold iter_chunks in pop_front_chunks c.items c.bytes cs count valid.0 valid.1 counted

-- The last chunk of a list whose chunks are `before` and then `c`.
pop_back_chunks :
    (before : List Chunk) (c : Chunk) (x : ListItem) (xs : List ListItem) (count : ℕ)
    → c.items ≡ xs ++ x ∷ []
    → All ValidChunk before
    → ValidChunk c
    → count ≡ length (iter_chunks (before ++ c ∷ []))
    → let c' : Chunk = record { items = xs; bytes = c.bytes - byte_len x } in
      let ql : QuickList = record { chunks = before ++ keep_unless_empty c'; count = count - 1 } in
      IsValid ql × (iter ql ≡ iter_chunks before ++ xs)
unfolding iter
pop_back_chunks before c x xs count e valid v counted =
    let c' : Chunk = record { items = xs; bytes = c.bytes - byte_len x } in
    let size = ap size_of e ∙ size_of-append xs (x ∷ []) in
    let some_more = ap length e ∙ length-append xs (x ∷ []) in
    let (kept, same) =
      keep_unless_empty_lem c' (omega (arith, v.few_items, some_more))
        (omega (arith, v.enough_bytes, size)) in
    let items =
      iter_chunks-append before (keep_unless_empty c') ∙ ap (λ ys. iter_chunks before ++ ys) same in
    let total =
      ap length (iter_chunks-snoc before c) ∙ length-append (iter_chunks before) c.items in
    (
      record {
        chunks_valid = All-append ValidChunk before _ valid kept;
        counted = omega (
          arith,
          ap length items,
          counted,
          total,
          some_more,
          length-append (iter_chunks before) xs,
        );
      },
      items,
    )

some_last {ℓ} : {A : Type ℓ} (xs : List A) → 1 ≤ length xs → (x : A) × (last? xs ≡ some x)
some_last [] h = absurd (omega (arith, h))
some_last (x ∷ []) h = (x, refl)
some_last (x ∷ y ∷ xs) h = some_last (y ∷ xs) (omega arith)

init-append {ℓ} : {A : Type ℓ} (xs ys : List A) (x : A) → init (xs ++ (ys ++ x ∷ [])) ≡ xs ++ ys
init-append xs ys x = ap init (sym (append_assoc xs ys (x ∷ []))) ∙ init-snoc (xs ++ ys) x

-- `pop_back` on a valid list takes its last item, and leaves a valid list of the others; it gives
-- nothing on an empty one.
pub pop_back_lem : (ql : QuickList) → IsValid ql → Pops (pop_back ql) (pop_last (iter ql))
unfolding pop_back Chunk.pop_back
pop_back_lem ql v = elim (Option-cases (last? ql.chunks)) [
  | inl none_there ↦
      let no_items : iter ql ≡ [] =
        unfold iter in
        ap iter_chunks (last?-eq-none ql.chunks none_there) ∙ (unfold iter_chunks in refl) in
      rw none_there (rw no_items tt)
  | inr (c, found) ↦
      let before = init ql.chunks in
      let split = split_last ql.chunks c found in
      let (valid, last) =
        All-split ValidChunk before (c ∷ []) (subst (All ValidChunk) split v.chunks_valid) in
      let (x, is_last) = some_last c.items last.0.some_items in
      let xs = init c.items in
      let e = split_last c.items x is_last in
      let all : iter ql ≡ iter_chunks before ++ (xs ++ x ∷ []) =
        unfold iter in
        ap iter_chunks split ∙ iter_chunks-snoc before c ∙ ap (λ ys. iter_chunks before ++ ys) e in
      let (valid', items') =
        pop_back_chunks before c x xs ql.count e valid last.0
          (v.counted ∙ (unfold iter in ap (λ cs. length (iter_chunks cs)) split)) in
      let at_end : last? (iter ql) ≡ some x =
        ap last? (all ∙ sym (append_assoc (iter_chunks before) xs (x ∷ [])))
        ∙ last?-snoc (iter_chunks before ++ xs) x in
      let front_items : init (iter ql) ≡ iter_chunks before ++ xs =
        ap init all ∙ init-append (iter_chunks before) xs x in
      rw found (rw is_last (rw at_end (refl, valid', items' ∙ sym front_items)))
]

-- On a valid list `front` and `back` look at the items that `pop_front` and `pop_back` would take.
pub front-back_lem :
    (ql : QuickList) → IsValid ql → (front ql ≡ head? (iter ql)) × (back ql ≡ last? (iter ql))
unfolding front iter
front-back_lem ql v = (at_front ql.chunks v.chunks_valid, at_back)
  where
    at_head : (xs ys : List ListItem) → 1 ≤ length xs → head? xs ≡ head? (xs ++ ys)
    at_head [] ys h = absurd (omega (arith, h))
    at_head (x ∷ xs) ys h = refl

    at_front : (cs : List Chunk) → All ValidChunk cs → front_of cs ≡ head? (iter_chunks cs)
    at_front [] valid = unfold front_of in unfold iter_chunks in refl
    at_front (c ∷ cs) valid =
        unfold front_of in unfold iter_chunks in at_head c.items (iter_chunks cs) valid.0.some_items

    at_back : back ql ≡ last? (iter_chunks ql.chunks)
    at_back = elim (Option-cases (last? ql.chunks)) [
      | inl none_there ↦
          let no_items : iter_chunks ql.chunks ≡ [] =
            ap iter_chunks (last?-eq-none ql.chunks none_there) ∙ (unfold iter_chunks in refl) in
          unfold back in rw none_there (rw no_items refl)
      | inr (c, found) ↦
          let before = init ql.chunks in
          let split = split_last ql.chunks c found in
          let (valid, last) =
            All-split ValidChunk before (c ∷ []) (subst (All ValidChunk) split v.chunks_valid) in
          let (x, is_last) = some_last c.items last.0.some_items in
          let all =
            ap iter_chunks split
            ∙ iter_chunks-snoc before c
            ∙ ap (λ ys. iter_chunks before ++ ys) (split_last c.items x is_last)
            ∙ sym (append_assoc (iter_chunks before) (init c.items) (x ∷ [])) in
          unfold back in
          rw found
            (rw is_last (sym (ap last? all ∙ last?-snoc (iter_chunks before ++ init c.items) x)))
    ]
