-- ===== src/Core/QuickList/Ends/Push.antt =====
-- src/core/quicklist.rs: pushing at the two ends.
use dragonflydb_rs.Common.{
  ◌+◌, ◌≡◌, ◌⊎◌, refl, ap, sym, ◌∙◌, arith, Bool, true, false, List, [], ◌∷◌, ◌++◌, length,
  length-append, append_assoc, append-nil, All, All-append, last?, init, Bool-cases, Option-cases,
  inl, inr, if◌then◌else◌,
}
use mathlib.Core.Path.{subst}
use mathlib.Core.List.{foldl}
use dragonflydb_rs.Core.QuickList.Item.{ListItem}
use dragonflydb_rs.Core.QuickList.Chunk
use dragonflydb_rs.Core.QuickList.Chunk.{Chunk}
use dragonflydb_rs.Core.QuickList.Ends.{
  QuickList, iter_chunks, iter, push_last, tail_overflows, push_back, push_first, head_overflows,
  push_front, new, from_items,
}
use dragonflydb_rs.Core.QuickList.Ends.Valid.{
  ValidChunk, IsValid, size_of-append, iter_chunks-snoc, All-split, split_last,
}

push_last-snoc :
    (cs : List Chunk) (c : Chunk) (item : ListItem)
    → push_last (cs ++ c ∷ []) item ≡ cs ++ Chunk.push_back c item ∷ []
unfolding push_last
push_last-snoc [] c item = refl
push_last-snoc (d ∷ []) c item = refl
push_last-snoc (d ∷ e ∷ cs) c item = ap (◌∷◌ d) (push_last-snoc (e ∷ cs) c item)

-- The two cases of `push_back`: the item goes to the last chunk, or to a new one behind it.
push_back_cases :
    (ql : QuickList) (item : ListItem)
    → ((c : Chunk) × (ql.chunks ≡ init ql.chunks ++ c ∷ [])
        × (Chunk.would_overflow c item ≡ false)
        × (push_back ql item ≡ record {
          chunks = init ql.chunks ++ Chunk.push_back c item ∷ [];
          count = ql.count + 1;
        }))
      ⊎ (push_back ql item ≡ record {
        chunks = ql.chunks ++ Chunk.push_back Chunk.new item ∷ [];
        count = ql.count + 1;
      })
unfolding push_back tail_overflows
push_back_cases ql item = elim (Option-cases (last? ql.chunks)) [
  | inl none_there ↦
      let test : tail_overflows ql.chunks item ≡ true = rw none_there in inr (onto_new test)
  | inr (c, found) ↦ elim (Bool-cases (Chunk.would_overflow c item)) [
    | inl full ↦
        let test : tail_overflows ql.chunks item ≡ true = rw found full in inr (onto_new test)
    | inr room ↦
        let test : tail_overflows ql.chunks item ≡ false = rw found room in
        let split = split_last ql.chunks c found in
        inl (
          c,
          split,
          room,
          ap (λ (b : Bool). pushed b) test
              ∙ ap
                  (λ (cs : List Chunk). record { chunks = push_last cs item; count = ql.count + 1 })
                  split
              ∙ ap (λ (cs : List Chunk). record { chunks = cs; count = ql.count + 1 })
                  (push_last-snoc (init ql.chunks) c item),
        )
  ]
]
  where
    pushed : Bool → QuickList
    pushed b = record {
      chunks = push_last (if b then ql.chunks ++ Chunk.new ∷ [] else ql.chunks) item;
      count = ql.count + 1;
    }

    onto_new :
        tail_overflows ql.chunks item ≡ true
        → push_back ql item ≡ record {
          chunks = ql.chunks ++ Chunk.push_back Chunk.new item ∷ [];
          count = ql.count + 1;
        }
    onto_new test =
        ap (λ (b : Bool). pushed b) test
        ∙ ap (λ (cs : List Chunk). record { chunks = cs; count = ql.count + 1 })
            (push_last-snoc ql.chunks Chunk.new item)

-- A chunk with room stays valid, and a new chunk with one item is valid.
push_back-ValidChunk :
    (c : Chunk) (item : ListItem)
    → ValidChunk c
    → Chunk.would_overflow c item ≡ false
    → ValidChunk (Chunk.push_back c item)
unfolding Chunk.would_overflow
push_back-ValidChunk c item v room = record {
  some_items = omega (arith, length-append c.items (item ∷ []));
  few_items = ground (arith, length-append c.items (item ∷ []));
  enough_bytes = omega (arith, v.enough_bytes, size_of-append c.items (item ∷ []));
}

push_front-ValidChunk :
    (c : Chunk) (item : ListItem)
    → ValidChunk c
    → Chunk.would_overflow c item ≡ false
    → ValidChunk (Chunk.push_front c item)
unfolding Chunk.would_overflow
push_front-ValidChunk c item v room = record {
  some_items = omega arith;
  few_items = ground arith;
  enough_bytes = omega (arith, v.enough_bytes);
}

single-ValidChunk : (item : ListItem) → ValidChunk (Chunk.push_back Chunk.new item)
single-ValidChunk item = record {
  some_items = omega arith;
  few_items = omega arith;
  enough_bytes = omega arith;
}

abbrev pub Pushed : QuickList → List ListItem → Type 0
Pushed ql xs = IsValid ql × (iter ql ≡ xs)

-- `push_back` keeps a valid list valid and puts the item behind its items.
pub push_back_lem :
    (ql : QuickList) (item : ListItem)
    → IsValid ql
    → Pushed (push_back ql item) (iter ql ++ item ∷ [])
push_back_lem ql item v = elim (push_back_cases ql item) [
  | inl (c, split, room, e) ↦
      let front = init ql.chunks in
      let (valid, last) =
        All-split ValidChunk front (c ∷ []) (subst (All ValidChunk) split v.chunks_valid) in
      let before : iter ql ≡ iter_chunks front ++ c.items =
        unfold iter in ap iter_chunks split ∙ iter_chunks-snoc front c in
      let after : iter_chunks (front ++ Chunk.push_back c item ∷ []) ≡ iter ql ++ item ∷ [] =
        iter_chunks-snoc front (Chunk.push_back c item) ∙ rw before (simp append_assoc) in
      rw e (
        built (front ++ Chunk.push_back c item ∷ [])
          (All-append ValidChunk front _ valid (push_back-ValidChunk c item last.0 room, tt)) after)
  | inr e ↦ rw e (
      built (ql.chunks ++ Chunk.push_back Chunk.new item ∷ [])
        (All-append ValidChunk ql.chunks _ v.chunks_valid (single-ValidChunk item, tt))
        (iter_chunks-snoc ql.chunks _ ∙ (unfold iter in refl)))
]
  where
    built :
        (cs : List Chunk)
        → All ValidChunk cs
        → iter_chunks cs ≡ iter ql ++ item ∷ []
        → Pushed (record { chunks = cs; count = ql.count + 1 }) (iter ql ++ item ∷ [])
    built cs valid items = (
      record {
        chunks_valid = valid;
        counted =
            unfold iter in
            omega (arith, v.counted, ap length items, length-append (iter ql) (item ∷ []));
      },
      unfold iter in items,
    )

abbrev onto_head : List Chunk → ListItem → List Chunk
onto_head cs item = push_first (if head_overflows cs item then Chunk.new ∷ cs else cs) item

onto_head_lem :
    (cs : List Chunk) (item : ListItem)
    → All ValidChunk cs
    → All ValidChunk (onto_head cs item) × (iter_chunks (onto_head cs item) ≡ item ∷ iter_chunks cs)
unfolding head_overflows push_first iter_chunks
onto_head_lem [] item valid = ((single-ValidChunk item, tt), refl)
onto_head_lem (c ∷ cs) item valid = elim (Bool-cases (Chunk.would_overflow c item)) [
  | inl full ↦ rw full ((single-ValidChunk item, valid), refl)
  | inr room ↦ rw room ((push_front-ValidChunk c item valid.0 room, valid.1), refl)
]

-- `push_front` keeps a valid list valid and puts the item before its items.
pub push_front_lem :
    (ql : QuickList) (item : ListItem) → IsValid ql → Pushed (push_front ql item) (item ∷ iter ql)
unfolding push_front iter
push_front_lem ql item v =
    let (valid, items) = onto_head_lem ql.chunks item v.chunks_valid in
    (record { chunks_valid = valid; counted = omega (arith, v.counted, ap length items) }, items)

pub from_items_onto :
    (xs : List ListItem) (ql : QuickList)
    → IsValid ql
    → Pushed (foldl push_back ql xs) (iter ql ++ xs)
from_items_onto [] ql v = (v, sym (append-nil (iter ql)))
from_items_onto (x ∷ xs) ql v =
    let (valid, items) = push_back_lem ql x v in
    let (valid', items') = from_items_onto xs (push_back ql x) valid in
    (valid', items' ∙ rw items (append_assoc (iter ql) (x ∷ []) xs))

-- Rebuilding from any items gives a valid list of those items.
pub from_items_lem : (xs : List ListItem) → Pushed (from_items xs) xs
unfolding from_items iter iter_chunks
from_items_lem xs = from_items_onto xs new (record { chunks_valid = tt; counted = refl })
