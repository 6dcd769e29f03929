-- ===== src/Core/Stream/Ack.antt =====
-- src/core/stream.rs: what `ack` takes off the pending entries of a group.
use dragonflydb_rs.Common.{
  ℕ, suc, ◌+◌, ◌≡◌, refl, ap, ◌∙◌, arith, Bool, true, false, ◌||◌, List, [], ◌∷◌, some, none,
  Option, length, Option-cases, Bool-cases, inl, inr, if◌then◌else◌, bytes_eq, bytes_eq_self,
}
use dragonflydb_rs.Core.HashMap.{HashMap}
use dragonflydb_rs.Core.Stream.Id.{StreamId, same, same→eq, same_sym, less-ne_sym}
use dragonflydb_rs.Core.Stream.Tree.{Tree, get, remove, keys, Above, Ascending}
use dragonflydb_rs.Core.Stream.Defs.{Name, PendingEntry, Consumer, ConsumerGroup, Stream}
use dragonflydb_rs.Core.Stream.Groups.{one_less, acked, add_one, ack_all, ack}

module _ {V : Type 0} where
  get-Above : (k : StreamId) (t : Tree V) → Above k (keys t) → get k t ≡ none
  unfolding get
  get-Above k [] h = refl
  get-Above k ((i, w) ∷ t) h = rw (less-ne_sym k i h.0) (get-Above k t h.1)

  remove-Above : (b k : StreamId) (t : Tree V) → Above b (keys t) → Above b (keys (remove k t))
  unfolding remove
  remove-Above b k [] h = tt
  remove-Above b k ((i, w) ∷ t) h = elim (Bool-cases (same i k)) [
    | inl this ↦ rw this h.1
    | inr other ↦ rw other (h.0, remove-Above b k t h.1)
  ]

  remove-Ascending :
      (k : StreamId) (t : Tree V) → Ascending (keys t) → Ascending (keys (remove k t))
  unfolding remove
  remove-Ascending k [] h = tt
  remove-Ascending k ((i, w) ∷ t) h = elim (Bool-cases (same i k)) [
    | inl this ↦ rw this h.1
    | inr other ↦ rw other (remove-Above i k t h.0, remove-Ascending k t h.1)
  ]

  get-remove :
      (k j : StreamId) (t : Tree V)
      → Ascending (keys t)
      → get j (remove k t) ≡ (if same k j then none else get j t)
  unfolding get remove
  get-remove k j [] h = elim (Bool-cases (same k j)) [ inl e ↦ rw e refl | inr e ↦ rw e refl ]
  get-remove k j ((i, w) ∷ t) h = elim (Bool-cases (same i k)) [
    | inl this ↦
        let e : i ≡ k = same→eq i k this in
        elim (Bool-cases (same k j)) [
          | inl hit ↦
              let e' : k ≡ j = same→eq k j hit in
              let above : Above j (keys t) = rw (e ∙ e') at h.0 in
              rw (this, hit) (get-Above j t above)
          | inr miss ↦ let miss' : same i j ≡ false = rw e miss in rw (this, miss, miss') refl
        ]
    | inr other ↦ rw other (elim (Bool-cases (same i j)) [
      | inl hit ↦
          let e : i ≡ j = same→eq i j hit in
          let miss : same k j ≡ false = same_sym k j ∙ rw e at other in rw (hit, miss) refl
      | inr miss ↦ rw miss (get-remove k j t h.1)
    ])
  ]

  length-remove :
      (k : StreamId) (t : Tree V) {v : V} → get k t ≡ some v → length t ≡ suc (length (remove k t))
  unfolding get remove
  length-remove k [] h = cc
  length-remove k ((i, w) ∷ t) h = elim (Bool-cases (same i k)) [
    | inl this ↦ rw this refl
    | inr other ↦ rw other (ap suc (length-remove k t (rw other at h)))
  ]

abbrev pub mem : StreamId → List StreamId → Bool
mem j [] = false
mem j (id ∷ ids) = same id j || mem j ids

either :
    (a b : Bool) (x : Option PendingEntry)
    → (if b then none else if a then none else x) ≡ (if a || b then none else x)
either true true x = refl
either true false x = refl
either false true x = refl
either false false x = refl

module _ {m : HashMap Name bytes_eq} where
  one_less-pel :
      (g : ConsumerGroup m) (name : Name) (c : Option Consumer) → (one_less g name c).pel ≡ g.pel
  one_less-pel g name none = refl
  one_less-pel g name (some c) = refl

  one_less-Ascending :
      (g : ConsumerGroup m) (name : Name) (c : Option Consumer)
      → Ascending (keys g.pel)
      → Ascending (keys (one_less g name c).pel)
  one_less-Ascending g name none h = h
  one_less-Ascending g name (some c) h = h

  -- One acknowledgement.
  acked_lem :
      (g : ConsumerGroup m) (id j : StreamId) (n : ℕ)
      → Ascending (keys g.pel)
      → let (g', gone) = acked g id (get id g.pel) in
        Ascending (keys g'.pel)
        × (get j g'.pel ≡ (if same id j then none else get j g.pel))
        × (add_one gone n + length g'.pel ≡ n + length g.pel)
  acked_lem g id j n asc = elim (Option-cases (get id g.pel)) [
    | inl missing ↦ rw missing (
      asc,
      elim (Bool-cases (same id j)) [
        | inl hit ↦
            let e : id ≡ j = same→eq id j hit in
            let gone : get j g.pel ≡ none = rw e at missing in rw hit gone
        | inr miss ↦ rw miss refl
      ],
      refl,
    )
    | inr (pe, there) ↦
        let g1 : ConsumerGroup m = record g { pel = remove id g.pel } in
        let c = m.lookup g1.consumers pe.consumer in
        let pel = one_less-pel g1 pe.consumer c in
        let size = length-remove id g.pel there in
        rw there (
          one_less-Ascending g1 pe.consumer c (remove-Ascending id g.pel asc),
          ap (get j) pel ∙ get-remove id j g.pel asc,
          omega (arith, size, ap length pel),
        )
  ]

  ack_all_lem :
      (ids : List StreamId) (g : ConsumerGroup m) (n : ℕ) (j : StreamId)
      → Ascending (keys g.pel)
      → (get j (ack_all ids g n).0.pel ≡ (if mem j ids then none else get j g.pel))
        × ((ack_all ids g n).1 + length (ack_all ids g n).0.pel ≡ n + length g.pel)
  unfolding ack_all
  ack_all_lem [] g n j asc = (refl, refl)
  ack_all_lem (id ∷ ids) g n j asc =
      let (asc', one, count) = acked_lem g id j n asc in
      let next = acked g id (get id g.pel) in
      let (rest, size) = ack_all_lem ids next.0 (add_one next.1 n) j asc' in
      (
        rest
            ∙ ap (λ x. if mem j ids then none else x) one
            ∙ either (same id j) (mem j ids) (get j g.pel),
        size ∙ count,
      )

  -- ack takes the given ids off the pending entries of the group and leaves the others, and returns how
  -- many it took off. The pending entries are a `BTreeMap`, in the order of their ids.
  pub ack_lem :
      (s : Stream m) (group_name : Name) (ids : List StreamId) (j : StreamId)
      {group : ConsumerGroup m}
      → m.lookup s.groups group_name ≡ some group
      → Ascending (keys group.pel)
      → let (s', removed) = ack s group_name ids in
        (g' : ConsumerGroup m) × (m.lookup s'.groups group_name ≡ some g')
        × (get j g'.pel ≡ (if mem j ids then none else get j group.pel))
        × (removed + length g'.pel ≡ length group.pel)
  unfolding ack
  ack_lem s group_name ids j {group} found asc =
      let g' = (ack_all ids group 0).0 in
      let (others, size) = ack_all_lem ids group 0 j asc in
      rw found (
        g',
        m.lookup_put s.groups group_name g' group_name ∙ rw (bytes_eq_self group_name) refl,
        others,
        size ∙ omega arith,
      )
