-- ===== src/Core/Stream/Bounds.antt =====
-- src/core/stream.rs: what `trim` removes.
use dragonflydb_rs.Common.{
  ℕ, suc, ◌+◌, ◌≤◌, ◌≡◌, refl, ap, ◌∙◌, arith, Bool, not, ◌||◌, ◌&&◌, List, [], ◌∷◌, ◌++◌, Option,
  length, append_assoc, drop, last?, ◌==◌, Bool-cases, inl, inr, bytes_eq,
}
use dragonflydb_rs.Core.HashMap.{HashMap}
use dragonflydb_rs.Core.Stream.Id.{StreamId}
use dragonflydb_rs.Core.Stream.Tree.{Tree}
use dragonflydb_rs.Core.Stream.Defs.{Name, StreamEntry, Stream, trim_delete}
use dragonflydb_rs.Core.Stream.Trim.{
  chunk_loop, node_chunks, fits, over_len, below_min, over_limit, or_min, remove_node, trim_node,
  trim_partly, trim_nodes, trim,
}
use dragonflydb_rs.Core.Stream.Live.{
  live, IsValid, Trims, Cuts, trim_delete_first, none_cut, cut_more, trim_node_lem, cut_node,
}

abbrev pub concat : List (List StreamId) → List StreamId
concat [] = []
concat (node ∷ nodes) = node ++ concat nodes

-- The nodes hold the live ids, in order.
chunk_loop_lem :
    (t : Tree StreamEntry) (current : List StreamId)
    → concat (chunk_loop t current) ≡ current ++ live t
unfolding chunk_loop live
chunk_loop_lem [] [] = refl
chunk_loop_lem [] (id ∷ current) = refl
chunk_loop_lem ((id, e) ∷ t) current = elim (Bool-cases e.deleted) [
  | inl gone ↦ rw gone (chunk_loop_lem t current)
  | inr there ↦ elim (Bool-cases (length (current ++ id ∷ []) == 100)) [
    | inl full ↦
        rw (there, full)
          (ap (λ r. (current ++ id ∷ []) ++ r) (chunk_loop_lem t [])
            ∙ append_assoc current (id ∷ []) (live t))
    | inr space ↦
        rw (there, space)
          (chunk_loop_lem t (current ++ id ∷ []) ∙ append_assoc current (id ∷ []) (live t))
  ]
]

module _ {m : HashMap Name bytes_eq} (s0 : Stream m) where
  -- The partial trimming of a node cuts some first ids of it.
  partly-Cuts :
      (maxlen : Option ℕ) (minid : Option StreamId) (node js : List StreamId) (s : Stream m)
      (removed : ℕ)
      → Trims s0 s (node ++ js)
      → (k : ℕ) × Cuts s0 (trim_partly maxlen minid node s removed) removed (node ++ js) k
  unfolding trim_partly
  partly-Cuts maxlen minid [] js s removed t = (0, none_cut s0 s removed js t)
  partly-Cuts maxlen minid (id ∷ node) js s removed t =
      elim (Bool-cases (not (over_len maxlen s.length) && not (below_min minid id))) [
        | inl stop ↦ rw stop (0, none_cut s0 s removed (id ∷ (node ++ js)) t)
        | inr go ↦
            let (gone, next) = trim_delete_first s0 s id (node ++ js) t in
            let (k, c) = partly-Cuts maxlen minid node js (trim_delete s id).0 (removed + 1) next in
            rw (go, gone) (suc k, cut_more s0 _ removed k id (node ++ js) c)
      ]

  nodes_cut :
      (maxlen : Option ℕ) (minid : Option StreamId) (approx : Bool) (limit : Option ℕ)
      (nodes : List (List StreamId)) (s : Stream m) (removed : ℕ)
      → Trims s0 s (concat nodes)
      → (k : ℕ) × Cuts s0
          (trim_nodes maxlen minid approx limit nodes s removed)
          removed
          (concat nodes)
          k
  unfolding trim_nodes
  nodes_cut maxlen minid approx limit [] s removed t = (0, none_cut s0 s removed [] t)
  nodes_cut maxlen minid approx limit (node ∷ nodes) s removed t =
      let js = concat nodes in
      elim (Bool-cases (fits maxlen s.length || over_limit limit (removed + length node))) [
        | inl stop ↦ rw stop (0, none_cut s0 s removed (node ++ js) t)
        | inr go ↦
            elim (Bool-cases
              (remove_node maxlen minid s.length (length node) (or_min (last? node)))) [
                | inl whole ↦
                    let (count, next) = trim_node_lem s0 node js s removed t in
                    let (k, c) =
                      nodes_cut maxlen minid approx limit nodes (trim_node node s removed).0
                        (removed + length node) next in
                    rw (go, whole, count) (length node + k, cut_node s0 _ removed k node js c)
                | inr partly ↦ elim (Bool-cases approx) [
                  | inl yes_approx ↦
                      rw (go, partly, yes_approx) (0, none_cut s0 s removed (node ++ js) t)
                  | inr exact ↦
                      rw (go, partly, exact) (partly-Cuts maxlen minid node js s removed t)
                ]
              ]
      ]

module _ {m : HashMap Name bytes_eq} where
  pub Trims-start : (s : Stream m) → IsValid s → Trims s s (live s.entries)
  Trims-start s v = record {
    ascending = v.ascending;
    are_live = refl;
    counted = v.counted;
    small = v.small;
    same_keys = refl;
    same_last = refl;
  }

  pub nodes_hold : (s : Stream m) → concat (node_chunks s) ≡ live s.entries
  unfolding node_chunks
  nodes_hold s = chunk_loop_lem s.entries []

  pub Trims-IsValid :
      (s0 s : Stream m) (js : List StreamId) → IsValid s0 → Trims s0 s js → IsValid s
  Trims-IsValid s0 s js v t = record {
    ascending = t.ascending;
    up_to = rw (t.same_keys, t.same_last) v.up_to;
    counted = rw (t.are_live) t.counted;
    small = rw (t.are_live) t.small;
  }

  pub trim-Cuts :
      (s : Stream m) (maxlen : Option ℕ) (minid : Option StreamId) (approx : Bool)
      (limit : Option ℕ)
      → IsValid s
      → (k : ℕ) × Cuts s (trim s maxlen minid approx limit) 0 (live s.entries) k
  unfolding trim
  trim-Cuts s maxlen minid approx limit v =
      let (k, c) =
        nodes_cut s maxlen minid approx limit (node_chunks s) s 0
          (rw (nodes_hold s) (Trims-start s v)) in
      (k, rw (nodes_hold s) at c)

  -- Whatever its options, trim keeps a stream valid, deletes the oldest live entries and no others, and
  -- returns their number.
  pub trim_lem :
      (s : Stream m) (maxlen : Option ℕ) (minid : Option StreamId) (approx : Bool)
      (limit : Option ℕ)
      → IsValid s
      → let (s', removed) = trim s maxlen minid approx limit in
        IsValid s'
        × (removed ≤ length (live s.entries))
        × (live s'.entries ≡ drop removed (live s.entries))
  trim_lem s maxlen minid approx limit v =
      let (k, c) = trim-Cuts s maxlen minid approx limit v in
      let same : k ≡ (trim s maxlen minid approx limit).1 = omega (arith, c.count) in
      let left : Trims s (trim s maxlen minid approx limit).0
          (drop (trim s maxlen minid approx limit).1 (live s.entries)) =
        rw (← same) c.leaves in
      (Trims-IsValid s _ _ v c.leaves, omega (arith, c.within, c.count), left.are_live)
