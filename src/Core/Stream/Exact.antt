-- ===== src/Core/Stream/Exact.antt =====
-- src/core/stream.rs: exact trimming by length and by id, without a limit.
use dragonflydb_rs.Common.{
  ℕ, suc, ◌+◌, ◌-◌, ◌≤◌, ◌≡◌, refl, ap, sym, ◌∙◌, arith, true, false, List, [], ◌∷◌, ◌++◌, some,
  none, min, length, length-append, length-drop, drop, drop-append, last?, leb, ltb, Bool-cases,
  inl, inr, if◌then◌else◌, bytes_eq,
}
use dragonflydb_rs.Core.HashMap.{HashMap}
use dragonflydb_rs.Core.Stream.Id.{StreamId, less, less_trans, above_trans, not_below_min}
use dragonflydb_rs.Core.Stream.Tree.{Above, Ascending}
use dragonflydb_rs.Core.Stream.Defs.{Name, Stream, sub_u64, trim_delete}
use dragonflydb_rs.Core.Stream.Trim.{node_chunks, or_min, trim_node, trim_partly, trim_nodes, trim}
use dragonflydb_rs.Core.Stream.Live.{
  live, IsValid, Trims, Cuts, trim_delete_first, none_cut, cut_more, trim_node_lem, cut_node,
  live-Ascending,
}
use dragonflydb_rs.Core.Stream.Bounds.{concat, nodes_hold, Trims-start}

module _ {m : HashMap Name bytes_eq} (s0 : Stream m) (max : ℕ) where
  partly_max :
      (node js : List StreamId) (s : Stream m) (removed : ℕ)
      → Trims s0 s (node ++ js)
      → length js ≤ max
      → Cuts s0
          (trim_partly (some max) none node s removed)
          removed
          (node ++ js)
          (length (node ++ js) - max)
  unfolding trim_partly
  partly_max [] js s removed t few =
      let e : length js - max ≡ 0 = omega arith in rw e (none_cut s0 s removed js t)
  partly_max (id ∷ node) js s removed t few = elim (Bool-cases (ltb max s.length)) [
    | inl over ↦
        let e : length (id ∷ (node ++ js)) - max ≡ suc (length (node ++ js) - max) =
          ground (arith, t.counted) in
        let (gone, next) = trim_delete_first s0 s id (node ++ js) t in
        rw (over, gone)
          (rw e (
            cut_more s0 _ removed _ id (node ++ js)
              (partly_max node js (trim_delete s id).0 (removed + 1) next few)))
    | inr short ↦
        let e : length (id ∷ (node ++ js)) - max ≡ 0 = ground (arith, t.counted) in
        rw short (rw e (none_cut s0 s removed (id ∷ (node ++ js)) t))
  ]

  nodes_max :
      (nodes : List (List StreamId)) (s : Stream m) (removed : ℕ)
      → Trims s0 s (concat nodes)
      → Cuts s0
          (trim_nodes (some max) none false none nodes s removed)
          removed
          (concat nodes)
          (length (concat nodes) - max)
  unfolding trim_nodes
  nodes_max [] s removed t = let e : 0 - max ≡ 0 = omega arith in rw e (none_cut s0 s removed [] t)
  nodes_max (node ∷ nodes) s removed t =
      let js = concat nodes in
      let size = length-append node js in
      elim (Bool-cases (leb s.length max)) [
        | inl fits ↦
            let e : length (node ++ js) - max ≡ 0 = ground (arith, t.counted) in
            rw fits (rw e (none_cut s0 s removed (node ++ js) t))
        | inr over ↦ elim (Bool-cases (leb max (sub_u64 s.length (length node)))) [
          | inl whole ↦
              let (count, next) = trim_node_lem s0 node js s removed t in
              let e : length (node ++ js) - max ≡ length node + (length js - max) =
                ground (arith, t.counted, t.small, size) in
              rw (over, whole, count)
                (rw e (
                  cut_node s0 _ removed _ node js
                    (nodes_max nodes (trim_node node s removed).0 (removed + length node) next)))
          | inr partly ↦
              rw (over, partly)
                (partly_max node js s removed t (ground (arith, t.counted, t.small, size)))
        ]
      ]

module _ {m : HashMap Name bytes_eq} where
  -- Exact trimming by length, without a limit, leaves exactly the newest `max` live entries, or all
  -- of them if there are fewer, and returns how many it deleted.
  pub trim-maxlen :
      (s : Stream m) (max : ℕ)
      → IsValid s
      → let (s', removed) = trim s (some max) none false none in
        (removed ≡ length (live s.entries) - max)
        × (live s'.entries ≡ drop (length (live s.entries) - max) (live s.entries))
        × (s'.length ≡ min max (length (live s.entries)))
  unfolding trim
  trim-maxlen s max v =
      let c =
        rw (nodes_hold s) at
          (nodes_max s max (node_chunks s) s 0 (rw (nodes_hold s) (Trims-start s v))) in
      (
        c.count ∙ omega arith,
        c.leaves.are_live,
        omega
            (arith, c.leaves.counted, length-drop (length (live s.entries) - max) (live s.entries)),
      )

-- The ids that are not below a bound.
abbrev pub at_least : StreamId → List StreamId → List StreamId
at_least min [] = []
at_least min (j ∷ js) = if less j min then at_least min js else j ∷ at_least min js

-- Going up, everything behind an id that is not below the bound is not below it either.
all_at_least :
    (min id : StreamId) (js : List StreamId)
    → Above id js
    → less id min ≡ false
    → at_least min js ≡ js
all_at_least min id [] above h = refl
all_at_least min id (j ∷ js) above h =
    let up = above_trans id j min h above.0 in rw up (ap (◌∷◌ j) (all_at_least min id js above.1 h))

-- The last id of a node that stays is not below the bound, nor is anything behind it.
behind_last :
    (min : StreamId) (node js : List StreamId)
    → Ascending (node ++ js)
    → less (or_min (last? node)) min ≡ false
    → at_least min js ≡ js
behind_last min [] [] asc h = refl
behind_last min [] (j ∷ js) asc h =
    let up = not_below_min j min h in rw up (ap (◌∷◌ j) (all_at_least min j js asc.0 up))
behind_last min (id ∷ []) js asc h = all_at_least min id js asc.0 h
behind_last min (id ∷ id' ∷ node) js asc h = behind_last min (id' ∷ node) js asc.1 h

-- The first id of a node below the bound.
first_below :
    (min id : StreamId) (node js : List StreamId)
    → Ascending ((id ∷ node) ++ js)
    → less (or_min (last? (id ∷ node))) min ≡ true
    → less id min ≡ true
first_below min id [] js asc h = h
first_below min id (id' ∷ node) js asc h =
    less_trans id id' min asc.0.0 (first_below min id' node js asc.1 h)

-- A whole node below the bound.
node_below :
    (min : StreamId) (node js : List StreamId)
    → Ascending (node ++ js)
    → less (or_min (last? node)) min ≡ true
    → at_least min (node ++ js) ≡ at_least min js
node_below min [] js asc h = refl
node_below min (id ∷ []) js asc h = rw h refl
node_below min (id ∷ id' ∷ node) js asc h =
    let below = first_below min id (id' ∷ node) js asc h in
    rw below (node_below min (id' ∷ node) js asc.1 h)

rest_Ascending : (node js : List StreamId) → Ascending (node ++ js) → Ascending js
rest_Ascending [] js h = h
rest_Ascending (id ∷ node) js h = rest_Ascending node js h.1

module _ {m : HashMap Name bytes_eq} (s0 : Stream m) (min : StreamId) where
  -- A cut that leaves exactly the ids at or above the bound.
  abbrev CutsBelow : Stream m × ℕ → ℕ → List StreamId → Type 0
  CutsBelow result removed js =
      (k : ℕ) × Cuts s0 result removed js k × (drop k js ≡ at_least min js)

  partly_min :
      (node js : List StreamId) (s : Stream m) (removed : ℕ)
      → Trims s0 s (node ++ js)
      → Ascending (node ++ js)
      → at_least min js ≡ js
      → CutsBelow (trim_partly none (some min) node s removed) removed (node ++ js)
  unfolding trim_partly
  partly_min [] js s removed t asc up = (0, none_cut s0 s removed js t, sym up)
  partly_min (id ∷ node) js s removed t asc up = elim (Bool-cases (less id min)) [
    | inl below ↦
        let (gone, next) = trim_delete_first s0 s id (node ++ js) t in
        let (k, c, left) = partly_min node js (trim_delete s id).0 (removed + 1) next asc.1 up in
        rw (below, gone) (suc k, cut_more s0 _ removed k id (node ++ js) c, left)
    | inr stays ↦ rw stays (
      0,
      none_cut s0 s removed (id ∷ (node ++ js)) t,
      ap (◌∷◌ id) (sym (all_at_least min id (node ++ js) asc.0 stays)),
    )
  ]

  nodes_min :
      (nodes : List (List StreamId)) (s : Stream m) (removed : ℕ)
      → Trims s0 s (concat nodes)
      → Ascending (concat nodes)
      → CutsBelow (trim_nodes none (some min) false none nodes s removed) removed (concat nodes)
  unfolding trim_nodes
  nodes_min [] s removed t asc = (0, none_cut s0 s removed [] t, refl)
  nodes_min (node ∷ nodes) s removed t asc =
      let js = concat nodes in
      elim (Bool-cases (less (or_min (last? node)) min)) [
        | inl whole ↦
            let (count, next) = trim_node_lem s0 node js s removed t in
            let (k, c, left) =
              nodes_min nodes (trim_node node s removed).0 (removed + length node) next
                (rest_Ascending node js asc) in
            rw (whole, count)
              (
                length node + k,
                cut_node s0 _ removed k node js c,
                drop-append node js k ∙ left ∙ sym (node_below min node js asc whole),
              )
        | inr partly ↦
            rw partly (partly_min node js s removed t asc (behind_last min node js asc partly))
      ]

module _ {m : HashMap Name bytes_eq} where
  -- Exact trimming by id, without a limit, leaves exactly the live entries that are not below the bound,
  -- and returns how many it deleted.
  pub trim-minid :
      (s : Stream m) (min : StreamId)
      → IsValid s
      → let (s', removed) = trim s none (some min) false none in
        (live s'.entries ≡ at_least min (live s.entries))
        × (removed + length (live s'.entries) ≡ length (live s.entries))
  unfolding trim
  trim-minid s min v =
      let asc : Ascending (concat (node_chunks s)) =
        rw (nodes_hold s) (live-Ascending s.entries v.ascending) in
      let (k, c, left) =
        nodes_min s min (node_chunks s) s 0 (rw (nodes_hold s) (Trims-start s v)) asc in
      let cuts : Cuts s (trim_nodes none (some min) false none (node_chunks s) s 0) 0
          (live s.entries) k =
        rw (nodes_hold s) at c in
      (
        cuts.leaves.are_live ∙ rw (nodes_hold s) at left,
        rw (cuts.leaves.are_live)
            (omega (arith, cuts.count, cuts.within, length-drop k (live s.entries))),
      )
