-- ===== src/Core/Stream/Trim.antt =====
-- src/core/stream.rs: `node_chunks` and `trim`.
use dragonflydb_rs.Common.{
  ℕ, ◌+◌, Bool, true, false, ◌||◌, not, ◌&&◌, List, [], ◌∷◌, ◌++◌, Option, none, some, length,
  last?, ltb, leb, ◌==◌, if◌then◌else◌, bytes_eq,
}
use dragonflydb_rs.Core.HashMap.{HashMap}
use dragonflydb_rs.Core.Stream.Id.{StreamId, min_id, less}
use dragonflydb_rs.Core.Stream.Tree.{Tree}
use dragonflydb_rs.Core.Stream.Defs.{Name, StreamEntry, Stream, sub_u64, trim_delete}

abbrev pub node_max_entries : ℕ
node_max_entries = 100

abbrev pub is_nil {ℓ} : {A : Type ℓ} → List A → Bool
is_nil [] = true
is_nil (x ∷ xs) = false

-- The loop over the entries, with the node that is being filled.
unfoldable pub chunk_loop : Tree StreamEntry → List StreamId → List (List StreamId)
chunk_loop [] current = if is_nil current then [] else current ∷ []
chunk_loop ((id, e) ∷ t) current =
    let skipped = chunk_loop t current in
    let filled = (current ++ id ∷ []) ∷ chunk_loop t [] in
    let longer = chunk_loop t (current ++ id ∷ []) in
    if e.deleted
    then skipped
    else if length (current ++ id ∷ []) == node_max_entries
    then filled
    else longer

-- `maxlen.is_some_and(|m| length <= m)`, and its opposite.
abbrev pub fits : Option ℕ → ℕ → Bool
fits none n = false
fits (some max) n = leb n max

abbrev pub over_len : Option ℕ → ℕ → Bool
over_len none n = false
over_len (some max) n = ltb max n

abbrev pub below_min : Option StreamId → StreamId → Bool
below_min none id = false
below_min (some min) id = less id min

abbrev pub over_limit : Option ℕ → ℕ → Bool
over_limit none n = false
over_limit (some limit) n = ltb limit n

abbrev pub or_min : Option StreamId → StreamId
or_min none = min_id
or_min (some id) = id

-- Whether a node of `n` entries goes as a whole.
abbrev pub remove_node : Option ℕ → Option StreamId → ℕ → ℕ → StreamId → Bool
remove_node (some max) none total n last_id = leb max (sub_u64 total n)
remove_node none (some min) total n last_id = less last_id min
remove_node none none total n last_id = false
remove_node (some max) (some min) total n last_id = false

abbrev pub count_if : Bool → ℕ → ℕ
count_if true n = n + 1
count_if false n = n

module _ {m : HashMap Name bytes_eq} where
  unfoldable pub node_chunks : Stream m → List (List StreamId)
  node_chunks s = chunk_loop s.entries []

  -- `for id in &node { if self.trim_delete(*id) { removed += 1 } }`
  unfoldable pub trim_node : List StreamId → Stream m → ℕ → Stream m × ℕ
  trim_node [] s removed = (s, removed)
  trim_node (id ∷ node) s removed =
      let (s', gone) = trim_delete s id in trim_node node s' (count_if gone removed)

  -- The partial trimming of the first node that stays.
  unfoldable pub trim_partly :
      Option ℕ → Option StreamId → List StreamId → Stream m → ℕ → Stream m × ℕ
  trim_partly maxlen minid [] s removed = (s, removed)
  trim_partly maxlen minid (id ∷ node) s removed =
      let (s', gone) = trim_delete s id in
      let rest = trim_partly maxlen minid node s' (count_if gone removed) in
      if not (over_len maxlen s.length) && not (below_min minid id) then (s, removed) else rest

  unfoldable pub trim_nodes :
      Option ℕ
      → Option StreamId
      → Bool
      → Option ℕ
      → List (List StreamId)
      → Stream m
      → ℕ
      → Stream m × ℕ
  trim_nodes maxlen minid approx limit [] s removed = (s, removed)
  trim_nodes maxlen minid approx limit (node ∷ nodes) s removed =
      let (s', removed') = trim_node node s removed in
      let rest = trim_nodes maxlen minid approx limit nodes s' removed' in
      if fits maxlen s.length || over_limit limit (removed + length node)
      then (s, removed)
      else if remove_node maxlen minid s.length (length node) (or_min (last? node))
      then rest
      else if approx
      then (s, removed)
      else trim_partly maxlen minid node s removed

  unfoldable pub trim : Stream m → Option ℕ → Option StreamId → Bool → Option ℕ → Stream m × ℕ
  trim s maxlen minid approx limit = trim_nodes maxlen minid approx limit (node_chunks s) s 0
