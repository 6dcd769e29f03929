-- ===== src/Core/Stream/Live.antt =====
-- src/core/stream.rs: the live entries of a stream, and what a deletion does to them.
use dragonflydb_rs.Common.{
  ℕ, suc, ◌+◌, ◌^◌, ◌≤◌, ◌<◌, ◌≡◌, refl, ap, ◌∙◌, arith, true, false, List, [], ◌∷◌, ◌++◌, length,
  length-append, drop, drop-append, Bool-cases, inl, inr, if◌then◌else◌, bytes_eq,
}
use dragonflydb_rs.Core.HashMap.{HashMap}
use dragonflydb_rs.Core.Stream.Id.{StreamId, less, less-ne, same_self}
use dragonflydb_rs.Core.Stream.Tree.{Tree, get, modify, keys, Above, Ascending, keys-modify}
use dragonflydb_rs.Core.Stream.Defs.{Name, StreamEntry, Stream, is_live, mark, trim_delete}
use dragonflydb_rs.Core.Stream.Trim.{count_if, trim_node}

-- The ids of the entries that are not deleted, in order.
unfoldable pub live : Tree StreamEntry → List StreamId
live [] = []
live ((id, e) ∷ t) = if e.deleted then live t else id ∷ live t

pub live-Above : (b : StreamId) (t : Tree StreamEntry) → Above b (keys t) → Above b (live t)
unfolding live
live-Above b [] h = tt
live-Above b ((id, e) ∷ t) h = elim (Bool-cases e.deleted) [
  | inl gone ↦ rw gone (live-Above b t h.1)
  | inr there ↦ rw there (h.0, live-Above b t h.1)
]

pub live-Ascending : (t : Tree StreamEntry) → Ascending (keys t) → Ascending (live t)
unfolding live
live-Ascending [] h = tt
live-Ascending ((id, e) ∷ t) h = elim (Bool-cases e.deleted) [
  | inl gone ↦ rw gone (live-Ascending t h.1)
  | inr there ↦ rw there (live-Above id t h.0, live-Ascending t h.1)
]

-- Marking the first live entry leaves the others.
mark_first :
    (t : Tree StreamEntry) (id : StreamId) (rest : List StreamId)
    → Ascending (keys t)
    → live t ≡ id ∷ rest
    → (is_live (get id t) ≡ true) × (live (modify id mark t) ≡ rest)
unfolding live get modify
mark_first [] id rest asc h = cc
mark_first ((j, e) ∷ t) id rest asc h = elim (Bool-cases e.deleted) [
  | inl gone ↦
      let later : live t ≡ id ∷ rest = rw gone at h in
      let above : Above j (id ∷ rest) = rw later at (live-Above j t asc.0) in
      let other = less-ne j id above.0 in rw (other, gone) (mark_first t id rest asc.1 later)
  | inr there ↦
      let both : ◌≡◌ {A = List StreamId} (j ∷ live t) (id ∷ rest) = rw there at h in
      let this : j ≡ id = cc in
      let tail : live t ≡ rest = cc in rw (← this) (rw (same_self j, there) (refl, tail))
]

-- The invariant of a stream: its entries go up, none lies above the last id, and the length counts
-- those that are not deleted.
abbrev pub UpTo : List StreamId → StreamId → Type 0
UpTo [] last = Unit
UpTo (j ∷ js) last = (less last j ≡ false) × UpTo js last

module _ {m : HashMap Name bytes_eq} where
  pub record IsValid (s : Stream m) : Type 0 where
    pub ascending : Ascending (keys s.entries)
    pub up_to : UpTo (keys s.entries) s.last_id
    pub counted : s.length ≡ length (live s.entries)
    pub small : length (live s.entries) < 2 ^ 64

module _ {m : HashMap Name bytes_eq} (s0 : Stream m) where
  -- A state of a stream while it is trimmed, with the ids that are still live.
  pub record Trims (s : Stream m) (js : List StreamId) : Type 0 where
    pub ascending : Ascending (keys s.entries)
    pub are_live : live s.entries ≡ js
    pub counted : s.length ≡ length js
    pub small : length js < 2 ^ 64
    pub same_keys : keys s.entries ≡ keys s0.entries
    pub same_last : s.last_id ≡ s0.last_id

  -- Trimming removed the first `k` of the live ids, and counted them.
  pub record Cuts (result : Stream m × ℕ) (removed : ℕ) (js : List StreamId) (k : ℕ) : Type 0 where
    pub count : result.1 ≡ removed + k
    pub within : k ≤ length js
    pub leaves : Trims result.0 (drop k js)

  pub trim_delete_first :
      (s : Stream m) (id : StreamId) (js : List StreamId)
      → Trims s (id ∷ js)
      → ((trim_delete s id).1 ≡ true) × Trims (trim_delete s id).0 js
  unfolding trim_delete
  trim_delete_first s id js t =
      let (there, rest) = mark_first s.entries id js t.ascending t.are_live in
      let same = keys-modify s.entries id mark in
      rw there (
        refl,
        record {
          ascending = rw same t.ascending;
          are_live = rest;
          counted = omega (arith, t.counted, t.small);
          small = omega (arith, t.small);
          same_keys = same ∙ t.same_keys;
          same_last = t.same_last;
        },
      )

  pub none_cut :
      (s : Stream m) (removed : ℕ) (js : List StreamId)
      → Trims s js
      → Cuts (s, removed) removed js 0
  none_cut s removed js t = record { count = omega arith; within = omega arith; leaves = t }

  -- One deletion, and then a cut of the rest.
  pub cut_more :
      (result : Stream m × ℕ) (removed k : ℕ) (id : StreamId) (js : List StreamId)
      → Cuts result (removed + 1) js k
      → Cuts result removed (id ∷ js) (suc k)
  cut_more result removed k id js c = record {
    count = omega (arith, c.count);
    within = omega (arith, c.within);
    leaves = c.leaves;
  }

  -- A whole node.
  pub trim_node_lem :
      (node js : List StreamId) (s : Stream m) (removed : ℕ)
      → Trims s (node ++ js)
      → ((trim_node node s removed).1 ≡ removed + length node)
        × Trims (trim_node node s removed).0 js
  unfolding trim_node
  trim_node_lem [] js s removed t = (omega arith, t)
  trim_node_lem (id ∷ node) js s removed t =
      let (gone, next) = trim_delete_first s id (node ++ js) t in
      let (count, last) = trim_node_lem node js (trim_delete s id).0 (removed + 1) next in
      let e : trim_node (id ∷ node) s removed ≡ trim_node node (trim_delete s id).0 (removed + 1) =
        ap (λ b. trim_node node (trim_delete s id).0 (count_if b removed)) gone in
      rw e (omega (arith, count), last)

  pub cut_node :
      (result : Stream m × ℕ) (removed k : ℕ) (node js : List StreamId)
      → Cuts result (removed + length node) js k
      → Cuts result removed (node ++ js) (length node + k)
  cut_node result removed k node js c = record {
    count = omega (arith, c.count);
    within = omega (arith, c.within, length-append node js);
    leaves = rw (drop-append node js k) c.leaves;
  }
