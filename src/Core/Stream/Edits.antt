-- ===== src/Core/Stream/Edits.antt =====
-- src/core/stream.rs: `append` and `delete`.
use dragonflydb_rs.Common.{
  suc, ◌+◌, ◌^◌, ◌<◌, ◌≡◌, refl, ap, sym, arith, true, false, List, [], ◌∷◌, ◌++◌, some, length,
  length-append, Bool-cases, inl, inr, if◌then◌else◌, bytes_eq,
}
use dragonflydb_rs.Core.HashMap.{HashMap}
use dragonflydb_rs.Core.Stream.Id.{
  StreamId, less, same, less-ne, less-ne_sym, less_self, less-asym, less-snoc, same→eq, same_self,
}
use dragonflydb_rs.Core.Stream.Tree.{
  Tree, get, modify, keys, Above, Below, Ascending, Ascending-snoc, keys-modify, keys-append,
  insert_last,
}
use dragonflydb_rs.Core.Stream.Defs.{
  Name, Fields, StreamEntry, Stream, is_live, mark, append, delete,
}
use dragonflydb_rs.Core.Stream.Live.{live, live-Above, UpTo, IsValid}

live-append : (t u : Tree StreamEntry) → live (t ++ u) ≡ live t ++ live u
unfolding live
live-append [] u = refl
live-append ((id, e) ∷ t) u = elim (Bool-cases e.deleted) [
  | inl gone ↦ rw gone (live-append t u)
  | inr there ↦ rw there (ap (◌∷◌ id) (live-append t u))
]

-- An entry behind all others is found.
get_last :
    (t : Tree StreamEntry) (id : StreamId) (e : StreamEntry)
    → Below (keys t) id
    → get id (t ++ (id, e) ∷ []) ≡ some e
unfolding get
get_last [] id e h = rw (same_self id) refl
get_last ((j, d) ∷ t) id e h = rw (less-ne j id h.0) (get_last t id e h.1)

-- Ids up to the last one lie below a later one.
UpTo-Below :
    (js : List StreamId) (last id : StreamId) → UpTo js last → less last id ≡ true → Below js id
UpTo-Below [] last id h p = tt
UpTo-Below (j ∷ js) last id h p = (less-snoc j last id h.0 p, UpTo-Below js last id h.1 p)

Below-UpTo : (js : List StreamId) (id : StreamId) → Below js id → UpTo (js ++ id ∷ []) id
Below-UpTo [] id h = (less_self id, tt)
Below-UpTo (j ∷ js) id h = (less-asym j id h.0, Below-UpTo js id h.1)

-- The ids without one of them.
abbrev pub without : StreamId → List StreamId → List StreamId
without id [] = []
without id (j ∷ js) = if same j id then without id js else j ∷ without id js

without-Above : (id : StreamId) (js : List StreamId) → Above id js → without id js ≡ js
without-Above id [] h = refl
without-Above id (j ∷ js) h = rw (less-ne_sym id j h.0) (ap (◌∷◌ j) (without-Above id js h.1))

-- Marking a live entry takes its id out of the live ones, and one only.
mark_lem :
    (t : Tree StreamEntry) (id : StreamId)
    → Ascending (keys t)
    → is_live (get id t) ≡ true
    → (live (modify id mark t) ≡ without id (live t))
      × (length (live t) ≡ suc (length (live (modify id mark t))))
unfolding live get modify
mark_lem [] id asc h = cc
mark_lem ((j, e) ∷ t) id asc h = elim (Bool-cases (same j id)) [
  | inl this ↦
      let e' : j ≡ id = same→eq j id this in
      let there : e.deleted ≡ false = ground arith in
      let above : Above id (live t) = rw e' at (live-Above j t asc.0) in
      rw (this, there) (rw this (sym (without-Above id (live t) above), refl))
  | inr other ↦
      let (left, size) = mark_lem t id asc.1 (rw other at h) in
      elim (Bool-cases e.deleted) [
        | inl gone ↦ rw (other, gone) (left, size)
        | inr there ↦ rw (other, there) (rw other (ap (◌∷◌ j) left, ap suc size))
      ]
]

module _ {m : HashMap Name bytes_eq} where
  -- An id above the last one goes to the end of a valid stream, which stays valid.
  pub append_lem :
      (s : Stream m) (id : StreamId) (fields : Fields)
      → IsValid s
      → less s.last_id id ≡ true
      → length (live s.entries) + 1 < 2 ^ 64
      → IsValid (append s id fields)
        × (live (append s id fields).entries ≡ live s.entries ++ id ∷ [])
        × (get id (append s id fields).entries ≡ some (record { fields = fields; deleted = false }))
  unfolding append live
  append_lem s id fields v p room =
      let e : StreamEntry = record { fields = fields; deleted = false } in
      let below = UpTo-Below (keys s.entries) s.last_id id v.up_to p in
      let last = insert_last s.entries id e below in
      let ids : live (s.entries ++ (id, e) ∷ []) ≡ live s.entries ++ id ∷ [] =
        live-append s.entries ((id, e) ∷ []) in
      let names = keys-append s.entries ((id, e) ∷ []) in
      let size = length-append (live s.entries) (id ∷ []) in
      rw last (
        record {
          ascending = rw names (Ascending-snoc (keys s.entries) id v.ascending below);
          up_to = rw names (Below-UpTo (keys s.entries) id below);
          counted = rw ids (omega (arith, size, v.counted));
          small = rw ids (omega (arith, size));
        },
        ids,
        get_last s.entries id e below,
      )

  -- delete on a valid stream keeps it valid. A live entry leaves the live ones, alone, and the call
  -- gives true; any other id changes nothing and gives false.
  pub delete_lem :
      (s : Stream m) (id : StreamId)
      → IsValid s
      → IsValid (delete s id).0
        × (live (delete s id).0.entries
            ≡ (if (delete s id).1 then without id (live s.entries) else live s.entries))
        × ((delete s id).1 ≡ is_live (get id s.entries))
  unfolding delete
  delete_lem s id v = elim (Bool-cases (is_live (get id s.entries))) [
    | inl there ↦
        let (left, size) = mark_lem s.entries id v.ascending there in
        let names = keys-modify s.entries id mark in
        rw there (
          record {
            ascending = rw names v.ascending;
            up_to = rw names v.up_to;
            counted = omega (arith, size, v.counted, v.small);
            small = omega (arith, size, v.small);
          },
          left,
          refl,
        )
    | inr not_there ↦ rw not_there (v, refl, refl)
  ]
