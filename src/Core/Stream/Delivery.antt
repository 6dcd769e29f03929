-- ===== src/Core/Stream/Delivery.antt =====
-- src/core/stream.rs: what a consumer group delivers.
use dragonflydb_rs.Common.{
  ℕ, zero, suc, ◌-◌, ◌≡◌, refl, ap, sym, ◌∙◌, arith, Bool, true, false, List, [], ◌∷◌, ◌++◌,
  append_assoc, append-nil, some, none, Option, length, length-append, take, Bool-cases, inl, inr,
  if◌then◌else◌, bytes_eq, bytes_eq_self,
}
use dragonflydb_rs.Common.Results.{ok}
use dragonflydb_rs.Core.HashMap.{HashMap}
use dragonflydb_rs.Core.Stream.Id.{StreamId, same}
use dragonflydb_rs.Core.Stream.Tree.{Tree, after}
use dragonflydb_rs.Core.Stream.Defs.{Name, Fields, StreamEntry, ConsumerGroup, Stream, first_live}
use dragonflydb_rs.Core.Stream.Groups.{
  reached, new_entries, consumer_mut, given, read_new, with_group, read_group,
}

-- The live entries with their fields, in order.
abbrev pub contents : Tree StreamEntry → List (StreamId × Fields)
contents [] = []
contents ((id, e) ∷ t) = if e.deleted then contents t else (id, e.fields) ∷ contents t

-- At most as many as a count allows.
abbrev pub up_to : Option ℕ → List (StreamId × Fields) → List (StreamId × Fields)
up_to none xs = xs
up_to (some c) xs = take c xs

abbrev pub room : Option ℕ → ℕ → Option ℕ
room none n = none
room (some c) n = some (c - n)

-- The last id of what was delivered, or the old one.
abbrev pub last_of : StreamId → List (StreamId × Fields) → StreamId
last_of id [] = id
last_of id ((j, f) ∷ out) = last_of j out

up_to_full :
    (count : Option ℕ) (n : ℕ) (xs : List (StreamId × Fields))
    → reached count n ≡ true
    → up_to (room count n) xs ≡ []
up_to_full none n xs h = cc
up_to_full (some c) n xs h = let e : c - n ≡ 0 = ground arith in rw e refl

up_to_more :
    (count : Option ℕ) (n : ℕ) (x : StreamId × Fields) (xs : List (StreamId × Fields))
    → reached count n ≡ false
    → up_to (room count n) (x ∷ xs) ≡ x ∷ up_to (room count (suc n)) xs
up_to_more none n x xs h = refl
up_to_more (some c) n x xs h = let e : c - n ≡ suc (c - suc n) = ground arith in rw e refl

up_to_none : (count : Option ℕ) → up_to count [] ≡ []
up_to_none none = refl
up_to_none (some zero) = refl
up_to_none (some (suc c)) = refl

module _ {m : HashMap Name bytes_eq} (s : Stream m) (first_id : Option StreamId) (name : Name)
    (count : Option ℕ) (noack : Bool) (now : ℕ) where
  -- The loop gives the first live entries, and stands behind the last of them.
  read_new_lem :
      (t : Tree StreamEntry) (g : ConsumerGroup m) (out : List (StreamId × Fields))
      → let (g', out') = read_new s first_id name count noack now t g out in
        (out' ≡ out ++ up_to (room count (length out)) (contents t))
        × (g'.last_delivered
            ≡ last_of g.last_delivered (up_to (room count (length out)) (contents t)))
  unfolding read_new
  read_new_lem [] g out = rw (up_to_none (room count (length out))) (sym (append-nil out), refl)
  read_new_lem ((id, e) ∷ t) g out = elim (Bool-cases e.deleted) [
    | inl gone ↦ rw gone (read_new_lem t g out)
    | inr there ↦ elim (Bool-cases (reached count (length out))) [
      | inl full ↦
          let nothing = up_to_full count (length out) ((id, e.fields) ∷ contents t) full in
          rw (there, full) (rw nothing (sym (append-nil out), refl))
      | inr space ↦
          let x : StreamId × Fields = (id, e.fields) in
          let more = up_to_more count (length out) x (contents t) space in
          let size : length (out ++ x ∷ []) ≡ suc (length out) =
            length-append out (x ∷ []) ∙ omega arith in
          let (o, l) = read_new_lem t (given s first_id name noack now id g) (out ++ x ∷ []) in
          rw (there, space)
            (rw more (
              o
                  ∙ rw size (
                      append_assoc out (x ∷ [])
                        (up_to (room count (suc (length out))) (contents t))),
              l ∙ rw size refl,
            ))
    ]
  ]

room_zero : (count : Option ℕ) → room count 0 ≡ count
room_zero none = refl
room_zero (some c) = ap some (omega arith)

-- A read of new entries by any consumer gives the live entries behind the last one that the group has
-- delivered, in order, at most as many as the count, and moves the group behind the last of them. It
-- leaves the entries of the stream alone.
module _ {m : HashMap Name bytes_eq} where
  pub read_group_new :
      (s : Stream m) (group_name name : Name) (count : Option ℕ) (noack : Bool) (now : ℕ)
      {group : ConsumerGroup m}
      → m.lookup s.groups group_name ≡ some group
      → let out = up_to count (contents (after group.last_delivered s.entries)) in
        (s' : Stream m) × (read_group s group_name name new_entries count noack now ≡ ok (s', out))
        × (s'.entries ≡ s.entries)
        × (g' : ConsumerGroup m) × (m.lookup s'.groups group_name ≡ some g')
        × (g'.last_delivered ≡ last_of group.last_delivered out)
  unfolding read_group consumer_mut same
  read_group_new s group_name name count noack now {group} found =
      let g = consumer_mut group name now in
      let r =
        read_new s (first_live s.entries) name count noack now
          (after group.last_delivered s.entries) g [] in
      let (o, l) =
        read_new_lem s (first_live s.entries) name count noack now
          (after group.last_delivered s.entries) g [] in
      let zero_room = room_zero count in
      (
        with_group s group_name r.0,
        rw found (ap (λ out. ok (with_group s group_name r.0, out)) (rw zero_room at o)),
        refl,
        r.0,
        m.lookup_put s.groups group_name r.0 group_name ∙ rw (bytes_eq_self group_name) refl,
        rw zero_room at l,
      )
