-- ===== src/Core/Stream/NoLoss.antt =====
-- src/core/stream.rs: two reads of a group give what one does.
use dragonflydb_rs.Common.{
  ℕ, zero, suc, ◌+◌, ◌≡◌, refl, ap, sym, ◌∙◌, arith, Bool, false, List, [], ◌∷◌, ◌++◌, some, Option,
  take, drop, Option-cases, Bool-cases, inl, inr, bytes_eq,
}
use dragonflydb_rs.Common.Results.{Result, ok, err}
use dragonflydb_rs.Core.HashMap.{HashMap}
use dragonflydb_rs.Core.Stream.Id.{StreamId, less, less-asym, less_self, not_less_trans}
use dragonflydb_rs.Core.Stream.Tree.{Tree, after, keys, Above, Above-trans, Ascending}
use dragonflydb_rs.Core.Stream.Defs.{Name, Fields, StreamEntry, ConsumerGroup, Stream}
use dragonflydb_rs.Core.Stream.Groups.{new_entries, read_group, GroupReadErr, no_group}
use dragonflydb_rs.Core.Stream.Live.{IsValid}
use dragonflydb_rs.Core.Stream.Delivery.{contents, last_of, read_group_new}

abbrev ids : List (StreamId × Fields) → List StreamId
ids [] = []
ids ((id, f) ∷ out) = id ∷ ids out

contents-Above :
    (b : StreamId) (t : Tree StreamEntry) → Above b (keys t) → Above b (ids (contents t))
contents-Above b [] h = tt
contents-Above b ((id, e) ∷ t) h = elim (Bool-cases e.deleted) [
  | inl gone ↦ rw gone (contents-Above b t h.1)
  | inr there ↦ rw there (h.0, contents-Above b t h.1)
]

take-Above :
    (b : StreamId) (n : ℕ) (xs : List (StreamId × Fields))
    → Above b (ids xs)
    → Above b (ids (take n xs))
take-Above b zero xs h = tt
take-Above b (suc n) [] h = tt
take-Above b (suc n) ((id, f) ∷ xs) h = (h.0, take-Above b n xs h.1)

-- What was delivered last does not lie below the bound of all.
last_not_below :
    (b id : StreamId) (xs : List (StreamId × Fields))
    → less id b ≡ false
    → Above b (ids xs)
    → less (last_of id xs) b ≡ false
last_not_below b id [] p h = p
last_not_below b id ((j, f) ∷ xs) p h = last_not_below b j xs (less-asym b j h.0) h.1

after_all : (x : StreamId) (t : Tree StreamEntry) → Above x (keys t) → after x t ≡ t
unfolding after
after_all x [] h = refl
after_all x ((id, e) ∷ t) h = rw (h.0) refl

-- Behind what was delivered stands the rest.
after_taken :
    (a : ℕ) (x : StreamId) (t : Tree StreamEntry)
    → Above x (keys t)
    → Ascending (keys t)
    → contents (after (last_of x (take a (contents t))) t) ≡ drop a (contents t)
unfolding after
after_taken zero x t above asc = ap contents (after_all x t above)
after_taken (suc a) x [] above asc = refl
after_taken (suc a) x ((id, e) ∷ t) above asc = elim (Bool-cases e.deleted) [
  | inl gone ↦
      let c : contents ((id, e) ∷ t) ≡ contents t = rw gone refl in
      let y = last_of x (take (suc a) (contents t)) in
      let ih = after_taken (suc a) x t above.1 asc.1 in
      let passed : contents (after y ((id, e) ∷ t)) ≡ contents (after y t) =
        elim (Bool-cases (less y id)) [
          | inl before ↦
              rw before
                (c ∙ ap contents (sym (after_all y t (Above-trans y id (keys t) before asc.0))))
          | inr behind ↦ rw behind refl
        ] in
      ap (λ cs. contents (after (last_of x (take (suc a) cs)) ((id, e) ∷ t))) c
      ∙ passed
      ∙ ih
      ∙ ap (drop (suc a)) (sym c)
  | inr there ↦
      let y = last_of id (take a (contents t)) in
      let behind =
        last_not_below id id (take a (contents t)) (less_self id)
          (take-Above id a (contents t) (contents-Above id t asc.0)) in
      let c : contents ((id, e) ∷ t) ≡ (id, e.fields) ∷ contents t = rw there refl in
      let passed : contents (after y ((id, e) ∷ t)) ≡ contents (after y t) = rw behind refl in
      ap (λ cs. contents (after (last_of x (take (suc a) cs)) ((id, e) ∷ t))) c
      ∙ passed
      ∙ after_taken a id t asc.0 asc.1
      ∙ ap (drop (suc a)) (sym c)
]

after-after :
    (x y : StreamId) (t : Tree StreamEntry) → less y x ≡ false → after y (after x t) ≡ after y t
unfolding after
after-after x y [] h = refl
after-after x y ((id, e) ∷ t) h = elim (Bool-cases (less x id)) [
  | inl above ↦ rw above refl
  | inr passed ↦ let low = not_less_trans y x id h passed in rw (passed, low) (after-after x y t h)
]

after-Ascending :
    (x : StreamId) (t : Tree StreamEntry)
    → Ascending (keys t)
    → Above x (keys (after x t)) × Ascending (keys (after x t))
unfolding after
after-Ascending x [] asc = (tt, tt)
after-Ascending x ((id, e) ∷ t) asc = elim (Bool-cases (less x id)) [
  | inl above ↦ rw above ((above, Above-trans x id (keys t) above asc.0), asc)
  | inr passed ↦ rw passed (after-Ascending x t asc.1)
]

take_none : (b : ℕ) → take {A = StreamId × Fields} b [] ≡ []
take_none zero = refl
take_none (suc b) = refl

take_add :
    (a b : ℕ) (xs : List (StreamId × Fields)) → take a xs ++ take b (drop a xs) ≡ take (a + b) xs
take_add zero b xs = ap (λ n. take n xs) (omega arith)
take_add (suc a) b [] = let e : suc a + b ≡ suc (a + b) = omega arith in rw e (take_none b)
take_add (suc a) b (x ∷ xs) =
    let e : suc a + b ≡ suc (a + b) = omega arith in rw e (ap (◌∷◌ x) (take_add a b xs))

not_ok : {A : Type 0} {a : A} → ◌≡◌ {A = Result GroupReadErr A} (err no_group) (ok a) → ⊥
not_ok h = cc

module _ {m : HashMap Name bytes_eq} where
  -- What a read that succeeded found: the group, and what it then gave.
  read_found :
      (s s' : Stream m) (group_name name : Name) (n : ℕ) (noack : Bool) (now : ℕ)
      (out : List (StreamId × Fields)) {group : ConsumerGroup m}
      → m.lookup s.groups group_name ≡ some group
      → read_group s group_name name new_entries (some n) noack now ≡ ok (s', out)
      → (out ≡ take n (contents (after group.last_delivered s.entries)))
        × (s'.entries ≡ s.entries)
        × (g' : ConsumerGroup m) × (m.lookup s'.groups group_name ≡ some g')
        × (g'.last_delivered ≡ last_of group.last_delivered out)
  read_found s s' group_name name n noack now out found h =
      let (t, e, same, g', f, l) = read_group_new s group_name name (some n) noack now found in
      let both = sym e ∙ h in
      let state : t ≡ s' = cc in
      let given : take n (contents (after _ s.entries)) ≡ out = cc in
      (sym given, rw (← state) same, g', rw (← state) f, rw (← given) l)

  group_exists :
      (s s' : Stream m) (group_name name : Name) (count : Option ℕ) (noack : Bool) (now : ℕ)
      (out : List (StreamId × Fields))
      → read_group s group_name name new_entries count noack now ≡ ok (s', out)
      → (group : ConsumerGroup m) × (m.lookup s.groups group_name ≡ some group)
  unfolding read_group
  group_exists s s' group_name name count noack now out h =
      elim (Option-cases (m.lookup s.groups group_name)) [
        | inl missing ↦ absurd (not_ok (rw missing at h))
        | inr there ↦ there
      ]

  -- Two reads of a group, by whatever consumers, give together what one read of the sum of their counts
  -- would have given: no live entry is lost between them and none is given twice. The stream is valid.
  pub read_group_twice :
      (s s1 s2 s3 : Stream m) (group_name name1 name2 name3 : Name) (a b : ℕ)
      (noack1 noack2 noack3 : Bool) (now1 now2 now3 : ℕ) (out1 out2 out3 : List (StreamId × Fields))
      → IsValid s
      → read_group s group_name name1 new_entries (some a) noack1 now1 ≡ ok (s1, out1)
      → read_group s1 group_name name2 new_entries (some b) noack2 now2 ≡ ok (s2, out2)
      → read_group s group_name name3 new_entries (some (a + b)) noack3 now3 ≡ ok (s3, out3)
      → out1 ++ out2 ≡ out3
  read_group_twice s s1 s2 s3 group_name name1 name2 name3 a b noack1 noack2 noack3 now1 now2 now3
        out1 out2 out3 v h1 h2 h3 =
      let (group, found) = group_exists s s1 group_name name1 (some a) noack1 now1 out1 h1 in
      let (o1, same, g1, f1, l1) = read_found s s1 group_name name1 a noack1 now1 out1 found h1 in
      let (o2, _, _, _, _) = read_found s1 s2 group_name name2 b noack2 now2 out2 f1 h2 in
      let (o3, _, _, _, _) = read_found s s3 group_name name3 (a + b) noack3 now3 out3 found h3 in
      let x = group.last_delivered in
      let t = after x s.entries in
      let all = contents t in
      let (above, asc) = after-Ascending x s.entries v.ascending in
      let y = last_of x (take a all) in
      let low =
        last_not_below x x (take a all) (less_self x)
          (take-Above x a all (contents-Above x t above)) in
      let rest : contents (after g1.last_delivered s1.entries) ≡ drop a all =
        ap (λ id. contents (after id s1.entries)) (l1 ∙ ap (last_of x) o1)
        ∙ ap (λ es. contents (after y es)) same
        ∙ ap contents (sym (after-after x y s.entries low))
        ∙ after_taken a x t above asc in
      let second : out2 ≡ take b (drop a all) = o2 ∙ ap (take b) rest in
      rw (o1, second, o3) (take_add a b all)
