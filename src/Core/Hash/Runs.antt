-- ===== src/Core/Hash/Runs.antt =====
-- src/core/hash.rs: a hash against the plain description of fields with values that can expire.
use dragonflydb_rs.Common.{
  ℕ, ◌≡◌, refl, sym, ap, ◌∙◌, inl, inr, arith, Bool, true, false, not, ◌&&◌, List, [], ◌∷◌, Option,
  none, some, if◌then◌else◌, bytes_eq, bytes_eq→eq, Bool-cases, Option-cases,
}
use dragonflydb_rs.Core.HashMap.{HashMap}
use dragonflydb_rs.Core.HashMap.Entries.{Listing}
use dragonflydb_rs.Core.Set.{Member, is_some, any_eq, or_empty, expiry_in, expired_in}
use dragonflydb_rs.Core.Set.Shows.{past, two_tests}
use dragonflydb_rs.Core.Set.Runs.{or_empty_lem, due_in}
use dragonflydb_rs.Core.Hash.{
  Hash, new, get, contains, field_expire_ms, set, remove, set_expiry, clear_field_expiry,
  expire_present, expire_new, add_expirable, add_or_skip, remove_all, prune_expired,
}
use dragonflydb_rs.Core.Hash.Shows.{
  ValidRepr, contains_lem, set_in_lem, remove_from_lem, expiry_without_lem,
}
use dragonflydb_rs.Core.Hash.Contents.{
  Call, call_set, call_add_expirable, call_add_or_skip, call_remove, call_prune_expired, Contents,
  nothing, with_value, with_expiry, kept, expected, expected_all, Covered, expected-Covered,
}

module _ {m : HashMap Member bytes_eq} where
  -- A hash has these contents.
  pub record Shows (h : Hash m) (c : Contents) : Type 0 where
    pub valid : ValidRepr h.repr
    pub value_of : (j : Member) → get h j ≡ c.value j
    pub expiry_of : (j : Member) → field_expire_ms h j ≡ c.expires j

  contains_of :
      (h : Hash m) (c : Contents) → Shows h c → (k : Member) → contains h k ≡ is_some (c.value k)
  unfolding contains get
  contains_of h c s k = contains_lem h.repr k ∙ ap is_some (s.value_of k)

  Shows-set :
      (h : Hash m) (c : Contents) (k y : Member)
      → Shows h c
      → Shows (set h k y).0 (with_value c k y)
  unfolding set get field_expire_ms
  Shows-set h c k y s =
      let one = set_in_lem h.repr k y s.valid in
      record {
        valid = one.0;
        value_of = λ j. one.1 j ∙ ap (λ o. if bytes_eq k j then some y else o) (s.value_of j);
        expiry_of = s.expiry_of;
      }

  Shows-set_expiry :
      (h : Hash m) (c : Contents) (k : Member) (at : ℕ)
      → Shows h c
      → Shows (set_expiry h k at) (with_expiry c k (some at))
  unfolding get field_expire_ms
  Shows-set_expiry h c k at s = record {
    valid = s.valid;
    value_of = s.value_of;
    expiry_of = λ j.
        m.lookup_put (or_empty m h.expiry) k at j
        ∙ ap (λ o. if bytes_eq k j then some at else o) (or_empty_lem m h.expiry j ∙ s.expiry_of j);
  }

  -- An expiry that is written again.
  unchanged :
      (h : Hash m) (c : Contents) (k : Member) (o : Option ℕ)
      → c.expires k ≡ o
      → Shows h c
      → Shows h (with_expiry c k o)
  unchanged h c k o e s = record {
    valid = s.valid;
    value_of = s.value_of;
    expiry_of = λ j. s.expiry_of j ∙ elim (Bool-cases (bytes_eq k j)) [
      | inl g ↦ let same = bytes_eq→eq k j g in rw g (ap c.expires (sym same) ∙ e)
      | inr g ↦ rw g refl
    ];
  }

  Shows-expire_new :
      (h : Hash m) (c : Contents) (k : Member) (at : Option ℕ)
      → c.expires k ≡ none
      → Shows h c
      → Shows (expire_new h k at) (with_expiry c k at)
  Shows-expire_new h c k none e s = unchanged h c k none e s
  Shows-expire_new h c k (some at) e s = Shows-set_expiry h c k at s

module _ {m : HashMap Member bytes_eq} (l : Listing m) where
  Shows-clear_field_expiry :
      (h : Hash m) (c : Contents) (k : Member)
      → Shows h c
      → Shows (clear_field_expiry h k) (with_expiry c k none)
  unfolding get field_expire_ms
  Shows-clear_field_expiry h c k s = record {
    valid = s.valid;
    value_of = s.value_of;
    expiry_of = λ j.
        expiry_without_lem l h.expiry k j
        ∙ ap (λ o. if bytes_eq k j then none else o) (s.expiry_of j);
  }

  Shows-expire_present :
      (h : Hash m) (c : Contents) (k : Member) (keepttl : Bool) (old at : Option ℕ)
      → c.expires k ≡ old
      → Shows h c
      → Shows (expire_present h k keepttl old at) (with_expiry c k (kept keepttl old at))
  Shows-expire_present h c k false old (some at) e s = Shows-set_expiry h c k at s
  Shows-expire_present h c k false old none e s = Shows-clear_field_expiry h c k s
  Shows-expire_present h c k true none (some at) e s = Shows-set_expiry h c k at s
  Shows-expire_present h c k true none none e s = unchanged h c k none e s
  Shows-expire_present h c k true (some old) at e s = unchanged h c k (some old) e s

  Shows-add_expirable :
      (h : Hash m) (c : Contents) (k y : Member) (at : Option ℕ) (keepttl : Bool)
      → Covered c
      → Shows h c
      → Shows (add_expirable h k y at keepttl).0 (expected c (call_add_expirable k y at keepttl))
  unfolding add_expirable
  Shows-add_expirable h c k y at keepttl covered s =
      let there = contains_of h c s k in
      let old = s.expiry_of k in
      elim (Option-cases (c.value k)) [
        | inl e ↦
            rw (there, e)
              (Shows-set (expire_new h k at) (with_expiry c k at) k y
                (Shows-expire_new h c k at (covered k e) s))
        | inr e ↦
            rw (there, e.1, old)
              (Shows-set (expire_present h k keepttl (c.expires k) at)
                (with_expiry c k (kept keepttl (c.expires k) at)) k y
                (Shows-expire_present h c k keepttl (c.expires k) at refl s))
      ]

  Shows-add_or_skip :
      (h : Hash m) (c : Contents) (k y : Member) (at : Option ℕ)
      → Covered c
      → Shows h c
      → Shows (add_or_skip h k y at).0 (expected c (call_add_or_skip k y at))
  unfolding add_or_skip
  Shows-add_or_skip h c k y at covered s =
      let there = contains_of h c s k in
      elim (Option-cases (c.value k)) [
        | inl e ↦
            rw (there, e)
              (Shows-set (expire_new h k at) (with_expiry c k at) k y
                (Shows-expire_new h c k at (covered k e) s))
        | inr e ↦ rw (there, e.1) s
      ]

  Shows-remove :
      (h : Hash m) (c : Contents) (k : Member)
      → Shows h c
      → Shows (remove h k).0 (expected c (call_remove k))
  unfolding remove get field_expire_ms
  Shows-remove h c k s =
      let one = remove_from_lem h.repr k s.valid in
      record {
        valid = one.0;
        value_of = λ j. one.1 j ∙ ap (λ o. if bytes_eq k j then none else o) (s.value_of j);
        expiry_of = λ j.
            expiry_without_lem l h.expiry k j
            ∙ ap (λ o. if bytes_eq k j then none else o) (s.expiry_of j);
      }

  Shows-remove_all :
      (ks : List Member) (h : Hash m) (c : Contents)
      → Shows h c
      → Shows (remove_all ks h) (record {
        value = λ j. if any_eq ks j then none else c.value j;
        expires = λ j. if any_eq ks j then none else c.expires j;
      })
  unfolding remove_all
  Shows-remove_all [] h c s = record {
    valid = s.valid;
    value_of = s.value_of;
    expiry_of = s.expiry_of;
  }
  Shows-remove_all (k ∷ ks) h c s =
      let rest =
        Shows-remove_all ks (remove h k).0 (expected c (call_remove k)) (Shows-remove h c k s) in
      record {
        valid = rest.valid;
        value_of = λ j. rest.value_of j ∙ two_tests (bytes_eq k j) (any_eq ks j) none (c.value j);
        expiry_of =
            λ j. rest.expiry_of j ∙ two_tests (bytes_eq k j) (any_eq ks j) none (c.expires j);
      }

  expires_of :
      (h : Hash m) (c : Contents) → Shows h c → (j : Member) → expiry_in m h.expiry j ≡ c.expires j
  unfolding field_expire_ms
  expires_of h c s = s.expiry_of

  Shows-prune_expired :
      (h : Hash m) (c : Contents) (now : ℕ)
      → Shows h c
      → Shows (prune_expired l h now) (expected c (call_prune_expired now))
  unfolding prune_expired
  Shows-prune_expired h c now s =
      let ks = expired_in l now h.expiry in
      let due : (j : Member) → any_eq ks j ≡ past now (c.expires j) =
        λ j. due_in l h.expiry now j ∙ ap (past now) (expires_of h c s j) in
      let p = Shows-remove_all ks h c s in
      record {
        valid = p.valid;
        value_of = λ j. p.value_of j ∙ ap (λ b. if b then none else c.value j) (due j);
        expiry_of = λ j. p.expiry_of j ∙ ap (λ b. if b then none else c.expires j) (due j);
      }

  unfoldable pub after : Hash m → Call → Hash m
  unfolding set add_expirable add_or_skip remove prune_expired
  after h (call_set k y) = (set h k y).0
  after h (call_add_expirable k y at keepttl) = (add_expirable h k y at keepttl).0
  after h (call_add_or_skip k y at) = (add_or_skip h k y at).0
  after h (call_remove k) = (remove h k).0
  after h (call_prune_expired now) = prune_expired l h now

  abbrev pub run : Hash m → List Call → Hash m
  run h [] = h
  run h (call ∷ calls) = run (after h call) calls

  Shows-after :
      (h : Hash m) (c : Contents) (call : Call)
      → Covered c
      → Shows h c
      → Shows (after h call) (expected c call)
  unfolding after
  Shows-after h c (call_set k y) covered s = Shows-set h c k y s
  Shows-after h c (call_add_expirable k y at keepttl) covered s =
      Shows-add_expirable h c k y at keepttl covered s
  Shows-after h c (call_add_or_skip k y at) covered s = Shows-add_or_skip h c k y at covered s
  Shows-after h c (call_remove k) covered s = Shows-remove h c k s
  Shows-after h c (call_prune_expired now) covered s = Shows-prune_expired h c now s

  Shows-run :
      (h : Hash m) (c : Contents) (calls : List Call)
      → Covered c
      → Shows h c
      → Shows (run h calls) (expected_all c calls) × Covered (expected_all c calls)
  Shows-run h c [] covered s = (s, covered)
  Shows-run h c (call ∷ calls) covered s =
      Shows-run (after h call) (expected c call) calls (expected-Covered c call covered)
        (Shows-after h c call covered s)

  Shows-new : Shows (new m) nothing
  unfolding get field_expire_ms
  Shows-new = record { valid = (tt, omega arith); value_of = λ j. refl; expiry_of = λ j. refl }

  no_expiry :
      (c : Contents) (j : Member)
      → Covered c
      → (is_some (c.expires j) && not (is_some (c.value j))) ≡ false
  no_expiry c j covered = elim (Option-cases (c.value j)) [
    | inl e ↦ let gone = covered j e in rw gone refl
    | inr e ↦
        rw (e.1)
          (elim (Bool-cases (is_some (c.expires j))) [ inl g ↦ rw g refl | inr g ↦ rw g refl ])
  ]

  -- After any calls on a new hash, small or large, the hash has the values and the expiries that the calls
  -- leave in the plain description, no field that is absent has an expiry, and a small hash has at most
  -- 128 fields, none of them twice.
  pub run-new :
      (calls : List Call)
      → ((j : Member)
          → (get (run (new m) calls) j ≡ (expected_all nothing calls).value j)
            × (field_expire_ms (run (new m) calls) j ≡ (expected_all nothing calls).expires j)
            × ((is_some (field_expire_ms (run (new m) calls) j)
                  && not (contains (run (new m) calls) j))
                ≡ false))
        × ValidRepr (run (new m) calls).repr
  run-new calls =
      let c = expected_all nothing calls in
      let h = run (new m) calls in
      let all = Shows-run (new m) nothing calls (λ j g. refl) Shows-new in
      let s = all.0 in
      (
        λ j.
            let there = contains_of h c s j in
            let time = s.expiry_of j in
            (s.value_of j, time, rw (time, there) (no_expiry c j all.1)),
        s.valid,
      )
