-- ===== src/Core/Set/Runs.antt =====
-- src/core/set.rs: a set against the plain description of a set whose members can expire.
use dragonflydb_rs.Common.{
  ℕ, ◌≡◌, refl, ap, ◌∙◌, inl, inr, arith, Bool, true, false, ◌||◌, List, [], ◌∷◌, Option, none,
  some, if◌then◌else◌, bytes_eq, Bool-cases,
}
use dragonflydb_rs.Core.HashMap.{HashMap}
use dragonflydb_rs.Core.HashMap.Entries.{Listing}
use dragonflydb_rs.Core.Set.{
  Member, any_eq, Set, new, repr_contains, contains, add, remove, or_empty, set_expiry,
  add_expirable, prune, expiry_in, member_expire_ms, extend, clear, expired_in, prune_expired,
  delete_all, unless_empty,
}
use dragonflydb_rs.Core.Set.Shows.{
  past, any-expired, ValidRepr, add_to_lem, remove_from_lem, remove_all_lem, delete_all_lem,
  unless_empty_lem,
}
use dragonflydb_rs.Core.Set.Contents.{
  Call, call_add, call_add_expirable, call_remove, call_prune_expired, call_extend, call_clear,
  Contents, nothing, with_member, with_expiry, expected, expected_all,
}

module _ (m : HashMap Member bytes_eq) where
  pub or_empty_lem :
      (exp : Option (m.Table ℕ)) (j : Member) → m.lookup (or_empty m exp) j ≡ expiry_in m exp j
  or_empty_lem none j = m.lookup_empty ℕ j
  or_empty_lem (some exp) j = refl

module _ {m : HashMap Member bytes_eq} where
  -- A set has these contents.
  pub record Shows (s : Set m) (c : Contents) : Type 0 where
    pub valid : ValidRepr s.repr
    pub shows_has : (j : Member) → contains s j ≡ c.has j
    pub shows_expires : (j : Member) → member_expire_ms s j ≡ c.expires j

  has_of : (s : Set m) (c : Contents) → Shows s c → (j : Member) → repr_contains s.repr j ≡ c.has j
  unfolding contains
  has_of s c h = h.shows_has

  expires_of :
      (s : Set m) (c : Contents) → Shows s c → (j : Member) → expiry_in m s.expiry j ≡ c.expires j
  unfolding member_expire_ms
  expires_of s c h = h.shows_expires

  Shows-add :
      (s : Set m) (c : Contents) (k : Member) → Shows s c → Shows (add s k).0 (with_member c k)
  unfolding add contains member_expire_ms
  Shows-add s c k h =
      let one = add_to_lem s.repr k h.valid in
      record {
        valid = one.0;
        shows_has = λ j. one.1 j ∙ ap (λ b. bytes_eq k j || b) (h.shows_has j);
        shows_expires = h.shows_expires;
      }

  Shows-set_expiry :
      (s : Set m) (c : Contents) (k : Member) (at : ℕ)
      → Shows s c
      → Shows (set_expiry s k at) (with_expiry c k at)
  unfolding contains member_expire_ms
  Shows-set_expiry s c k at h = record {
    valid = h.valid;
    shows_has = h.shows_has;
    shows_expires = λ j.
        m.lookup_put (or_empty m s.expiry) k at j
        ∙ ap (λ o. if bytes_eq k j then some at else o)
            (or_empty_lem m s.expiry j ∙ h.shows_expires j);
  }

  Shows-add_expirable :
      (s : Set m) (c : Contents) (k : Member) (at : ℕ) (keepttl : Bool)
      → Shows s c
      → Shows (add_expirable s k at keepttl).0 (expected c (call_add_expirable k at keepttl))
  unfolding add_expirable
  Shows-add_expirable s c k at keepttl h =
      let same = h.shows_has k in
      elim (Bool-cases (c.has k)) [
        | inl there ↦
            rw (same, there)
              (elim keepttl
                as (λ b.
                  Shows (if b then s else set_expiry s k at)
                    (if b then c else with_expiry c k at)) [
                      | true ↦ h
                      | false ↦ Shows-set_expiry s c k at h
                    ])
        | inr absent ↦
            rw (same, absent)
              (Shows-set_expiry (add s k).0 (with_member c k) k at (Shows-add s c k h))
      ]

  Shows-remove :
      (s : Set m) (c : Contents) (k : Member)
      → Shows s c
      → Shows (remove s k).0 (expected c (call_remove k))
  unfolding remove contains member_expire_ms
  Shows-remove s c k h =
      let one = remove_from_lem s.repr k h.valid in
      record {
        valid = one.0;
        shows_has = λ j. one.1 j ∙ ap (λ b. if bytes_eq k j then false else b) (h.shows_has j);
        shows_expires = h.shows_expires;
      }

  Shows-extend :
      (ks : List Member) (s : Set m) (c : Contents)
      → Shows s c
      → Shows (extend ks s) (record c { has = λ j. any_eq ks j || c.has j })
  unfolding extend
  Shows-extend [] s c h = h
  Shows-extend (k ∷ ks) s c h =
      let rest = Shows-extend ks (add s k).0 (with_member c k) (Shows-add s c k h) in
      let swap : (j : Member)
          → (any_eq ks j || (bytes_eq k j || c.has j))
            ≡ ((bytes_eq k j || any_eq ks j) || c.has j) =
        λ j. ground arith in
      record {
        valid = rest.valid;
        shows_has = λ j. rest.shows_has j ∙ swap j;
        shows_expires = rest.shows_expires;
      }

module _ {m : HashMap Member bytes_eq} (l : Listing m) where
  -- The members that are pruned are those whose time has passed.
  pub due_in :
      (exp : Option (m.Table ℕ)) (now : ℕ) (j : Member)
      → any_eq (expired_in l now exp) j ≡ past now (expiry_in m exp j)
  due_in none now j = refl
  due_in (some exp) now j =
      any-expired now (l.entries exp) j (l.entries_once exp) ∙ ap (past now) (l.find_entries exp j)

  pruned :
      (s : Set m) (c : Contents) (ks : List Member)
      → Shows s c
      → Shows (prune s (or_empty m s.expiry) ks) (record {
        has = λ j. if any_eq ks j then false else c.has j;
        expires = λ j. if any_eq ks j then none else c.expires j;
      })
  pruned s c [] h = record {
    valid = h.valid;
    shows_has = h.shows_has;
    shows_expires = h.shows_expires;
  }
  pruned s c (k ∷ ks) h =
      let gone = k ∷ ks in
      let exp = or_empty m s.expiry in
      let left = remove_all_lem gone s.repr h.valid in
      let at : (j : Member)
          → expiry_in m (unless_empty m (delete_all m gone exp)) j
            ≡ (if any_eq gone j then none else c.expires j) =
        λ j.
          unless_empty_lem l (delete_all m gone exp) j
          ∙ delete_all_lem m gone exp j
          ∙ ap (λ o. if any_eq gone j then none else o)
              (or_empty_lem m s.expiry j ∙ expires_of s c h j) in
      record {
        valid = left.0;
        shows_has =
            unfold contains in
            λ j. left.1 j ∙ ap (λ b. if any_eq gone j then false else b) (has_of s c h j);
        shows_expires = unfold member_expire_ms in at;
      }

  Shows-prune :
      (s : Set m) (c : Contents) (now : ℕ)
      → Shows s c
      → Shows (prune_expired l s now) (expected c (call_prune_expired now))
  unfolding prune_expired
  Shows-prune s c now h =
      let ks = expired_in l now s.expiry in
      let due : (j : Member) → any_eq ks j ≡ past now (c.expires j) =
        λ j. due_in s.expiry now j ∙ ap (past now) (expires_of s c h j) in
      let p = pruned s c ks h in
      record {
        valid = p.valid;
        shows_has = λ j. p.shows_has j ∙ ap (λ b. if b then false else c.has j) (due j);
        shows_expires = λ j. p.shows_expires j ∙ ap (λ b. if b then none else c.expires j) (due j);
      }

  unfoldable pub after : Set m → Call → Set m
  unfolding add add_expirable remove prune_expired extend
  after s (call_add k) = (add s k).0
  after s (call_add_expirable k at keepttl) = (add_expirable s k at keepttl).0
  after s (call_remove k) = (remove s k).0
  after s (call_prune_expired now) = prune_expired l s now
  after s (call_extend ks) = extend ks s
  after s call_clear = clear s

  abbrev pub after_all : Set m → List Call → Set m
  after_all s [] = s
  after_all s (call ∷ calls) = after_all (after s call) calls

  Shows-new : Shows (new m) nothing
  unfolding contains member_expire_ms
  Shows-new = record { valid = (tt, omega arith); shows_has = λ j. refl; shows_expires = λ j. refl }

  pub Shows-after :
      (s : Set m) (c : Contents) (call : Call) → Shows s c → Shows (after s call) (expected c call)
  unfolding after
  Shows-after s c (call_add k) h = Shows-add s c k h
  Shows-after s c (call_add_expirable k at keepttl) h = Shows-add_expirable s c k at keepttl h
  Shows-after s c (call_remove k) h = Shows-remove s c k h
  Shows-after s c (call_prune_expired now) h = Shows-prune s c now h
  Shows-after s c (call_extend ks) h = Shows-extend ks s c h
  Shows-after s c call_clear h = Shows-new

  Shows-all :
      (s : Set m) (c : Contents) (calls : List Call)
      → Shows s c
      → Shows (after_all s calls) (expected_all c calls)
  Shows-all s c [] h = h
  Shows-all s c (call ∷ calls) h =
      Shows-all (after s call) (expected c call) calls (Shows-after s c call h)

  -- After any calls on a new set, small or large, the set has the members and the expiries that the calls
  -- leave in the plain description, and a small one has at most 128 members, none of them twice.
  pub after_all-new :
      (calls : List Call)
      → ((j : Member)
          → (contains (after_all (new m) calls) j ≡ (expected_all nothing calls).has j)
            × (member_expire_ms (after_all (new m) calls) j
                ≡ (expected_all nothing calls).expires j))
        × ValidRepr (after_all (new m) calls).repr
  after_all-new calls =
      let h = Shows-all (new m) nothing calls Shows-new in
      (λ j. (h.shows_has j, h.shows_expires j), h.valid)
