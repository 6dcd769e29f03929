-- ===== src/Core/Db/Expiry.antt =====
-- src/core/db.rs: keys whose time has passed.
use dragonflydb_rs.Common.{
  ap, ◌∙◌, ℕ, ◌≡◌, ◌⊎◌, refl, Bool, true, false, not, ◌&&◌, Option, none, some, leb, if◌then◌else◌,
  bytes_eq, bytes_eq→eq, bytes_eq_self, Bool-cases, Option-cases, inl, inr,
}
use dragonflydb_rs.Core.HashMap.{HashMap}
use dragonflydb_rs.Core.Db.{
  Key, same_watermark, DbSlice, is_some, expire_check, expire_if_needed, drop_expired, find,
  counted_check, set_expiry, is_sticky,
}

abbrev pub has_passed : ℕ → Option ℕ → Bool
has_passed now none = false
has_passed now (some at) = leb at now

module _ {m : HashMap Key bytes_eq} {w : HashMap (ℕ × Key) same_watermark} {V : Type 0} where
  -- The value that a key has at a time: none where its expiry has passed, unless it is sticky.
  abbrev pub live : DbSlice m w V → ℕ → Key → Option V
  live db now j =
      if not (is_some (m.lookup db.sticky j)) && has_passed now (m.lookup db.expire j)
      then none
      else m.lookup db.prime_table j

  -- Dropping an expired key leaves the others.
  live-drop_expired :
      (db : DbSlice m w V) (key : Key) (now at : ℕ) (j : Key)
      → m.lookup db.sticky key ≡ none
      → m.lookup db.expire key ≡ some at
      → leb at now ≡ true
      → live (drop_expired db key) now j ≡ live db now j
  live-drop_expired db key now at j free found passed = elim (Bool-cases (bytes_eq key j)) [
    | inl same ↦
        let e = bytes_eq→eq key j same in
        rw (m.lookup_delete db.expire key j) (
          rw (m.lookup_delete db.prime_table key j)
            (rw same (rw (← e) (rw free (rw found (rw passed refl))))))
    | inr other ↦
        rw (m.lookup_delete db.expire key j)
          (rw (m.lookup_delete db.prime_table key j) (rw other refl))
  ]

  -- What `expire_if_needed` does: nothing but count, or drop the key, whose time has passed.
  pub expire_cases :
      (db : DbSlice m w V) (key : Key) (now : ℕ)
      → let db1 : DbSlice m w V = counted_check db in
        ((expire_if_needed db key now ≡ (false, db1))
          × (not (is_some (m.lookup db.sticky key)) && has_passed now (m.lookup db.expire key)
              ≡ false))
        ⊎ ((at : ℕ) × (expire_if_needed db key now ≡ (true, drop_expired db1 key))
            × (m.lookup db.sticky key ≡ none)
            × (m.lookup db.expire key ≡ some at)
            × (leb at now ≡ true))
  unfolding expire_if_needed expire_check
  expire_cases db key now = elim (Option-cases (m.lookup db.sticky key)) [
    | inr (u, sticks) ↦ inl (rw sticks refl, rw sticks refl)
    | inl free ↦ elim (Option-cases (m.lookup db.expire key)) [
      | inl forever ↦ inl (rw free (rw forever refl), rw free (rw forever refl))
      | inr (at, found) ↦ elim (Bool-cases (leb at now)) [
        | inl passed ↦ inr (at, rw free (rw found (rw passed refl)), free, found, passed)
        | inr later ↦ inl (rw free (rw found (rw later refl)), rw free (rw found later))
      ]
    ]
  ]

  -- Expiring a key lazily changes no key's value: every key has the same value at that time before
  -- and after. What the table then holds for the key is its value.
  pub expire_if_needed_lem :
      (db : DbSlice m w V) (key : Key) (now : ℕ)
      → let db1 = (expire_if_needed db key now).1 in
        ((j : Key) → live db1 now j ≡ live db now j)
        × (m.lookup db1.prime_table key ≡ live db now key)
  expire_if_needed_lem db key now = elim (expire_cases db key now) [
    | inl (e, current) ↦ rw e ((λ j. refl), rw current refl)
    | inr (at, e, free, found, passed) ↦ rw e (
      (λ j. live-drop_expired (counted_check db) key now at j free found passed),
      rw (m.lookup_delete db.prime_table key key)
          (rw (bytes_eq_self key) (rw free (rw found (rw passed refl)))),
    )
  ]

  -- `find` gives the value that the key has at that time, changes no key's value at that time, and
  -- leaves the key in the table exactly where it has one.
  pub find_lem :
      (db : DbSlice m w V) (key : Key) (now : ℕ)
      → let (result, db1) = find db key now in
        (result ≡ live db now key)
        × ((j : Key) → live db1 now j ≡ live db now j)
        × (is_some (m.lookup db1.prime_table key) ≡ is_some (live db now key))
  unfolding find
  find_lem db key now =
      let db0 = (expire_if_needed db key now).1 in
      let (same, value) = expire_if_needed_lem db key now in
      elim (Option-cases (m.lookup db0.prime_table key)) [
        | inl missing ↦ rw (← value) (rw missing (refl, same, rw missing refl))
        | inr (v, found) ↦ rw (← value) (rw found (refl, same, rw found refl))
      ]

  sticky_kept :
      (db : DbSlice m w V) (key : Key) (now : ℕ)
      → (expire_if_needed db key now).1.sticky ≡ db.sticky
  sticky_kept db key now = elim (expire_cases db key now) [
    | inl (e, current) ↦ rw e refl
    | inr (at, e, free, found, passed) ↦ rw e refl
  ]

  -- A key with a value that `set_expiry` gives a time that has passed is gone from the table, but its
  -- sticky flag stays as it was.
  pub is_sticky-set_expiry :
      (db : DbSlice m w V) (key : Key) (at now : ℕ) (v : V)
      → live db now key ≡ some v
      → leb at now ≡ true
      → let db1 = set_expiry db key at now in
        (m.lookup db1.prime_table key ≡ none) × (is_sticky db1 key ≡ is_sticky db key)
  unfolding set_expiry is_sticky
  is_sticky-set_expiry db key at now v alive past =
      let db0 = (expire_if_needed db key now).1 in
      let there : m.lookup db0.prime_table key ≡ some v =
        (expire_if_needed_lem db key now).1 ∙ alive in
      rw there (
        rw past (
          rw (m.lookup_delete db0.prime_table key key) (rw (bytes_eq_self key) refl),
          ap (λ (t : m.Table Unit). is_some (m.lookup t key)) (sticky_kept db key now),
        ))
