-- ===== src/Core/Db/Watch/Every.antt =====
-- src/core/db.rs: the versions after each call that can change a slice.
use dragonflydb_rs.Common.{
  ℕ, ◌+◌, ◌^◌, ◌<◌, ◌≡◌, refl, sym, ◌∙◌, arith, Bool, true, false, not, ◌&&◌, Option, none, some,
  leb, bytes_eq, bytes_eq→eq, Bool-cases, Option-cases, inl, inr,
}
use dragonflydb_rs.Core.HashMap.{HashMap}
use dragonflydb_rs.Core.Db.{
  Key, same_watermark, DbSlice, is_some, has, or_zero, version_of, bump_version, expire_if_needed,
  drop_past, expire_later, stuck, unstuck, find_mut, contains, insert, remove, remove_if_exists,
  set_expiry, clear_expiry, ttl_ms, has_expiry, set_sticky, set_sticky_flag, bump_db_epoch,
  drain_modified, set_stream_watermark, remove_stream_watermark,
}
use dragonflydb_rs.Core.Db.Expiry.{expire_cases, expire_if_needed_lem, live}
use dragonflydb_rs.Core.Db.Calls.{
  Call, after, call_find, call_find_mut, call_contains, call_insert, call_insert_if_absent,
  call_remove, call_remove_if_exists, call_take, call_set_expiry, call_clear_expiry, call_ttl_ms,
  call_expire_if_needed, call_has_expiry, call_set_sticky, call_set_sticky_flag, call_bump_db_epoch,
  call_drain_modified, call_set_stream_watermark, call_remove_stream_watermark,
}
use dragonflydb_rs.Core.Db.Watch.{
  Moves, bumped, up_to_two, nothing, expire_if_needed-Moves, after_expiry, find-Moves, insert-Moves,
  insert_if_absent-Moves, remove-Moves, take-Moves,
}

-- A flag that is set again, and one that is cleared where there is none.
is_there : (r : Option {0} (Unit {0})) → is_some r ≡ true → r ≡ some tt
is_there none h = absurd (ground arith)
is_there (some u) h = refl

is_absent : (r : Option {0} (Unit {0})) → is_some r ≡ false → r ≡ none
is_absent none h = refl
is_absent (some u) h = absurd (ground arith)

none≢some : {A : Type 0} {a : A} → none ≡ some a → ⊥
none≢some e = ground arith

module _ (m : HashMap Key bytes_eq) where
  sticky_again :
      (t : m.Table Unit) (key j : Key)
      → has (m.lookup t) key ≡ true
      → m.lookup (m.put t key tt) j ≡ m.lookup t j
  sticky_again t key j there = elim (Bool-cases (bytes_eq key j)) [
    | inl same ↦
        let e = bytes_eq→eq key j same in
        rw (m.lookup_put t key tt j) (rw same (rw (← e) (sym (is_there (m.lookup t key) there))))
    | inr other ↦ rw (m.lookup_put t key tt j) (rw other refl)
  ]

  sticky_absent :
      (t : m.Table Unit) (key j : Key)
      → has (m.lookup t) key ≡ false
      → m.lookup (m.delete t key) j ≡ m.lookup t j
  sticky_absent t key j absent = elim (Bool-cases (bytes_eq key j)) [
    | inl same ↦
        let e = bytes_eq→eq key j same in
        rw (m.lookup_delete t key j) (rw same (rw (← e) (sym (is_absent (m.lookup t key) absent))))
    | inr other ↦ rw (m.lookup_delete t key j) (rw other refl)
  ]

module _ {m : HashMap Key bytes_eq} {w : HashMap (ℕ × Key) same_watermark} {V : Type 0} where
  find_mut-Moves :
      (db : DbSlice m w V) (key : Key) (now : ℕ) (j : Key)
      → version_of db j + 2 < 2 ^ 64
      → Moves 2 db (find_mut db key now).1 j
  unfolding find_mut version_of
  find_mut-Moves db key now j small =
      let db1 = (expire_if_needed db key now).1 in
      after_expiry db (find_mut db key now).1 key now j small (λ fits.
        elim (Option-cases (m.lookup db1.prime_table key)) [
          | inl missing ↦ rw missing (nothing 1 db1 j)
          | inr (v, found) ↦ rw found (nothing 1 db1 j)
        ])

  contains-Moves :
      (db : DbSlice m w V) (key : Key) (now : ℕ) (j : Key)
      → version_of db j + 2 < 2 ^ 64
      → Moves 2 db (contains db key now).1 j
  unfolding contains version_of
  contains-Moves db key now j small =
      let db1 = (expire_if_needed db key now).1 in
      after_expiry db (contains db key now).1 key now j small (λ fits.
        elim (Bool-cases (has (m.lookup db1.prime_table) key)) [
          | inl there ↦ rw there (nothing 1 db1 j)
          | inr absent ↦ rw absent (nothing 1 db1 j)
        ])

  has_expiry-Moves :
      (db : DbSlice m w V) (key : Key) (now : ℕ) (j : Key)
      → version_of db j + 2 < 2 ^ 64
      → Moves 2 db (has_expiry db key now).1 j
  unfolding has_expiry version_of
  has_expiry-Moves db key now j small =
      let db1 = (expire_if_needed db key now).1 in
      after_expiry db (has_expiry db key now).1 key now j small (λ fits.
        elim (Bool-cases (has (m.lookup db1.expire) key)) [
          | inl there ↦ rw there (nothing 1 db1 j)
          | inr absent ↦ rw absent (nothing 1 db1 j)
        ])

  ttl_ms-Moves :
      (db : DbSlice m w V) (key : Key) (now : ℕ) (j : Key)
      → version_of db j + 2 < 2 ^ 64
      → Moves 2 db (ttl_ms db key now).1 j
  unfolding ttl_ms
  ttl_ms-Moves db key now j small =
      let db1 = (expire_if_needed db key now).1 in
      after_expiry db (ttl_ms db key now).1 key now j small (λ fits.
        elim (Bool-cases (has (m.lookup db1.prime_table) key)) [
          | inl there ↦ rw there (nothing 1 db1 j)
          | inr absent ↦ rw absent (nothing 1 db1 j)
        ])

  set_expiry-Moves :
      (db : DbSlice m w V) (key : Key) (at now : ℕ) (j : Key)
      → version_of db j + 2 < 2 ^ 64
      → Moves 2 db (set_expiry db key at now) j
  unfolding set_expiry version_of
  set_expiry-Moves db key at now j small =
      let db1 = (expire_if_needed db key now).1 in
      after_expiry db (set_expiry db key at now) key now j small (λ fits.
        elim (Bool-cases (has (m.lookup db1.prime_table) key)) [
          | inl there ↦ elim (Bool-cases (leb at now)) [
            | inl past ↦ rw there (
                rw past (
                  bumped db1 (drop_past db1 key) key refl
                    (λ k other. (
                      rw (m.lookup_delete db1.prime_table key k) (rw other refl),
                      rw (m.lookup_delete db1.expire key k) (rw other refl),
                      refl,
                    ))
                    j fits))
            | inr later ↦ rw there (
                rw later (
                  bumped db1 (expire_later db1 key at) key refl
                    (λ k other. (refl, rw (m.lookup_put db1.expire key at k) (rw other refl), refl))
                    j fits))
          ]
          | inr absent ↦ rw absent (nothing 1 db1 j)
        ])

  clear_expiry-Moves :
      (db : DbSlice m w V) (key j : Key)
      → version_of db j + 1 < 2 ^ 64
      → Moves 1 db (clear_expiry db key) j
  unfolding clear_expiry version_of
  clear_expiry-Moves db key j small = elim (Option-cases (m.lookup db.expire key)) [
    | inl none_there ↦ rw none_there (omega arith, inl (refl, (refl, absent none_there, refl)))
    | inr (at, found) ↦ rw found (
        bumped db (bump_version (record db { expire = m.delete db.expire key }) key) key refl
          (λ k other. (refl, rw (m.lookup_delete db.expire key k) (rw other refl), refl)) j small)
  ]
    where
      absent :
          m.lookup db.expire key ≡ none → m.lookup (m.delete db.expire key) j ≡ m.lookup db.expire j
      absent none_there = elim (Bool-cases (bytes_eq key j)) [
        | inl same ↦
            let e = bytes_eq→eq key j same in
            rw (m.lookup_delete db.expire key j) (rw same (sym (rw (← e) none_there)))
        | inr other ↦ rw (m.lookup_delete db.expire key j) (rw other refl)
      ]

  set_sticky-Moves :
      (db : DbSlice m w V) (key : Key) (now : ℕ) (j : Key)
      → version_of db j + 2 < 2 ^ 64
      → Moves 2 db (set_sticky db key now).1 j
  unfolding set_sticky version_of
  set_sticky-Moves db key now j small =
      let db1 = (expire_if_needed db key now).1 in
      after_expiry db (set_sticky db key now).1 key now j small (λ fits.
        elim (Bool-cases
          (has (m.lookup db1.prime_table) key && not (has (m.lookup db1.sticky) key))) [
            | inl go ↦ rw go (
                bumped db1 (stuck db1 key) key refl
                  (λ k other. (refl, refl, rw (m.lookup_put db1.sticky key tt k) (rw other refl))) j
                  fits)
            | inr stop ↦ rw stop (nothing 1 db1 j)
          ])

  set_sticky_flag-Moves :
      (db : DbSlice m w V) (key : Key) (sticky : Bool) (j : Key)
      → version_of db j + 1 < 2 ^ 64
      → Moves 1 db (set_sticky_flag db key sticky) j
  unfolding set_sticky_flag version_of
  set_sticky_flag-Moves db key true j small = elim (Bool-cases (has (m.lookup db.sticky) key)) [
    | inl there ↦
        rw there (omega arith, inl (refl, (refl, refl, sticky_again m db.sticky key j there)))
    | inr absent ↦ rw absent (
        bumped db (stuck db key) key refl
          (λ k other. (refl, refl, rw (m.lookup_put db.sticky key tt k) (rw other refl))) j small)
  ]
  set_sticky_flag-Moves db key false j small = elim (Bool-cases (has (m.lookup db.sticky) key)) [
    | inl there ↦ rw there (
        bumped db (unstuck db key) key refl
          (λ k other. (refl, refl, rw (m.lookup_delete db.sticky key k) (rw other refl))) j small)
    | inr absent ↦
        rw absent (omega arith, inl (refl, (refl, refl, sticky_absent m db.sticky key j absent)))
  ]

  -- `find_mut` of a key with a value hands the value out for writing and leaves every version as it
  -- is, so what the caller writes through it moves no version.
  pub find_mut-versions :
      (db : DbSlice m w V) (key : Key) (now : ℕ) (v : V) (j : Key)
      → live db now key ≡ some v
      → let (found, db1) = find_mut db key now in
        (found ≡ some v) × (version_of db1 j ≡ version_of db j)
  unfolding find_mut version_of
  find_mut-versions db key now v j alive =
      let found : m.lookup (expire_if_needed db key now).1.prime_table key ≡ some v =
        (expire_if_needed_lem db key now).1 ∙ alive in
      rw found (refl, unexpired)
    where
      unexpired :
          or_zero (m.lookup (expire_if_needed db key now).1.versions j)
          ≡ or_zero (m.lookup db.versions j)
      unexpired = elim (expire_cases db key now) [
        | inl (e, current) ↦ rw e refl
        | inr (at, e, free, there, passed) ↦
            let gone : live db now key ≡ none = rw free (rw there (rw passed refl)) in
            absurd (none≢some (sym gone ∙ alive))
      ]

  -- WATCH is sound for every method: a call either raises the version of a key, or leaves its value,
  -- its expiry and its sticky flag as they were, as long as the counter has room for two more.
  pub after-Moves :
      (db : DbSlice m w V) (c : Call V) (j : Key)
      → version_of db j + 2 < 2 ^ 64
      → Moves 2 db (after db c) j
  unfolding after version_of
  after-Moves db (call_find key now) j small = find-Moves db key now j small
  after-Moves db (call_find_mut key now) j small = find_mut-Moves db key now j small
  after-Moves db (call_contains key now) j small = contains-Moves db key now j small
  after-Moves db (call_insert key value) j small =
      up_to_two db (insert db key value) j (insert-Moves db key value j (omega arith))
  after-Moves db (call_insert_if_absent key value now) j small =
      insert_if_absent-Moves db key value now j small
  after-Moves db (call_remove key) j small =
      up_to_two db (remove db key).1 j (remove-Moves db key j (omega arith))
  after-Moves db (call_remove_if_exists key) j small =
      unfold remove_if_exists in
      up_to_two db (remove db key).1 j (remove-Moves db key j (omega arith))
  after-Moves db (call_take key now) j small = take-Moves db key now j small
  after-Moves db (call_set_expiry key at now) j small = set_expiry-Moves db key at now j small
  after-Moves db (call_clear_expiry key) j small =
      up_to_two db (clear_expiry db key) j (clear_expiry-Moves db key j (omega arith))
  after-Moves db (call_ttl_ms key now) j small = ttl_ms-Moves db key now j small
  after-Moves db (call_expire_if_needed key now) j small =
      up_to_two db (expire_if_needed db key now).1 j
        (expire_if_needed-Moves db key now j (omega arith))
  after-Moves db (call_has_expiry key now) j small = has_expiry-Moves db key now j small
  after-Moves db (call_set_sticky key now) j small = set_sticky-Moves db key now j small
  after-Moves db (call_set_sticky_flag key sticky) j small =
      up_to_two db (set_sticky_flag db key sticky) j
        (set_sticky_flag-Moves db key sticky j (omega arith))
  after-Moves db call_bump_db_epoch j small = unfold bump_db_epoch in nothing 2 db j
  after-Moves db call_drain_modified j small = unfold drain_modified in nothing 2 db j
  after-Moves db (call_set_stream_watermark conn key id) j small =
      unfold set_stream_watermark in nothing 2 db j
  after-Moves db (call_remove_stream_watermark conn key) j small =
      unfold remove_stream_watermark in nothing 2 db j
