-- ===== src/Core/Db/Watch.antt =====
-- src/core/db.rs: what the versions say of the keys, as WATCH and EXEC rely on them.
pub mod Every
use dragonflydb_rs.Common.{
  ℕ, ◌+◌, ◌%◌, ◌^◌, ◌≤◌, ◌<◌, ◌≡◌, ◌⊎◌, refl, ap, sym, ◌∙◌, arith, Bool, true, false, not, ◌&&◌,
  Option, none, some, leb, if◌then◌else◌, bytes_eq, bytes_eq→eq, bytes_eq_self, Bool-cases,
  Option-cases, inl, inr,
}
use dragonflydb_rs.Core.HashMap.{HashMap}
use dragonflydb_rs.Core.Db.{
  Key, same_watermark, DbSlice, is_some, has, or_zero, succ_u64, version_of, bump_version,
  expire_check, expire_if_needed, drop_expired, counted_check, find, find_mut, contains, insert,
  insert_if_absent, forget, remove, remove_found, remove_if_exists, take, take_found, set_expiry,
  clear_expiry, ttl_ms, has_expiry, set_sticky, set_sticky_flag, bump_db_epoch, drain_modified,
  set_stream_watermark, remove_stream_watermark, counted, seen,
}
use dragonflydb_rs.Core.Db.Expiry.{expire_cases}
use dragonflydb_rs.Core.Db.Calls.{Call, after}

module _ {m : HashMap Key bytes_eq} {w : HashMap (ℕ × Key) same_watermark} {V : Type 0} where
  -- A key has the same value, expiry and sticky flag in two slices.
  abbrev pub SameEntry : DbSlice m w V → DbSlice m w V → Key → Type 0
  SameEntry db db' j =
      (m.lookup db'.prime_table j ≡ m.lookup db.prime_table j)
      × (m.lookup db'.expire j ≡ m.lookup db.expire j)
      × (m.lookup db'.sticky j ≡ m.lookup db.sticky j)

  -- Up to `n` bumps: the version of the key grows, or the key has the entry that it had.
  abbrev pub Moves : ℕ → DbSlice m w V → DbSlice m w V → Key → Type 0
  Moves n db db' j =
      (version_of db' j ≤ version_of db j + n)
      × (((version_of db' j ≡ version_of db j) × SameEntry db db' j)
          ⊎ (version_of db j < version_of db' j))

  stays : (db : DbSlice m w V) (j : Key) → SameEntry db db j
  stays db j = (refl, refl, refl)

  Moves-trans :
      (n k : ℕ) (a b c : DbSlice m w V) (j : Key)
      → Moves n a b j
      → Moves k b c j
      → Moves (n + k) a c j
  Moves-trans n k a b c j (le, inl (same, entry)) (le', inl (same', entry')) = (
    omega arith,
    inl (same' ∙ same, (entry'.0 ∙ entry.0, entry'.1 ∙ entry.1, entry'.2 ∙ entry.2)),
  )
  Moves-trans n k a b c j (le, inl (same, entry)) (le', inr lt) = (omega arith, inr (omega arith))
  Moves-trans n k a b c j (le, inr lt) (le', inl (same, entry)) = (omega arith, inr (omega arith))
  Moves-trans n k a b c j (le, inr lt) (le', inr lt') = (omega arith, inr (omega arith))

  -- A bump of one key moves it, and leaves the keys whose entries are the same.
  pub bumped :
      (db db' : DbSlice m w V) (key : Key)
      → db'.versions ≡ m.put db.versions key (succ_u64 (or_zero (m.lookup db.versions key)))
      → ((j : Key) → bytes_eq key j ≡ false → SameEntry db db' j)
      → (j : Key) → version_of db j + 1 < 2 ^ 64
      → Moves 1 db db' j
  unfolding version_of
  bumped db db' key versions others j small = elim (Bool-cases (bytes_eq key j)) [
    | inl same ↦
        let e = bytes_eq→eq key j same in
        let now_version : or_zero (m.lookup db'.versions j)
            ≡ (or_zero (m.lookup db.versions j) + 1) % 2 ^ 64 =
          rw versions (rw (m.lookup_put db.versions key _ j) (rw same (rw e refl))) in
        (omega (arith, now_version, small), inr (omega (arith, now_version, small)))
    | inr other ↦
        let same_version : or_zero (m.lookup db'.versions j) ≡ or_zero (m.lookup db.versions j) =
          rw versions (rw (m.lookup_put db.versions key _ j) (rw other refl)) in
        (omega (arith, same_version), inl (same_version, others j other))
  ]

  drop_expired-Moves :
      (db : DbSlice m w V) (key j : Key)
      → version_of db j + 1 < 2 ^ 64
      → Moves 1 db (drop_expired db key) j
  drop_expired-Moves db key j small = bumped db (drop_expired db key) key refl kept j small
    where
      kept : (j : Key) → bytes_eq key j ≡ false → SameEntry db (drop_expired db key) j
      kept j other = (
        rw (m.lookup_delete db.prime_table key j) (rw other refl),
        rw (m.lookup_delete db.expire key j) (rw other refl),
        refl,
      )

  pub up_to_two : (db db' : DbSlice m w V) (j : Key) → Moves 1 db db' j → Moves 2 db db' j
  up_to_two db db' j (le, moved) = (omega arith, moved)

  pub nothing : (n : ℕ) (db : DbSlice m w V) (j : Key) → Moves n db db j
  nothing n db j = (omega arith, inl (refl, stays db j))

  pub expire_if_needed-Moves :
      (db : DbSlice m w V) (key : Key) (now : ℕ) (j : Key)
      → version_of db j + 1 < 2 ^ 64
      → Moves 1 db (expire_if_needed db key now).1 j
  unfolding version_of
  expire_if_needed-Moves db key now j small = elim (expire_cases db key now) [
    | inl (e, current) ↦ rw e (nothing 1 db j)
    | inr (at, e, free, found, passed) ↦ rw e (drop_expired-Moves (counted_check db) key j small)
  ]

  -- A call that first expires the key and then bumps it at most once.
  pub after_expiry :
      (db db' : DbSlice m w V) (key : Key) (now : ℕ) (j : Key)
      → version_of db j + 2 < 2 ^ 64
      → (version_of (expire_if_needed db key now).1 j + 1 < 2 ^ 64
          → Moves 1 (expire_if_needed db key now).1 db' j)
      → Moves 2 db db' j
  after_expiry db db' key now j small rest =
      let first = expire_if_needed-Moves db key now j (omega arith) in
      Moves-trans 1 1 db (expire_if_needed db key now).1 db' j first (rest (omega (arith, first.0)))

  pub find-Moves :
      (db : DbSlice m w V) (key : Key) (now : ℕ) (j : Key)
      → version_of db j + 2 < 2 ^ 64
      → Moves 2 db (find db key now).1 j
  unfolding find version_of
  find-Moves db key now j small =
      let db1 = (expire_if_needed db key now).1 in
      after_expiry db (find db key now).1 key now j small (λ fits.
        elim (Option-cases (m.lookup db1.prime_table key)) [
          | inl missing ↦ rw missing (nothing 1 db1 j)
          | inr (v, found) ↦ rw found (nothing 1 db1 j)
        ])

  pub insert-Moves :
      (db : DbSlice m w V) (key : Key) (value : V) (j : Key)
      → version_of db j + 1 < 2 ^ 64
      → Moves 1 db (insert db key value) j
  unfolding insert
  insert-Moves db key value j small = bumped db (insert db key value) key refl kept j small
    where
      kept : (j : Key) → bytes_eq key j ≡ false → SameEntry db (insert db key value) j
      kept j other = (rw (m.lookup_put db.prime_table key value j) (rw other refl), refl, refl)

  pub insert_if_absent-Moves :
      (db : DbSlice m w V) (key : Key) (value : V) (now : ℕ) (j : Key)
      → version_of db j + 2 < 2 ^ 64
      → Moves 2 db (insert_if_absent db key value now).1 j
  unfolding insert_if_absent
  insert_if_absent-Moves db key value now j small =
      let db1 = (expire_if_needed db key now).1 in
      after_expiry db (insert_if_absent db key value now).1 key now j small (λ fits.
        elim (Bool-cases (has (m.lookup db1.prime_table) key)) [
          | inl there ↦ rw there (nothing 1 db1 j)
          | inr absent ↦ rw absent (insert-Moves db1 key value j fits)
        ])

  -- A delete of a key that the table does not hold.
  absent-Moves :
      (n : ℕ) (db : DbSlice m w V) (key j : Key)
      → m.lookup db.prime_table key ≡ none
      → Moves n db (record db { prime_table = m.delete db.prime_table key }) j
  unfolding version_of
  absent-Moves n db key j absent = (
    omega arith,
    inl (
      refl,
      (
        elim (Bool-cases (bytes_eq key j)) [
          | inl same ↦
              let e = bytes_eq→eq key j same in
              rw (m.lookup_delete db.prime_table key j) (rw same (sym (rw (← e) absent)))
          | inr other ↦ rw (m.lookup_delete db.prime_table key j) (rw other refl)
        ],
        refl,
        refl,
      ),
    ),
  )

  forget-Moves :
      (db : DbSlice m w V) (key j : Key)
      → version_of db j + 1 < 2 ^ 64
      → Moves 1 db (forget db key) j
  forget-Moves db key j small = bumped db (forget db key) key refl kept j small
    where
      kept : (j : Key) → bytes_eq key j ≡ false → SameEntry db (forget db key) j
      kept j other = (
        rw (m.lookup_delete db.prime_table key j) (rw other refl),
        rw (m.lookup_delete db.expire key j) (rw other refl),
        rw (m.lookup_delete db.sticky key j) (rw other refl),
      )

  pub remove-Moves :
      (db : DbSlice m w V) (key j : Key)
      → version_of db j + 1 < 2 ^ 64
      → Moves 1 db (remove db key).1 j
  unfolding remove remove_found
  remove-Moves db key j small = elim (Option-cases (m.lookup db.prime_table key)) [
    | inl absent ↦ rw absent (absent-Moves 1 db key j absent)
    | inr (v, found) ↦ rw found (forget-Moves db key j small)
  ]

  pub take-Moves :
      (db : DbSlice m w V) (key : Key) (now : ℕ) (j : Key)
      → version_of db j + 2 < 2 ^ 64
      → Moves 2 db (take db key now).1 j
  unfolding take take_found version_of
  take-Moves db key now j small =
      let db1 = (expire_if_needed db key now).1 in
      after_expiry db (take db key now).1 key now j small (λ fits.
        elim (Option-cases (m.lookup db1.prime_table key)) [
          | inl absent ↦ rw absent (absent-Moves 1 db1 key j absent)
          | inr (v, found) ↦ rw found (forget-Moves db1 key j fits)
        ])
