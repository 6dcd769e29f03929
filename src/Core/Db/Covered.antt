-- ===== src/Core/Db/Covered.antt =====
-- src/core/db.rs: no expiry without a value.
use dragonflydb_rs.Common.{
  ℕ, ◌≡◌, arith, Bool, true, false, not, ◌&&◌, Option, none, some, leb, bytes_eq, bytes_eq→eq,
  Bool-cases, Option-cases, inl, inr,
}
use mathlib.Core.Path.{subst}
use dragonflydb_rs.Core.HashMap.{HashMap}
use dragonflydb_rs.Core.Db.{
  Key, same_watermark, DbSlice, is_some, has, expire_if_needed, find, find_mut, contains, insert,
  insert_if_absent, remove, remove_found, remove_if_exists, take, take_found, set_expiry,
  clear_expiry, ttl_ms, has_expiry, set_sticky, set_sticky_flag, bump_db_epoch, drain_modified,
  set_stream_watermark, remove_stream_watermark,
}
use dragonflydb_rs.Core.Db.Expiry.{expire_cases}
use dragonflydb_rs.Core.Db.Calls.{
  Call, after, call_find, call_find_mut, call_contains, call_insert, call_insert_if_absent,
  call_remove, call_remove_if_exists, call_take, call_set_expiry, call_clear_expiry, call_ttl_ms,
  call_expire_if_needed, call_has_expiry, call_set_sticky, call_set_sticky_flag, call_bump_db_epoch,
  call_drain_modified, call_set_stream_watermark, call_remove_stream_watermark,
}

-- An expiry stands only with a value.
abbrev pub Backed {ℓ} : {V : Type ℓ} → Option ℕ → Option V → Type 0
Backed none v = Unit
Backed (some at) none = ⊥
Backed (some at) (some v) = Unit

some-Backed {ℓ} : {V : Type ℓ} (e : Option ℕ) (v : V) → Backed e (some v)
some-Backed none v = tt
some-Backed (some at) v = tt

there-Backed {ℓ} : {V : Type ℓ} (e : Option ℕ) (r : Option V) → is_some r ≡ true → Backed e r
there-Backed e none h = absurd (ground arith)
there-Backed e (some v) h = some-Backed e v

module _ (m : HashMap Key bytes_eq) {V : Type 0} where
  -- Every expiry of a table has a value in another.
  abbrev pub Covered : m.Table ℕ → m.Table V → Type 0
  Covered e p = (j : Key) → Backed (m.lookup e j) (m.lookup p j)

module _ (m : HashMap Key bytes_eq) {V : Type 0} (e : m.Table ℕ) (p : m.Table V) (key : Key)
    (c : Covered m e p) where
  both_deleted : Covered m (m.delete e key) (m.delete p key)
  both_deleted j = elim (Bool-cases (bytes_eq key j)) [
    | inl same ↦ rw (m.lookup_delete e key j) (rw same tt)
    | inr other ↦ rw (m.lookup_delete e key j) (rw (m.lookup_delete p key j) (rw other (c j)))
  ]

  value_put : (v : V) → Covered m e (m.put p key v)
  value_put v j = elim (Bool-cases (bytes_eq key j)) [
    | inl same ↦ rw (m.lookup_put p key v j) (rw same (some-Backed (m.lookup e j) v))
    | inr other ↦ rw (m.lookup_put p key v j) (rw other (c j))
  ]

  expiry_put : (at : ℕ) → is_some (m.lookup p key) ≡ true → Covered m (m.put e key at) p
  expiry_put at there j = elim (Bool-cases (bytes_eq key j)) [
    | inl same ↦ rw (m.lookup_put e key at j) (
        rw same (
          there-Backed (some at) (m.lookup p j)
            (subst (λ k. is_some (m.lookup p k) ≡ true) (bytes_eq→eq key j same) there)))
    | inr other ↦ rw (m.lookup_put e key at j) (rw other (c j))
  ]

  expiry_deleted : Covered m (m.delete e key) p
  expiry_deleted j = elim (Bool-cases (bytes_eq key j)) [
    | inl same ↦ rw (m.lookup_delete e key j) (rw same tt)
    | inr other ↦ rw (m.lookup_delete e key j) (rw other (c j))
  ]

  absent_deleted : m.lookup p key ≡ none → Covered m e (m.delete p key)
  absent_deleted absent j = elim (Bool-cases (bytes_eq key j)) [
    | inl same ↦
        let gone : m.lookup p j ≡ none =
          subst (λ k. m.lookup p k ≡ none) (bytes_eq→eq key j same) absent in
        rw (m.lookup_delete p key j) (rw same (rw gone at (c j)))
    | inr other ↦ rw (m.lookup_delete p key j) (rw other (c j))
  ]

module _ {m : HashMap Key bytes_eq} {w : HashMap (ℕ × Key) same_watermark} {V : Type 0} where
  abbrev pub IsValid : DbSlice m w V → Type 0
  IsValid db = Covered m db.expire db.prime_table

  expire_if_needed-IsValid :
      (db : DbSlice m w V) (key : Key) (now : ℕ)
      → IsValid db
      → IsValid (expire_if_needed db key now).1
  expire_if_needed-IsValid db key now v = elim (expire_cases db key now) [
    | inl (e, current) ↦ rw e v
    | inr (at, e, free, found, passed) ↦ rw e (both_deleted m db.expire db.prime_table key v)
  ]

  insert_if_absent-IsValid :
      (db : DbSlice m w V) (key : Key) (value : V) (now : ℕ)
      → IsValid db
      → IsValid (insert_if_absent db key value now).1
  unfolding insert_if_absent
  insert_if_absent-IsValid db key value now v =
      let db1 = (expire_if_needed db key now).1 in
      let v1 = expire_if_needed-IsValid db key now v in
      elim (Bool-cases (has (m.lookup db1.prime_table) key)) [
        | inl there ↦ rw there v1
        | inr absent ↦ rw absent (value_put m db1.expire db1.prime_table key v1 value)
      ]

  remove-IsValid : (db : DbSlice m w V) (key : Key) → IsValid db → IsValid (remove db key).1
  unfolding remove remove_found
  remove-IsValid db key v = elim (Option-cases (m.lookup db.prime_table key)) [
    | inl absent ↦ rw absent (absent_deleted m db.expire db.prime_table key v absent)
    | inr (x, found) ↦ rw found (both_deleted m db.expire db.prime_table key v)
  ]

  take-IsValid :
      (db : DbSlice m w V) (key : Key) (now : ℕ) → IsValid db → IsValid (take db key now).1
  unfolding take take_found
  take-IsValid db key now v =
      let db1 = (expire_if_needed db key now).1 in
      let v1 = expire_if_needed-IsValid db key now v in
      elim (Option-cases (m.lookup db1.prime_table key)) [
        | inl absent ↦ rw absent (absent_deleted m db1.expire db1.prime_table key v1 absent)
        | inr (x, found) ↦ rw found (both_deleted m db1.expire db1.prime_table key v1)
      ]

  set_expiry-IsValid :
      (db : DbSlice m w V) (key : Key) (at now : ℕ)
      → IsValid db
      → IsValid (set_expiry db key at now)
  unfolding set_expiry
  set_expiry-IsValid db key at now v =
      let db1 = (expire_if_needed db key now).1 in
      let v1 = expire_if_needed-IsValid db key now v in
      elim (Bool-cases (has (m.lookup db1.prime_table) key)) [
        | inl there ↦ elim (Bool-cases (leb at now)) [
          | inl past ↦ rw there (rw past (both_deleted m db1.expire db1.prime_table key v1))
          | inr later ↦
              rw there (rw later (expiry_put m db1.expire db1.prime_table key v1 at there))
        ]
        | inr absent ↦ rw absent v1
      ]

  clear_expiry-IsValid :
      (db : DbSlice m w V) (key : Key) → IsValid db → IsValid (clear_expiry db key)
  unfolding clear_expiry
  clear_expiry-IsValid db key v =
      let gone = expiry_deleted m db.expire db.prime_table key v in
      elim (Bool-cases (has (m.lookup db.expire) key)) [
        | inl there ↦ rw there gone
        | inr absent ↦ rw absent gone
      ]

  -- A read after expiring the key: it changes no table but `touched`, whatever it finds.
  find-IsValid :
      (db : DbSlice m w V) (key : Key) (now : ℕ) → IsValid db → IsValid (find db key now).1
  unfolding find
  find-IsValid db key now v =
      let db1 = (expire_if_needed db key now).1 in
      let v1 = expire_if_needed-IsValid db key now v in
      elim (Option-cases (m.lookup db1.prime_table key)) [ inl e ↦ rw e v1 | inr (x, e) ↦ rw e v1 ]

  find_mut-IsValid :
      (db : DbSlice m w V) (key : Key) (now : ℕ) → IsValid db → IsValid (find_mut db key now).1
  unfolding find_mut
  find_mut-IsValid db key now v =
      let db1 = (expire_if_needed db key now).1 in
      let v1 = expire_if_needed-IsValid db key now v in
      elim (Option-cases (m.lookup db1.prime_table key)) [ inl e ↦ rw e v1 | inr (x, e) ↦ rw e v1 ]

  contains-IsValid :
      (db : DbSlice m w V) (key : Key) (now : ℕ) → IsValid db → IsValid (contains db key now).1
  unfolding contains
  contains-IsValid db key now v =
      let db1 = (expire_if_needed db key now).1 in
      let v1 = expire_if_needed-IsValid db key now v in
      elim (Bool-cases (has (m.lookup db1.prime_table) key)) [ inl e ↦ rw e v1 | inr e ↦ rw e v1 ]

  ttl_ms-IsValid :
      (db : DbSlice m w V) (key : Key) (now : ℕ) → IsValid db → IsValid (ttl_ms db key now).1
  unfolding ttl_ms
  ttl_ms-IsValid db key now v =
      let db1 = (expire_if_needed db key now).1 in
      let v1 = expire_if_needed-IsValid db key now v in
      elim (Bool-cases (has (m.lookup db1.prime_table) key)) [ inl e ↦ rw e v1 | inr e ↦ rw e v1 ]

  has_expiry-IsValid :
      (db : DbSlice m w V) (key : Key) (now : ℕ) → IsValid db → IsValid (has_expiry db key now).1
  unfolding has_expiry
  has_expiry-IsValid db key now v =
      let db1 = (expire_if_needed db key now).1 in
      let v1 = expire_if_needed-IsValid db key now v in
      elim (Bool-cases (has (m.lookup db1.expire) key)) [ inl e ↦ rw e v1 | inr e ↦ rw e v1 ]

  set_sticky-IsValid :
      (db : DbSlice m w V) (key : Key) (now : ℕ) → IsValid db → IsValid (set_sticky db key now).1
  unfolding set_sticky
  set_sticky-IsValid db key now v =
      let db1 = (expire_if_needed db key now).1 in
      let v1 = expire_if_needed-IsValid db key now v in
      elim (Bool-cases
        (has (m.lookup db1.prime_table) key && not (has (m.lookup db1.sticky) key))) [
          | inl e ↦ rw e v1
          | inr e ↦ rw e v1
        ]

  set_sticky_flag-IsValid :
      (db : DbSlice m w V) (key : Key) (sticky : Bool)
      → IsValid db
      → IsValid (set_sticky_flag db key sticky)
  unfolding set_sticky_flag
  set_sticky_flag-IsValid db key true v = elim (Bool-cases (has (m.lookup db.sticky) key)) [
    | inl e ↦ rw e v
    | inr e ↦ rw e v
  ]
  set_sticky_flag-IsValid db key false v = elim (Bool-cases (has (m.lookup db.sticky) key)) [
    | inl e ↦ rw e v
    | inr e ↦ rw e v
  ]

  -- Every method keeps the slice free of expiries without a value.
  pub after-IsValid : (db : DbSlice m w V) (c : Call V) → IsValid db → IsValid (after db c)
  unfolding after
  after-IsValid db (call_find key now) v = find-IsValid db key now v
  after-IsValid db (call_find_mut key now) v = find_mut-IsValid db key now v
  after-IsValid db (call_contains key now) v = contains-IsValid db key now v
  after-IsValid db (call_insert key value) v =
      unfold insert in value_put m db.expire db.prime_table key v value
  after-IsValid db (call_insert_if_absent key value now) v =
      insert_if_absent-IsValid db key value now v
  after-IsValid db (call_remove key) v = remove-IsValid db key v
  after-IsValid db (call_remove_if_exists key) v =
      unfold remove_if_exists in remove-IsValid db key v
  after-IsValid db (call_take key now) v = take-IsValid db key now v
  after-IsValid db (call_set_expiry key at now) v = set_expiry-IsValid db key at now v
  after-IsValid db (call_clear_expiry key) v = clear_expiry-IsValid db key v
  after-IsValid db (call_ttl_ms key now) v = ttl_ms-IsValid db key now v
  after-IsValid db (call_expire_if_needed key now) v = expire_if_needed-IsValid db key now v
  after-IsValid db (call_has_expiry key now) v = has_expiry-IsValid db key now v
  after-IsValid db (call_set_sticky key now) v = set_sticky-IsValid db key now v
  after-IsValid db (call_set_sticky_flag key sticky) v = set_sticky_flag-IsValid db key sticky v
  after-IsValid db call_bump_db_epoch v = unfold bump_db_epoch in v
  after-IsValid db call_drain_modified v = unfold drain_modified in v
  after-IsValid db (call_set_stream_watermark conn key id) v = unfold set_stream_watermark in v
  after-IsValid db (call_remove_stream_watermark conn key) v = unfold remove_stream_watermark in v
