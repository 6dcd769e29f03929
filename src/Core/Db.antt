-- ===== src/Core/Db.antt =====
-- src/core/db.rs: `DbSlice`. Keys are their bytes and values any type. The counters are `u64` and
-- `usize`, which wrap at 2^64.
pub mod Expiry
pub mod Calls
pub mod Watch
pub mod Covered
mod Tests
use dragonflydb_rs.Common.{
  ℕ, ◌+◌, ◌-◌, ◌%◌, ◌^◌, Bool, true, false, not, ◌&&◌, ◌||◌, Option, none, some, List, [], ◌∷◌,
  ◌++◌, leb, ◌==◌, if◌then◌else◌, bytes_eq, ◌>>=◌,
}
use dragonflydb_rs.Common.Int.{ℤ, pos, negsuc, ◌-ℤ◌, to_signed, to_unsigned}
use dragonflydb_rs.Core.HashMap.{HashMap}

abbrev pub Key : Type 0
Key = List ℕ

-- The keys of the watermarks: a connection and a key.
abbrev pub same_watermark : ℕ × Key → ℕ × Key → Bool
same_watermark (c, k) (d, j) = c == d && bytes_eq k j

pub record DbStats : Type 0 where
  pub key_count : ℕ
  pub expiry_count : ℕ
  pub expired_checked : ℕ
  pub hits : ℕ
  pub misses : ℕ

abbrev pub succ_u64 : ℕ → ℕ
succ_u64 n = (n + 1) % 2 ^ 64

abbrev pub is_some {ℓ} : {A : Type ℓ} → Option A → Bool
is_some none = false
is_some (some a) = true

-- `contains_key`
abbrev pub has {ℓ} : {A : Type ℓ} → (Key → Option A) → Key → Bool
has table key = is_some (table key)

-- The entry or 0.
abbrev pub or_zero : Option ℕ → ℕ
or_zero none = 0
or_zero (some n) = n

-- `(*at as i64) - (now_ms as i64)`
abbrev pub ttl_of : ℕ → Option ℕ → ℤ
ttl_of now none = negsuc 0
ttl_of now (some at) =
    to_signed (2 ^ 63) (to_unsigned (2 ^ 64) (to_signed (2 ^ 63) at -ℤ to_signed (2 ^ 63) now))

module _ (m : HashMap Key bytes_eq) (w : HashMap (ℕ × Key) same_watermark) (V : Type 0) where
  pub record DbSlice : Type 0 where
    pub shard_id : ℕ
    pub prime_table : m.Table V
    pub expire : m.Table ℕ
    pub sticky : m.Table Unit
    pub touched : m.Table Unit
    pub stream_block_watermarks : w.Table (ℕ × ℕ)
    pub versions : m.Table ℕ
    pub db_epoch : ℕ
    pub modified : List Key
    pub stats : DbStats

  abbrev pub new : ℕ → DbSlice
  new shard = record {
    shard_id = shard;
    prime_table = m.empty V;
    expire = m.empty ℕ;
    sticky = m.empty Unit;
    touched = m.empty Unit;
    stream_block_watermarks = w.empty (ℕ × ℕ);
    versions = m.empty ℕ;
    db_epoch = 0;
    modified = [];
    stats = record { key_count = 0; expiry_count = 0; expired_checked = 0; hits = 0; misses = 0 };
  }

module _ {m : HashMap Key bytes_eq} {w : HashMap (ℕ × Key) same_watermark} {V : Type 0} where
  unfoldable pub key_count : DbSlice m w V → ℕ
  key_count db = m.size db.prime_table

  unfoldable pub version_of : DbSlice m w V → Key → ℕ
  version_of db key = or_zero (m.lookup db.versions key)

  abbrev pub bump_version : DbSlice m w V → Key → DbSlice m w V
  bump_version db key = record db {
    versions = m.put db.versions key (succ_u64 (or_zero (m.lookup db.versions key)));
    modified = db.modified ++ key ∷ [];
  }

  abbrev pub refresh_stats : DbSlice m w V → DbSlice m w V
  refresh_stats db = record db {
    stats = record db.stats { key_count = m.size db.prime_table; expiry_count = m.size db.expire };
  }

  abbrev pub touch : DbSlice m w V → Key → DbSlice m w V
  touch db key = record db { touched = m.put db.touched key tt }

  -- What is removed of a key whose time has passed.
  abbrev pub drop_expired : DbSlice m w V → Key → DbSlice m w V
  drop_expired db key =
      let db1 = bump_version (record db { prime_table = m.delete db.prime_table key }) key in
      record db1 { expire = m.delete db.expire key; touched = m.delete db.touched key }

  -- `self.stats.expired_checked += 1`
  abbrev pub counted_check : DbSlice m w V → DbSlice m w V
  counted_check db = record db {
    stats = record db.stats { expired_checked = succ_u64 db.stats.expired_checked };
  }

  unfoldable pub expire_check : DbSlice m w V → Key → ℕ → Option ℕ → Bool × DbSlice m w V
  expire_check db key now none = (false, db)
  expire_check db key now (some at) =
      if leb at now then (true, drop_expired db key) else (false, db)

  unfoldable pub expire_if_needed : DbSlice m w V → Key → ℕ → Bool × DbSlice m w V
  unfolding expire_check
  expire_if_needed db key now =
      let db1 = counted_check db in
      if has (m.lookup db.sticky) key
      then (false, db1)
      else expire_check db1 key now (m.lookup db.expire key)

  -- A read that counts a hit or a miss.
  abbrev pub counted : DbSlice m w V → Key → Option V → Option V × DbSlice m w V
  counted db key none =
      (none, record db { stats = record db.stats { misses = succ_u64 db.stats.misses } })
  counted db key (some v) =
      (some v, record (touch db key) { stats = record db.stats { hits = succ_u64 db.stats.hits } })

  unfoldable pub find : DbSlice m w V → Key → ℕ → Option V × DbSlice m w V
  unfolding expire_if_needed
  find db key now =
      let db1 = (expire_if_needed db key now).1 in counted db1 key (m.lookup db1.prime_table key)

  -- The value of `find_mut`; what the caller writes through it is the caller's.
  abbrev pub seen : DbSlice m w V → Key → Option V → Option V × DbSlice m w V
  seen db key none = (none, db)
  seen db key (some v) = (some v, touch db key)

  unfoldable pub find_mut : DbSlice m w V → Key → ℕ → Option V × DbSlice m w V
  unfolding expire_if_needed
  find_mut db key now =
      let db1 = (expire_if_needed db key now).1 in seen db1 key (m.lookup db1.prime_table key)

  unfoldable pub contains : DbSlice m w V → Key → ℕ → Bool × DbSlice m w V
  unfolding expire_if_needed
  contains db key now =
      let db1 = (expire_if_needed db key now).1 in
      if has (m.lookup db1.prime_table) key then (true, touch db1 key) else (false, db1)

  unfoldable pub insert : DbSlice m w V → Key → V → DbSlice m w V
  insert db key value =
      refresh_stats (bump_version (record db { prime_table = m.put db.prime_table key value }) key)

  unfoldable pub insert_if_absent : DbSlice m w V → Key → V → ℕ → Bool × DbSlice m w V
  unfolding expire_if_needed insert
  insert_if_absent db key value now =
      let db1 = (expire_if_needed db key now).1 in
      if has (m.lookup db1.prime_table) key then (false, db1) else (true, insert db1 key value)

  -- The entries of a key that was there.
  abbrev pub forget : DbSlice m w V → Key → DbSlice m w V
  forget db key =
      let db1 = bump_version (record db { prime_table = m.delete db.prime_table key }) key in
      record db1 {
        expire = m.delete db.expire key;
        sticky = m.delete db.sticky key;
        touched = m.delete db.touched key;
      }

  unfoldable pub remove_found : DbSlice m w V → Key → Option V → Option V × DbSlice m w V
  remove_found db key none = (none, record db { prime_table = m.delete db.prime_table key })
  remove_found db key (some v) = (some v, forget db key)

  unfoldable pub remove : DbSlice m w V → Key → Option V × DbSlice m w V
  unfolding remove_found
  remove db key = remove_found db key (m.lookup db.prime_table key)

  unfoldable pub remove_if_exists : DbSlice m w V → Key → Bool × DbSlice m w V
  unfolding remove
  remove_if_exists db key = (let (v, db1) = remove db key in (is_some v, db1))

  unfoldable pub take_found :
      DbSlice m w V → Key → Option V → Option (V × Option ℕ × Bool) × DbSlice m w V
  take_found db key none = (none, record db { prime_table = m.delete db.prime_table key })
  take_found db key (some v) = (
    some (v, m.lookup db.expire key, has (m.lookup db.sticky) key),
    refresh_stats (forget db key),
  )

  unfoldable pub take : DbSlice m w V → Key → ℕ → Option (V × Option ℕ × Bool) × DbSlice m w V
  unfolding expire_if_needed take_found
  take db key now =
      let db1 = (expire_if_needed db key now).1 in take_found db1 key (m.lookup db1.prime_table key)

  -- The two branches of `set_expiry`: a time that has passed, and one to come.
  abbrev pub drop_past : DbSlice m w V → Key → DbSlice m w V
  drop_past db key =
      let db1 = bump_version (record db { prime_table = m.delete db.prime_table key }) key in
      record db1 { expire = m.delete db.expire key }

  abbrev pub expire_later : DbSlice m w V → Key → ℕ → DbSlice m w V
  expire_later db key at = record (bump_version db key) { expire = m.put db.expire key at }

  unfoldable pub set_expiry : DbSlice m w V → Key → ℕ → ℕ → DbSlice m w V
  unfolding expire_if_needed
  set_expiry db key at now =
      let db1 = (expire_if_needed db key now).1 in
      refresh_stats (
        if has (m.lookup db1.prime_table) key
        then if leb at now then drop_past db1 key else expire_later db1 key at
        else db1)

  unfoldable pub clear_expiry : DbSlice m w V → Key → DbSlice m w V
  clear_expiry db key =
      let db1 : DbSlice m w V = record db { expire = m.delete db.expire key } in
      if has (m.lookup db.expire) key then bump_version db1 key else db1

  unfoldable pub ttl_ms : DbSlice m w V → Key → ℕ → ℤ × DbSlice m w V
  unfolding expire_if_needed ◌-ℤ◌
  ttl_ms db key now =
      let db1 = (expire_if_needed db key now).1 in
      if has (m.lookup db1.prime_table) key
      then (ttl_of now (m.lookup db1.expire key), db1)
      else (negsuc 1, db1)

  unfoldable pub has_expiry : DbSlice m w V → Key → ℕ → Bool × DbSlice m w V
  unfolding expire_if_needed
  has_expiry db key now =
      let db1 = (expire_if_needed db key now).1 in
      if has (m.lookup db1.expire) key then (true, touch db1 key) else (false, db1)

  unfoldable pub expire_at : DbSlice m w V → Key → Option ℕ
  expire_at db key = m.lookup db.expire key

  -- The flag is new, or gone.
  abbrev pub stuck : DbSlice m w V → Key → DbSlice m w V
  stuck db key = bump_version (record db { sticky = m.put db.sticky key tt }) key

  abbrev pub unstuck : DbSlice m w V → Key → DbSlice m w V
  unstuck db key = bump_version (record db { sticky = m.delete db.sticky key }) key

  unfoldable pub set_sticky : DbSlice m w V → Key → ℕ → Bool × DbSlice m w V
  unfolding expire_if_needed
  set_sticky db key now =
      let db1 = (expire_if_needed db key now).1 in
      if has (m.lookup db1.prime_table) key && not (has (m.lookup db1.sticky) key)
      then (true, stuck db1 key)
      else (false, db1)

  unfoldable pub is_sticky : DbSlice m w V → Key → Bool
  is_sticky db key = has (m.lookup db.sticky) key

  unfoldable pub is_touched : DbSlice m w V → Key → Bool
  is_touched db key = has (m.lookup db.touched) key

  unfoldable pub set_sticky_flag : DbSlice m w V → Key → Bool → DbSlice m w V
  set_sticky_flag db key true =
      if has (m.lookup db.sticky) key
      then record db { sticky = m.put db.sticky key tt }
      else stuck db key
  set_sticky_flag db key false =
      if has (m.lookup db.sticky) key
      then unstuck db key
      else record db { sticky = m.delete db.sticky key }

  unfoldable pub bump_db_epoch : DbSlice m w V → DbSlice m w V
  bump_db_epoch db = record db { db_epoch = succ_u64 db.db_epoch }

  unfoldable pub drain_modified : DbSlice m w V → List Key × DbSlice m w V
  drain_modified db = (db.modified, record db { modified = [] })

  unfoldable pub stream_watermark : DbSlice m w V → ℕ → Key → Option (ℕ × ℕ)
  stream_watermark db conn key = w.lookup db.stream_block_watermarks (conn, key)

  unfoldable pub set_stream_watermark : DbSlice m w V → ℕ → Key → ℕ × ℕ → DbSlice m w V
  set_stream_watermark db conn key id = record db {
    stream_block_watermarks = w.put db.stream_block_watermarks (conn, key) id;
  }

  unfoldable pub remove_stream_watermark : DbSlice m w V → ℕ → Key → DbSlice m w V
  remove_stream_watermark db conn key = record db {
    stream_block_watermarks = w.delete db.stream_block_watermarks (conn, key);
  }
