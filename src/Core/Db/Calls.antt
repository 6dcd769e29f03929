-- ===== src/Core/Db/Calls.antt =====
-- src/core/db.rs: the methods that change a slice, as data, and the slice after a call.
use dragonflydb_rs.Common.{ℕ, Bool, bytes_eq}
use dragonflydb_rs.Core.HashMap.{HashMap}
use dragonflydb_rs.Core.Db.{
  Key, same_watermark, DbSlice, find, find_mut, contains, insert, insert_if_absent, remove,
  remove_if_exists, take, set_expiry, clear_expiry, ttl_ms, expire_if_needed, has_expiry,
  set_sticky, set_sticky_flag, bump_db_epoch, drain_modified, set_stream_watermark,
  remove_stream_watermark,
}

pub data Call (V : Type 0) : Type 0 where
  call_find : Key → ℕ → Call V
  call_find_mut : Key → ℕ → Call V
  call_contains : Key → ℕ → Call V
  call_insert : Key → V → Call V
  call_insert_if_absent : Key → V → ℕ → Call V
  call_remove : Key → Call V
  call_remove_if_exists : Key → Call V
  call_take : Key → ℕ → Call V
  call_set_expiry : Key → ℕ → ℕ → Call V
  call_clear_expiry : Key → Call V
  call_ttl_ms : Key → ℕ → Call V
  call_expire_if_needed : Key → ℕ → Call V
  call_has_expiry : Key → ℕ → Call V
  call_set_sticky : Key → ℕ → Call V
  call_set_sticky_flag : Key → Bool → Call V
  call_bump_db_epoch : Call V
  call_drain_modified : Call V
  call_set_stream_watermark : ℕ → Key → ℕ × ℕ → Call V
  call_remove_stream_watermark : ℕ → Key → Call V

module _ {m : HashMap Key bytes_eq} {w : HashMap (ℕ × Key) same_watermark} {V : Type 0} where
  unfoldable pub after : DbSlice m w V → Call V → DbSlice m w V
  after db (call_find key now) = (find db key now).1
  after db (call_find_mut key now) = (find_mut db key now).1
  after db (call_contains key now) = (contains db key now).1
  after db (call_insert key value) = insert db key value
  after db (call_insert_if_absent key value now) = (insert_if_absent db key value now).1
  after db (call_remove key) = (remove db key).1
  after db (call_remove_if_exists key) = (remove_if_exists db key).1
  after db (call_take key now) = (take db key now).1
  after db (call_set_expiry key at now) = set_expiry db key at now
  after db (call_clear_expiry key) = clear_expiry db key
  after db (call_ttl_ms key now) = (ttl_ms db key now).1
  after db (call_expire_if_needed key now) = (expire_if_needed db key now).1
  after db (call_has_expiry key now) = (has_expiry db key now).1
  after db (call_set_sticky key now) = (set_sticky db key now).1
  after db (call_set_sticky_flag key sticky) = set_sticky_flag db key sticky
  after db call_bump_db_epoch = bump_db_epoch db
  after db call_drain_modified = (drain_modified db).1
  after db (call_set_stream_watermark conn key id) = set_stream_watermark db conn key id
  after db (call_remove_stream_watermark conn key) = remove_stream_watermark db conn key
