-- ===== src/Core.antt =====
-- src/core: the data structures.
pub mod Listpack
pub mod Intset
pub mod QuickList
pub mod Compact
pub mod Value
pub mod Lzf
pub mod Rdb
pub mod HashMap
pub mod Db
pub mod Stream
pub mod Set
pub mod Hash
pub mod Cms
