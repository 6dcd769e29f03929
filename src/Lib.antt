-- ===== src/Lib.antt =====
-- dragonflydb-rs: a verification library for the data structures of the server.
--
-- dragonflydb-rs is a Redis-compatible server that splits its keyspace over shards. A shard owns a
-- slice of the database (src/core/db.rs), whose values are the data structures of src/core; the
-- commands read and change them and the server's threads carry requests and replies. The library
-- models the parts below, each in its module, with the functions under their names of the source.
--
-- Common holds the shared helpers: lists, options, Boolean tests, integers over the native numbers
-- (Common.Int), little-endian bytes (Common.Le) and bit masks (Common.Masks).
--
-- Util is src/util.rs. Util.Decimal has `itoa`, `parse_i64` and `parse_u64`, Util.Range has
-- `redis_range`; Util.RoundTrip relates them. The digit loop is that of `parse_i64`, which
-- `string_to_i64` and `string2ll` share.
--
-- Core.Listpack is src/core/listpack.rs, the codec of the RDB and DUMP formats. A buffer is its list
-- of bytes. Header has the constants and the header's fields, Backlen the length behind each element,
-- Number `string_to_i64`, Encode and Decode the elements, Validate the checks and the walk, Build the
-- incremental builder. A read past the end is `none`, as `get(..)?` is. The scanning loop of
-- `validate_deep` runs on fuel, the length of the buffer, and ends before it is used up.
--
-- Core.Intset is src/core/intset.rs. Parse has `string2ll`; Blob has the builder, the validation and
-- the reading of blobs, with the loops over the records as recursion on the records to go.
--
-- Core.Compact is src/core/compact.rs. A string whose heap part is missing makes the source panic;
-- here its bytes are `none`. Elsewhere a string is its bytes, as strings made from bytes behave alike.
--
-- Core.Lzf is `decompress` of src/core/lzf.rs; its loop runs on fuel, the length of the input, which is
-- enough, as each turn reads at least one byte.
--
-- Core.Rdb is the lengths and strings of src/core/rdb.rs, with the slice-backed reader. The error of
-- these functions is `none`.
--
-- Core.Value is src/core/value.rs: the type names and the allocation estimate of strings.
--
-- Core.QuickList is src/core/quicklist.rs. Item has `ListItem`, Chunk a chunk of items with its
-- counter of bytes, Ends the list and its two ends, Index the access by index, Remove the operations
-- that rebuild the list. The loops over chunks are structural. Ends.Valid states what every list keeps
-- to; the counter of a chunk is at least the bytes of its items, since a split in `insert` leaves the
-- left counter as it was. Runs takes the operations in any order.
--
-- Core.Db is src/core/db.rs, the slice. The hash maps are hashbrown's, which is not part of the
-- repository: Core.HashMap is a record of the operations that the code calls and the laws that
-- hashbrown documents for them, and every definition of Core.Db takes such maps. A value is any type,
-- since the slice never looks into it. Db.Calls lists the methods; Db.Expiry is about keys whose
-- time has passed, Db.Covered about expiries and the values they belong to, and Db.Watch about the
-- versions that WATCH relies on.
--
-- Core.Set is src/core/set.rs: a vector of members or a table, and the table of expiries. Set.Small is about
-- the vector, Set.Shows about single changes, Set.Contents is the plain
-- description, Set.Runs takes any calls, Set.Pop about the listing and
-- `pop_random`, whose hash is a parameter. Core.HashMap.Entries is what the code asks of hashbrown's maps
-- when it goes through them.
--
-- Core.Hash is src/core/hash.rs in the same way: a vector of fields with values or a table, and the table of
-- expiries. Hash.Small is about the vector, Hash.Shows about single changes, Hash.Contents is the plain
-- description, and Hash.Runs takes any calls.
--
-- Core.Cms is src/core/cms.rs, the count-min sketch, over any fingerprint of items. Cms.Rows is about the loops
-- over the rows, Cms.RoundTrip about the bytes of a sketch.
--
-- Core.Stream is src/core/stream.rs. Id has the ids and their order, Tree the `BTreeMap`s as sorted
-- lists, Defs the stream with `append`, `delete` and the lag of groups, Trim `node_chunks` and `trim`,
-- Groups the consumer groups. Live has the invariant; Edits, Bounds and Exact are about changes of the
-- entries, Delivery, NoLoss and Ack about the groups. The maps from names to groups and consumers are
-- those of Core.HashMap.
--
-- Commands.Streams is the part of src/commands/exec/streams.rs that gives out the ids of XADD, and what
-- XADD and XTRIM do to a stream that is there.
--
-- Protocol.Resp is src/protocol/resp.rs: the incremental parser of requests, whose errors are values and
-- whose state is the buffer and the error flag, and in Reply the encoder of replies (`RespValue` of
-- src/error.rs). Formatting of floating-point numbers is a parameter. The loop of `parse_inline` runs on
-- fuel, the length of the buffer, which is enough, as each turn that goes on drains a byte. Resp.Stable
-- shows that more input only completes a result, which Resp.Requests uses.
--
-- Server.Journal is src/server/journal.rs: the writer of records and their reader, whose errors are
-- values. `read_entry` runs on fuel, the bytes that are left, and Journal.Rounds shows that this is no
-- bound. Journal.Packed relates its lengths to those of src/core/rdb.rs; Journal.Slice is the ring of a
-- shard, over any callbacks.
--
-- Server.SlowLog is src/server/slowlog.rs, the ring of slow commands. The loop that trims it is a
-- recursion on its entries; a reply's array of arguments is the list of its strings.
--
-- The counters of 64 bits wrap as the source's do; the theorems on versions ask for room. Lengths of
-- lists in memory are natural numbers, and index arithmetic on them is exact, as no list reaches 2^63
-- items.
--
-- Not modelled are threads, channels and sockets (the rest of src/server), the rest of the command layer (src/commands), the
-- Lua bindings, floating point, and the structures of src/core that are not named above.
pub mod Common
pub mod Util
pub mod Core
pub mod Server
pub mod Commands
pub mod Protocol
