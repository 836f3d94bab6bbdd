-- ===== src/Lib.antt =====
-- The storage and query layers of schema-js: shards, the files behind them, the rows and indexes that
-- they hold, and the queries on tables.
--
-- Parts of the program, from the bottom up, and the modules that model them:
--
-- - crates/data/src/data_handler.rs: Storage/File and Storage/Handler. A `File` is its bytes and the
--   platform it was opened on; every file is opened in append mode, so that a positioned write
--   (`write_at`) appends on Linux and writes in place on other POSIX systems. A `DataHandler` is the
--   file with the length of its memory map. `operate` runs a callback and maps the file anew only if
--   the callback succeeds, as the source does.
-- - crates/data/src/shard/shards/data_shard: DataShard. `DataShard/Header` is shard_header.rs,
--   `DataShard/Ops` is shard.rs, `DataShard/Config` is config.rs with temp_offset_types.rs. The state
--   is the record `DataShard` of path, header, handler and id. The file is 32 bytes of header (the
--   capacity, the last index, the id), a table of 8 bytes for each slot, then the items.
--   `DataShard/Layout` says when a shard stores a list of items (`Stored`); Read, Unused, Loop, Insert,
--   Open and Reopen have the proofs, and Laws fills the interface below.
-- - crates/data/src/shard/mod.rs and crates/data/src/errors.rs: Shard/Trait is the trait `Shard` as a
--   record of operations, Shard/Errors its errors, Shard/Laws the promises of a bounded shard on which
--   the map shard relies.
-- - crates/data/src/shard/shards/kv: KvShard. `KvShard/Header` is shard_header.rs, `KvShard/Ops` is
--   shard.rs with util.rs and config.rs. The file is 40 bytes of header (capacity, number of entries,
--   size of an entry, id), then the entries. `KvShard/Layout` says when a shard stores a list of
--   entries (`Entries`); Read, Insert, Open and Swap have the proofs, Laws fills the interface of bounded
--   shards, and InMap is about map shards of key-value shards.
-- - crates/data/src/shard/map_shard.rs, crates/data/src/utils/fs.rs: MapShard. `MapShard/Names` has the
--   file names, `MapShard/Open` has `MapShard::new`, `MapShard/Ops` has insertion and lookup, all
--   generic in the kind of shard. `MapShard/State` has the invariant `Contains`: full past shards with
--   their chunks of rows, a current shard, and the file name of the latter. Steps, Grow, Insert, Start,
--   Read and RoundTrip have the proofs.
-- - crates/data/src/shard/temp_map_shard.rs, temp_collection.rs, shard_collection.rs: TempShard. `TempShard/Ops`
--   has the operations; the parent map shard and the state that the callback captured are shared, and
--   together they are an argument and a result (`Behind`). `TempShard/Collection` has the two
--   collections. Insert and Full are about insertion, Moves, Reconcile and Whole about reconciliation,
--   Turns about the order of the temporary map shards.
-- - crates/index/src: Index. `Index/Unit` is data/index_data_unit.rs, `Index/Entry` has the two functions
--   of data/index_shard.rs that build entries and take them apart, `Index/Keys` the composite keys and
--   their hash, of which SHA-256 itself is a parameter. `Index/Types` has the traits `IndexKey` and
--   `IndexValue` as records with their implementations, `Index/Utf8` the test of `String::from_utf8`.
--   `Index/Shard` is the rest of data/index_shard.rs, over a map shard of key-value shards: below it,
--   State says when a shard stores entries (`Indexed`), Swap, Order and Sorted are about
--   `keep_binary_order`, Search and Lookup about the binary search, Between, Room and Insert about single
--   insertions. `Index/Hash` is implementations/hash with the trait `Index`; Map and Start have the proofs.
-- - crates/primitives/src: Primitives. `Primitives/Column` and `Primitives/Table` are the builders of
--   columns and tables, `Primitives/Value` the values with their equality, order and text,
--   `Primitives/Json` their conversion from JSON, `Primitives/Database` databases and collections.
-- - crates/query/src: Query. `Query/Ops` is ops/query_ops.rs, `Query/Errors` errors.rs, `Query/TableShard`
--   the state of managers/single/table_shard.rs, and `Query/Search` the evaluation of a query in
--   search/search_manager.rs, over any implementation of the trait `Index` (`IndexOps`). Below it, Meaning
--   says what a query asks of a row and what it asks of the indexes; Keys, Sets, Whole, Sound and
--   Filters have the proofs.
--   `Query/Row` is the trait of rows, `Query/RowJson` is row_json.rs and `Query/Borsh` serializer/borsh.rs.
--   `Query/Open` opens a table shard, `Query/Rows` puts reconciled rows into its indexes (with proofs
--   in Pending, Taken and Entries), and `Query/Manager` is managers/single/mod.rs with
--   `QuerySearchManager::search`; Stored follows an insertion down to a file.
-- - crates/engine/src: Engine, the databases of the engine and the registration of tables;
--   `Engine/Schema`, load_database_schema with utils/fs.rs, over paths and a file system that are
--   parameters; and `Engine/Insert`, the operation of ops/insert.rs.
-- - crates/base/src/manager: Tasks, the tasks beside the engine; `Tasks/Stop` has every order in which they
--   may be polled and cancelled as a step relation.
-- - Prelude has Boolean tests, lists, results with panics, signed integers and little-endian bytes.
--   Uuid is what the program uses of the `uuid` crate, as an interface with its round trips. Runs has
--   tests and the theorems at concrete inputs.
--
-- How state and errors are modelled. Shared mutable objects under a lock become arguments and results:
-- a method of `&mut self` or with a write lock gives back the new state. `Result` has a third case,
-- `panic`, for `unwrap`, a failed assertion, a subtraction that would go below 0, a division by 0,
-- and an offset of an entry or a position of a row of more than 64 bits, as overflow checks make it.
-- Numbers are natural; those that are stored have 64 bits and wrap where the source casts. A path is
-- the name of its file, since only the name is taken apart.
--
-- What is taken from outside (`World`): the platform, the bytes of files that are not open yet, and
-- the id that `Uuid::new_v4` draws for the shard of each number. The theorems on new shards suppose a
-- POSIX system other than Linux, on which a write at a position does not append, empty files at new
-- paths, and different ids.
--
-- Bounds. `raw_insert_rows` calls itself for each further shard and once more when it finds the
-- current one full. Each new shard takes a row at least, so fuel of the number of rows and 2 is
-- enough, and the theorems on insertion give a result for it. The binary search has fuel of the number of
-- entries and 1: each round leaves a shorter range.
--
-- Not modelled: locks and the interleaving of threads, errors of the disk, and the bounds of other
-- `usize` arithmetic, such as that on offsets in data shards. Printing and parsing JSON, the encoding
-- by Borsh, SHA-256 and the maps of JSON objects belong to other crates and are parameters. The folders
-- that the engine makes, the runtime and the module loader are not modelled.
pub mod Prelude
pub mod Storage
pub mod Uuid
pub mod Shard
pub mod DataShard
pub mod KvShard
pub mod MapShard
pub mod TempShard
pub mod Index
pub mod Primitives
pub mod Query
pub mod Engine
pub mod Tasks
mod Runs
