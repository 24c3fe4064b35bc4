-- ===== src/Table.antt =====
-- NodeInfo/table.c: a hash table of pointers with chained buckets.
mod Defs
pub mod Bucket
pub mod WellFormed
pub mod Runs
pub mod Laws
pub mod Sizes
pub mod Array
pub mod Free
unfoldable pub use Defs.*
