-- ===== src/Dict.antt =====
-- redis-stable/src/dict.c and dict.h: the hash table with incremental rehashing.
pub mod Types
pub mod Ops
pub mod Chains
pub mod Tables
pub mod Writes
pub mod Rehash
pub mod Migrate
pub mod Expand
pub mod Update
pub mod Contract
pub mod Delete
pub mod Replace
mod Tests
