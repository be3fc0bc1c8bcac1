-- ===== src/Dict.antt =====
-- src/dict.h, src/dict.c: the hash table. `Hash`, `Defs`, `Lru` and `Ops` hold the data and the
-- operations, the other modules what is proved of them.
pub mod Hash
pub mod Defs
pub mod Chain
pub mod Lru
pub mod Ops
pub mod Valid
pub mod Access
pub mod Create
pub mod Insert
pub mod Resize
pub mod Scan
pub mod Evict
pub mod Add
pub mod Clear
