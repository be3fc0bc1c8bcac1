-- ===== src/Persistence.antt =====
-- src/persistence.c: the RDB file. `Save` and `Load` hold the operations over the format's parts in
-- `Format`; the others what is proved of them.
pub mod Format
pub mod Save
pub mod Load
pub mod Harmless
pub mod Codec
pub mod Written
pub mod Atomic
pub mod RoundTrip
pub mod Reload
