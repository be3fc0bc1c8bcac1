-- ===== src/Commands.antt =====
-- src/commands.c: what the handlers of the commands do, and their laws.
pub mod Keyspace
pub mod Transactions
pub mod Blocks
pub mod Queueing
pub mod Reads
pub mod Expiry
pub mod Writes
pub mod Sound
pub mod Increment
