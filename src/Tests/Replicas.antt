-- ===== src/Tests/Replicas.antt =====
-- A primary with three replicas, of which one is reached, one would block and one is broken.
use crimson_cache.Base.{some, ℕ, none, true, [], ◌∷◌, ◌==◌, if◌then◌else◌}
use crimson_cache.CString.{codes}
use crimson_cache.Number.{pos}
use crimson_cache.Replication.{
  Replica, ReplicationInfo, Write, complete, would_block, broken, state_none,
}

abbrev replica : ℕ → Replica
replica fd = record { fd = fd; ip = some (codes "10.0.0.1"); port = pos 6380; last_ack_time = 0 }

abbrev primary : ReplicationInfo
primary = record {
  is_primary = true;
  primary_host = [];
  primary_port = pos 0;
  state = state_none;
  primary_fd = none;
  replid = [];
  replicas = replica 7 ∷ replica 8 ∷ replica 9 ∷ [];
  repl_offset = 100;
}

-- The outcomes by position.
abbrev network : ℕ → Write
network k = if k == 0 then complete else if k == 1 then would_block else broken
