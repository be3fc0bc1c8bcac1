-- ===== src/Replication/Sync.antt =====
-- `sync_replica` and `add_replica` of src/replication.c: a new replica is sent the database as commands.
use crimson_cache.Base.{
  some, none, ℕ, ◌-◌, ◌/◌, Bool, false, ◌&&◌, ◌||◌, List, [], ◌∷◌, ◌++◌, ltb, ◌==◌, if◌then◌else◌,
  length, take,
}
use crimson_cache.CString.{Bytes, codes}
use crimson_cache.Number.{ℤ, print_nat}
use crimson_cache.Dict.Defs.{DictEntry, Chain, Dict}
use crimson_cache.Dict.Ops.{is_expired}
use crimson_cache.Persistence.Format.{is_string}
use crimson_cache.Replication.{ReplicationInfo}

-- What the clock shows and the writes come to while one entry is sent: at the test of its expiry, for
-- the SET, at the reading for the EXPIRE, and for that.
pub record SyncStep : Type 0 where
  pub now_test : ℕ
  pub set_completes : Bool
  pub now_expire : ℕ
  pub expire_completes : Bool

-- The bytes in memory behind `cmd_buffer`, which a line that is longer than the buffer shows.
abbrev pub Memory : Type 0
Memory = ℕ → Bytes

-- Whether one of the three `strchr` finds its character.
unfoldable pub needs_quotes : Bytes → Bool
needs_quotes [] = false
needs_quotes (c ∷ s) = c == b' ' || c == b'\t' || c == 34 || needs_quotes s

unfoldable pub set_line : DictEntry → Bytes
set_line e =
    codes "SET "
    ++ e.key
    ++ b' ' ∷ (if needs_quotes e.val.ptr then 34 ∷ (e.val.ptr ++ 34 ∷ []) else e.val.ptr)
    ++ b'\r' ∷ b'\n' ∷ []

-- `snprintf` into the buffer of 4096 bytes, and `write` of as many bytes as the text has.
unfoldable pub buffered : Memory → Bytes → Bytes
buffered beyond text =
    if ltb (length text) 4096 then text else take 4095 text ++ 0 ∷ beyond (length text - 4096)

-- EXPIRE in whole seconds, where there are any.
unfoldable pub expire_lines : Memory → SyncStep → DictEntry → List Bytes
expire_lines beyond step e =
    let ttl_sec = (e.val.expire - step.now_expire) / 1000 in
    if ltb 0 e.val.expire && (ltb step.now_expire e.val.expire && ltb 0 ttl_sec)
    then if step.expire_completes
      then buffered beyond
          (codes "EXPIRE " ++ e.key ++ b' ' ∷ print_nat ttl_sec ++ b'\r' ∷ b'\n' ∷ [])
        ∷ []
      else []
    else []

-- The complete writes for one entry.
unfoldable pub sync_entry : Memory → SyncStep → DictEntry → List Bytes
sync_entry beyond step e =
    if is_expired step.now_test e.val
    then []
    else if is_string e.val.type
    then if step.set_completes
      then buffered beyond (set_line e) ∷ expire_lines beyond step e
      else []
    else []

-- The steps are numbered by the entries that are left in the bucket and the buckets that are left.
unfoldable pub sync_chain : Memory → (ℕ → SyncStep) → Chain → List Bytes
sync_chain beyond steps [] = []
sync_chain beyond steps (e ∷ c) =
    sync_entry beyond (steps (length c)) e ++ sync_chain beyond steps c

unfoldable pub sync_table : Memory → (ℕ → ℕ → SyncStep) → List Chain → List Bytes
sync_table beyond steps [] = []
sync_table beyond steps (c ∷ cs) =
    sync_chain beyond (steps (length cs)) c ++ sync_table beyond steps cs

-- The complete writes to the replica.
unfoldable pub sync_replica : Memory → (ℕ → ℕ → SyncStep) → Dict → List Bytes
sync_replica beyond steps db = sync_table beyond steps db.table

-- What `add_replica` is given by the machine.
pub record ReplicaMemory : Type 0 where
  pub replica_granted : Bool
  pub ip_granted : Bool
  pub now : ℕ
  pub beyond : Memory
  pub steps : ℕ → ℕ → SyncStep

-- The state, and the complete writes to the new replica.
unfoldable pub add_replica :
    ReplicaMemory → ℕ → Bytes → ℤ → Dict → ReplicationInfo → ReplicationInfo × List Bytes
add_replica mem fd ip port db repl =
    if mem.replica_granted
    then (
      record repl {
        replicas =
            (record {
              fd = fd;
              ip = if mem.ip_granted then some ip else none;
              port = port;
              last_ack_time = mem.now;
            })
            ∷ repl.replicas;
      },
      sync_replica mem.beyond mem.steps db,
    )
    else (repl, [])
