-- ===== src/Dispatch.antt =====
-- The state of the whole server, and what one command is given by the machine and leaves behind.
-- `Handlers` has the handlers of src/commands.c that need more than the database, `Table` the command
-- table, `Execute` has `execute_command`; the others what is proved of them.
pub mod Handlers
pub mod Table
pub mod Execute
pub mod Valid
pub mod Quiet
pub mod Exec
pub mod Preserve
pub mod Sequence
use crimson_cache.Base.{ℕ, ◌-◌, ◌^◌, Bool, List, [], ◌∷◌, Option, ltb, if◌then◌else◌}
use crimson_cache.CString.{Bytes}
use crimson_cache.Number.{ℤ}
use crimson_cache.Dict.Defs.{Dict}
use crimson_cache.Tokenizer.{TokenMemory}
use crimson_cache.PubSub.{Channel, SubMemory, Output}
use crimson_cache.Transaction.{QueueMemory}
use crimson_cache.Server.{Slots}
use crimson_cache.Replication.{ReplicationInfo, Write}
use crimson_cache.Replication.Sync.{ReplicaMemory}
use crimson_cache.Persistence.Save.{FileSystem}
use crimson_cache.Commands.Keyspace.{CmdResult, cmd_ok, cmd_err, CommandEnv, Outcome}
use crimson_cache.Commands.Transactions.{Handled}

-- A socket is an `int` by its 32 bits: -1 is 2 ^ 32 - 1, and those that are not negative are open.
abbrev pub no_socket : ℕ
no_socket = 2 ^ 32 - 1

abbrev pub is_open : ℕ → Bool
is_open sock = ltb sock (2 ^ 31)

-- The globals of the program: `server_db`, `client_list`, `server_pubsub`, `server_repl`,
-- `changes_since_save`, `config.port`, the file dump.rdb, and the copies of the database that children
-- of the process are to save.
pub record Server : Type 0 where
  pub db : Dict
  pub clients : Slots
  pub channels : List Channel
  pub repl : ReplicationInfo
  pub changes_since_save : ℕ
  pub port : ℤ
  pub dump : Option Bytes
  pub children : List Dict

-- What one run of `execute_command` is given: the allocations, the clock, the file system, the
-- network; for the feeding of the replicas, by their positions in the list.
pub record World : Type 0 where
  pub input_copied : Bool
  pub tokens : TokenMemory
  pub env : CommandEnv
  pub queue : QueueMemory
  pub array_granted : Bool
  pub copies_granted : ℕ → Bool
  pub files : FileSystem
  pub save_now : ℕ
  pub forks : Bool
  pub subs : ℕ → SubMemory
  pub connect : Bytes → ℤ → Option ℕ
  pub peer_ip : Bytes
  pub replica : ReplicaMemory
  pub role_now : ℕ → ℕ
  pub feed_outcome : ℕ → Write
  pub feed_clock : ℕ → ℕ
  pub feed_granted : Bool

-- A run is found by its path: `[]` is the run itself, and `k ∷ p` the run at `p` below the queued
-- command behind which there are k more.
abbrev pub Worlds : Type 0
Worlds = List ℕ → World

abbrev pub below : ℕ → Worlds → Worlds
below k w p = w (k ∷ p)

-- What a run leaves, with all complete writes in their order.
pub record Ran : Type 0 where
  pub result : CmdResult
  pub server : Server
  pub sent : Output

-- A write to a client's socket.
abbrev pub say : ℕ → Bytes → Output
say sock bytes = if is_open sock then (sock, bytes) ∷ [] else []

abbrev pub done : ℕ → Bytes → Server → Ran
done sock bytes s = record { result = cmd_ok; server = s; sent = say sock bytes }

abbrev pub failed : ℕ → Bytes → Server → Ran
failed sock bytes s = record { result = cmd_err; server = s; sent = say sock bytes }

-- A handler on the database, and one on the clients.
abbrev pub on_db : ℕ → Server → Outcome → Ran
on_db sock s o = record {
  result = o.result;
  server = record s { db = o.db };
  sent = say sock o.written;
}

abbrev pub on_clients : ℕ → Server → Handled → Ran
on_clients sock s h = record {
  result = h.result;
  server = record s { clients = h.clients };
  sent = say sock h.written;
}

-- `execute_command`, as what runs a queued command.
abbrev pub Executor : Type 0
Executor = Worlds → ℕ → Bytes → Server → Ran
