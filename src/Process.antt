-- ===== src/Process.antt =====
-- src/main.c and src/eventloop.c: the server as a process, with its threads. Each round of a thread is
-- a step. `Follow` has the replication thread, `Clients` the connections, `Steps` the steps together.
pub mod Follow
pub mod Clients
pub mod Steps
pub mod Kept
pub mod Reached
pub mod Chunks
pub mod Stream
pub mod Lengths
pub mod Sent
pub mod Synced
pub mod Saving
pub mod Bounds
pub mod Boot
use crimson_cache.Base.{
  ℕ, ◌+◌, ◌-◌, Bool, true, false, not, ◌&&◌, ◌||◌, List, [], ◌∷◌, Option, none, some, ltb, leb,
  ◌==◌, if◌then◌else◌, take, replicate,
}
use crimson_cache.CString.{Bytes}
use crimson_cache.Number.{ℤ, pos, negsuc}
use crimson_cache.Dict.Defs.{Dict}
use crimson_cache.Dict.Ops.{dict_create, dict_clear_expired}
use crimson_cache.Persistence.Format.{◌>>=◌}
use crimson_cache.Persistence.Save.{FileSystem, save_rdb_to_file}
use crimson_cache.Persistence.Load.{LoadStep, Opened, load_rdb_from_file}
use crimson_cache.Replication.Roles.{replication_init}
use crimson_cache.Server.{Slots}
use crimson_cache.Config.{ServerConfig}
use crimson_cache.Dispatch.{Server}
use crimson_cache.Dispatch.Handlers.{difference}

-- The server with `server_persistence.last_save`, what stands in the buffer of the replication
-- thread, and `server_running`.
pub record Process : Type 0 where
  pub server : Server
  pub config : ServerConfig
  pub last_save : ℕ
  pub pending : Bytes
  pub server_running : Bool

-- SIGINT is 2, SIGTERM 15.
unfoldable pub handle_signal : ℕ → Process → Process
handle_signal sig p = if sig == 2 || sig == 15 then record p { server_running = false } else p

-- A round of the loop.
unfoldable pub cleanup_expired_keys : ℕ → Process → Process
cleanup_expired_keys now p = record p {
  server = record p.server { db = dict_clear_expired now p.server.db };
}

-- Whether a setting that is to be positive has been reached.
abbrev pub is_reached : ℤ → ℤ → Bool
is_reached (pos setting) (pos n) = ltb 0 setting && leb setting n
is_reached _ _ = false

unfoldable pub is_save_due : ServerConfig → ℕ → ℤ → Bool
is_save_due config changes time_since_save =
    is_reached config.save_after_changes (pos changes)
    || (is_reached config.save_after_seconds time_since_save && ltb 0 changes)

-- A round of the loop: `now` in seconds, `save_now` the clock of the save in milliseconds.
unfoldable pub auto_save_thread : FileSystem → ℕ → ℕ → Process → Process
auto_save_thread files now save_now p =
    let s = p.server in
    let (saved, dump) = save_rdb_to_file files save_now s.db s.dump in
    let s' = record s { dump = dump } in
    if is_save_due p.config s.changes_since_save (difference now p.last_save)
    then if saved
      then record p { server = record s' { changes_since_save = 0 }; last_save = now }
      else record p { server = s' }
    else p

-- What the machine gives the start of `main`.
pub record Machine : Type 0 where
  pub dict_granted : Bool
  pub table_granted : Bool
  pub clients_granted : Bool
  pub random : ℕ → ℕ
  pub now : ℕ
  pub load : ℕ → LoadStep
  pub opened : Opened
  pub dump : Option Bytes

abbrev pub slots_for : ℤ → Option Slots
slots_for (pos max_clients) = some (replicate max_clients none)
slots_for (negsuc n) = none

abbrev pub booted : ServerConfig → Machine → Dict → Slots → Process
booted config m db slots = record {
  server = record {
    db = (load_rdb_from_file m.load db m.opened).1;
    clients = slots;
    channels = [];
    repl = replication_init m.random;
    changes_since_save = 0;
    port = config.port;
    dump = m.dump;
    children = [];
  };
  config = config;
  last_save = m.now;
  pending = [];
  server_running = true;
}

-- `main` from the creation of the database up to the start of the threads; `none` is EXIT_FAILURE.
-- For the size 1024 the loop of `dict_create` ends within 64 rounds.
unfoldable pub boot : ServerConfig → Machine → Option Process
boot config m = do
  created ← dict_create 64 m.dict_granted m.table_granted 1024
  db ← created
  slots ← slots_for config.max_clients
  if m.clients_granted then some (booted config m db slots) else none
