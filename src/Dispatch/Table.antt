-- ===== src/Dispatch/Table.antt =====
-- The command table of src/commands.c, and the calls of its handlers.
use crimson_cache.Base.{
  ℕ, Bool, false, ◌&&◌, ◌||◌, List, [], ◌∷◌, Option, none, some, ltb, if◌then◌else◌,
}
use crimson_cache.CString.{Bytes, codes, str_eq}
use crimson_cache.Number.{ℤ, pos, negsuc}
use crimson_cache.Commands.Keyspace.{
  ping_command, set_command, get_command, del_command, exists_command, expire_command, ttl_command,
  incr_command,
}
use crimson_cache.Commands.Transactions.{multi_command, discard_command}
use crimson_cache.Dispatch.{Server, Worlds, Ran, Executor, on_db, on_clients}
use crimson_cache.Dispatch.Handlers.{
  save_command, bgsave_command, replicaof_command, role_command, replconf_command,
  subscribe_command, unsubscribe_command, publish_command, exec_command,
}

-- The pointers to the handlers.
pub data Handler : Type 0 where
  ping set get del exists expire ttl save bgsave replicaof role incr replconf : Handler
  multi exec discard subscribe unsubscribe publish : Handler

-- `command_def`
pub record CommandDef : Type 0 where
  pub name : Bytes
  pub handler : Handler
  pub min_args : ℕ
  pub max_args : ℤ

abbrev row : Bytes → Handler → ℕ → ℤ → CommandDef
row name handler min_args max_args = record {
  name = name;
  handler = handler;
  min_args = min_args;
  max_args = max_args;
}

unfoldable pub commands : List CommandDef
commands =
    row (codes "ping") ping 1 (pos 2)
    ∷ row (codes "set") set 3 (negsuc 0)
    ∷ row (codes "get") get 2 (pos 2)
    ∷ row (codes "del") del 2 (negsuc 0)
    ∷ row (codes "exists") exists 2 (negsuc 0)
    ∷ row (codes "expire") expire 3 (pos 3)
    ∷ row (codes "ttl") ttl 2 (pos 2)
    ∷ row (codes "save") save 1 (pos 1)
    ∷ row (codes "bgsave") bgsave 1 (pos 1)
    ∷ row (codes "replicaof") replicaof 3 (pos 3)
    ∷ row (codes "role") role 1 (pos 1)
    ∷ row (codes "incr") incr 2 (pos 2)
    ∷ row (codes "replconf") replconf 2 (negsuc 0)
    ∷ row (codes "multi") multi 1 (pos 1)
    ∷ row (codes "exec") exec 1 (pos 1)
    ∷ row (codes "discard") discard 1 (pos 1)
    ∷ row (codes "subscribe") subscribe 2 (negsuc 0)
    ∷ row (codes "unsubscribe") unsubscribe 1 (negsuc 0)
    ∷ row (codes "publish") publish 3 (pos 3)
    ∷ []

-- The first row with the name.
unfoldable pub find_command : Bytes → List CommandDef → Option CommandDef
find_command name [] = none
find_command name (c ∷ cs) = if str_eq name c.name then some c else find_command name cs

abbrev too_many : ℕ → ℤ → Bool
too_many argc (pos max) = ltb 0 max && ltb max argc
too_many argc (negsuc n) = false

unfoldable pub wrong_arity : ℕ → CommandDef → Bool
wrong_arity argc c = (ltb 0 c.min_args && ltb argc c.min_args) || too_many argc c.max_args

-- `commands[i].handler(client_sock, argc, argv, db)`
unfoldable pub call_handler : Executor → Handler → Worlds → ℕ → List Bytes → Server → Ran
call_handler run ping w sock argv s = on_db sock s (ping_command argv s.db)
call_handler run set w sock argv s = on_db sock s (set_command (w []).env argv s.db)
call_handler run get w sock argv s = on_db sock s (get_command (w []).env argv s.db)
call_handler run del w sock argv s = on_db sock s (del_command argv s.db)
call_handler run exists w sock argv s = on_db sock s (exists_command (w []).env argv s.db)
call_handler run expire w sock argv s = on_db sock s (expire_command (w []).env argv s.db)
call_handler run ttl w sock argv s = on_db sock s (ttl_command (w []).env argv s.db)
call_handler run save w sock argv s = save_command (w []) sock s
call_handler run bgsave w sock argv s = bgsave_command (w []) sock s
call_handler run replicaof w sock argv s = replicaof_command (w []) sock argv s
call_handler run role w sock argv s = role_command (w []) sock s
call_handler run incr w sock argv s = on_db sock s (incr_command (w []).env argv s.db)
call_handler run replconf w sock argv s = replconf_command (w []) sock argv s
call_handler run multi w sock argv s = on_clients sock s (multi_command sock s.clients)
call_handler run exec w sock argv s = exec_command run w sock s
call_handler run discard w sock argv s = on_clients sock s (discard_command sock s.clients)
call_handler run subscribe w sock argv s = subscribe_command (w []) sock argv s
call_handler run unsubscribe w sock argv s = unsubscribe_command sock argv s
call_handler run publish w sock argv s = publish_command sock argv s
