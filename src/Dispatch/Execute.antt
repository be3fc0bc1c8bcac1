-- ===== src/Dispatch/Execute.antt =====
-- `execute_command` of src/commands.c. It calls itself for the commands that EXEC runs; the depth of
-- these calls is the fuel.
use crimson_cache.Base.{
  ℕ, zero, suc, ◌+◌, Bool, true, false, not, ◌&&◌, ◌||◌, List, [], ◌∷◌, ◌++◌, Option, none, some,
  map, length, get_or, if◌then◌else◌,
}
use crimson_cache.CString.{Bytes, codes, str_eq, strcasecmp_eq, tolower}
use crimson_cache.Tokenizer.{tokenize_command}
use crimson_cache.Reply.{reply_error}
use crimson_cache.Transaction.{Client}
use crimson_cache.Server.{get_client_by_socket}
use crimson_cache.Replication.{replication_feed_slaves}
use crimson_cache.Commands.Keyspace.{CmdResult, cmd_ok, cmd_unknown}
use crimson_cache.Commands.Transactions.{queue_input}
use crimson_cache.Dispatch.{Server, World, Worlds, Ran, Executor, is_open, failed, on_clients}
use crimson_cache.Dispatch.Table.{CommandDef, commands, find_command, wrong_arity, call_handler}

unfoldable pub is_tx_command : Bytes → Bool
is_tx_command name =
    str_eq name (codes "multi") || str_eq name (codes "exec") || str_eq name (codes "discard")

-- `client_sock >= 0 ? get_client_by_socket(client_sock) : NULL`
abbrev pub client_of : ℕ → Server → Option Client
client_of sock s = if is_open sock then get_client_by_socket sock s.clients else none

abbrev pub in_transaction : Option Client → Bool
in_transaction none = false
in_transaction (some c) = c.in_transaction

-- The client whose command is to be queued.
unfoldable pub queueing_client : Bytes → Option Client → Option Client
queueing_client name none = none
queueing_client name (some c) =
    if c.in_transaction && not (is_tx_command name) then some c else none

-- The search of the table, up to the propagation. The row that was found, if any, is given.
unfoldable pub run_found : Executor → Option CommandDef → Worlds → ℕ → List Bytes → Server → Ran
run_found run none w sock argv s = failed sock (reply_error (codes "err unknown command")) s
run_found run (some c) w sock argv s =
    if wrong_arity (length argv) c
    then failed sock (reply_error (codes "err wrong number of arguments")) s
    else call_handler run c.handler w sock argv s

unfoldable pub is_write : Bytes → Bool
is_write name =
    strcasecmp_eq name (codes "set")
    || strcasecmp_eq name (codes "del")
    || strcasecmp_eq name (codes "expire")
    || strcasecmp_eq name (codes "incr")

abbrev is_ok : CmdResult → Bool
is_ok cmd_ok = true
is_ok _ = false

-- `track_command_change` and `replication_feed_slaves`
unfoldable pub propagate : World → Bytes → Ran → Ran
propagate w input r =
    let s = r.server in
    let (repl, sent) =
      replication_feed_slaves w.feed_outcome w.feed_clock w.feed_granted input s.repl in
    record r {
      server = record s { repl = repl; changes_since_save = s.changes_since_save + 1 };
      sent = r.sent ++ sent;
    }

unfoldable pub should_propagate : ℕ → Bytes → Ran → Bool
should_propagate sock name r =
    is_ok r.result
    && not (in_transaction (client_of sock r.server))
    && r.server.repl.is_primary
    && is_open sock
    && is_write name

-- What follows the handler.
unfoldable pub finish : World → ℕ → Bytes → Bytes → Ran → Ran
finish w sock input name r = if should_propagate sock name r then propagate w input r else r

unfoldable pub run_command : Executor → Worlds → ℕ → Bytes → List Bytes → Server → Ran
run_command run w sock input argv s =
    let name = get_or argv 0 [] in
    finish (w []) sock input name (run_found run (find_command name commands) w sock argv s)

-- With the words of the line, the first in lower case.
unfoldable pub execute_words : Executor → Worlds → ℕ → Bytes → List Bytes → Server → Ran
execute_words run w sock input argv s =
    elim (queueing_client (get_or argv 0 []) (client_of sock s)) [
      | some client ↦ on_clients sock s (queue_input (w []).queue client input s.clients)
      | none ↦ run_command run w sock input argv s
    ]

unfoldable pub execute_tokens : Executor → Worlds → ℕ → Bytes → Option (List Bytes) → Server → Ran
execute_tokens run w sock input none s = failed sock (reply_error (codes "err empty command")) s
execute_tokens run w sock input (some []) s =
    failed sock (reply_error (codes "err empty command")) s
execute_tokens run w sock input (some (name ∷ args)) s =
    execute_words run w sock input (map tolower name ∷ args) s

unfoldable pub execute_with : Executor → Executor
execute_with run w sock input s =
    if (w []).input_copied
    then execute_tokens run w sock input (tokenize_command (w []).tokens input) s
    else failed sock (reply_error (codes "err out of memory")) s

-- Without fuel nothing is run.
unfoldable pub execute_command : ℕ → Executor
execute_command zero w sock input s = record { result = cmd_unknown; server = s; sent = [] }
execute_command (suc depth) w sock input s = execute_with (execute_command depth) w sock input s
