-- ===== src/Commands/Transactions.antt =====
-- MULTI and DISCARD of src/commands.c, and the branch of `execute_command` that queues a command.
use crimson_cache.Base.{ℕ, true, false, not, ◌++◌, none, some, if◌then◌else◌}
use crimson_cache.CString.{Bytes, codes}
use crimson_cache.Reply.{reply_string, reply_error}
use crimson_cache.Transaction.{Client, QueueMemory, tx_queue_command, tx_discard_commands}
use crimson_cache.Server.{Slots, get_client_by_socket, put_client}
use crimson_cache.Commands.Keyspace.{CmdResult, cmd_ok, cmd_err}

-- What a handler leaves: its result, the clients, and what the socket is written.
pub record Handled : Type 0 where
  pub result : CmdResult
  pub clients : Slots
  pub written : Bytes

abbrev pub refuse : Slots → Bytes → Handled
refuse slots message = record { result = cmd_err; clients = slots; written = reply_error message }

unfoldable pub multi_command : ℕ → Slots → Handled
unfolding get_client_by_socket put_client reply_error reply_string
multi_command socket slots = elim (get_client_by_socket socket slots) [
  | none ↦ refuse slots (codes "ERR client not found")
  | some client ↦
      if client.in_transaction
      then refuse slots (codes "ERR MULTI calls can not be nested")
      else record {
        result = cmd_ok;
        clients =
            put_client (record client { in_transaction = true; transaction_errors = false }) slots;
        written = reply_string (codes "OK");
      }
]

-- `tx_discard_commands` answers, and then the handler.
unfoldable pub discard_command : ℕ → Slots → Handled
unfolding get_client_by_socket put_client reply_error reply_string tx_discard_commands
discard_command socket slots = elim (get_client_by_socket socket slots) [
  | none ↦ refuse slots (codes "ERR client not found")
  | some client ↦
      if not client.in_transaction
      then refuse slots (codes "ERR DISCARD without MULTI")
      else (let (client', answer) = tx_discard_commands client in
          record {
            result = cmd_ok;
            clients = put_client client' slots;
            written = answer ++ reply_string (codes "OK");
          })
]

-- The branch of `execute_command` for a client in a transaction, after `tokenize_command`, where the
-- word is none of MULTI, EXEC and DISCARD.
unfoldable pub queue_input : QueueMemory → Client → Bytes → Slots → Handled
unfolding tx_queue_command put_client reply_string reply_error
queue_input mem client input slots =
    let (done, client') = tx_queue_command mem client input in
    if done
    then record {
      result = cmd_ok;
      clients = put_client client' slots;
      written = reply_string (codes "QUEUED");
    }
    else record {
      result = cmd_ok;
      clients = put_client (record client' { transaction_errors = true }) slots;
      written = reply_error (codes "err queue command failed");
    }
