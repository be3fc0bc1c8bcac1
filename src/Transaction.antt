-- ===== src/Transaction.antt =====
-- src/transaction.c and the client of src/crimsoncache.h: the queue of a MULTI block.
-- `tx_execute_commands` runs commands, and is not modelled.
pub mod Queue
use crimson_cache.Base.{
  ℕ, zero, suc, ◌+◌, ◌*◌, Bool, true, false, not, ◌&&◌, List, [], ◌∷◌, ◌++◌, leb, ◌==◌,
  if◌then◌else◌, length,
}
use crimson_cache.CString.{Bytes, codes}
use crimson_cache.Reply.{reply_string}

-- `client_t` without its network address and its receive buffer. The first `queue_size` slots of
-- `queued_commands` are the list, so `queue_size` is its length.
pub record Client : Type 0 where
  pub socket : ℕ
  pub in_transaction : Bool
  pub transaction_errors : Bool
  pub queued_commands : List Bytes
  pub queue_capacity : ℕ

unfoldable pub tx_init : ℕ → Client
tx_init socket = record {
  socket = socket;
  in_transaction = false;
  transaction_errors = false;
  queued_commands = [];
  queue_capacity = 0;
}

unfoldable pub tx_cleanup : Client → Client
tx_cleanup client = record client {
  in_transaction = false;
  transaction_errors = false;
  queued_commands = [];
  queue_capacity = 0;
}

-- What the allocations of one queued command give: the larger queue, the copy of the command.
pub record QueueMemory : Type 0 where
  pub queue_granted : Bool
  pub copy_granted : Bool

unfoldable pub expand : Client → Client
expand client =
    if leb client.queue_capacity (length client.queued_commands)
    then record client {
      queue_capacity = if client.queue_capacity == 0 then 10 else client.queue_capacity * 2;
    }
    else client

unfoldable pub tx_queue_command : QueueMemory → Client → Bytes → Bool × Client
unfolding expand
tx_queue_command mem client cmd =
    if leb client.queue_capacity (length client.queued_commands) && not mem.queue_granted
    then (false, client)
    else if mem.copy_granted
    then (true, record (expand client) { queued_commands = client.queued_commands ++ cmd ∷ [] })
    else (false, expand client)

-- The client, and what its socket is written.
unfoldable pub tx_discard_commands : Client → Client × Bytes
unfolding tx_cleanup reply_string
tx_discard_commands client = (tx_cleanup client, reply_string (codes "OK"))
