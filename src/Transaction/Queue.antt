-- ===== src/Transaction/Queue.antt =====
-- The queue of a transaction stays within its capacity, and keeps what was queued, in order.
use crimson_cache.Base.{
  ℕ, ◌≤◌, ◌≡◌, refl, Bool, true, false, not, ◌&&◌, ◌||◌, [], ◌∷◌, ◌++◌, arith, leb, if◌then◌else◌,
  length, length-append,
}
use crimson_cache.CString.{Bytes}
use crimson_cache.Transaction.{Client, QueueMemory, tx_init, tx_cleanup, tx_queue_command}

-- The queue fits its array; outside a transaction nothing is queued and no error is noted.
pub record IsValid (client : Client) : Type 0 where
  pub fits : length client.queued_commands ≤ client.queue_capacity
  pub idle_queue : client.in_transaction ≡ false → client.queued_commands ≡ []
  pub idle_errors : client.in_transaction ≡ false → client.transaction_errors ≡ false

pub tx_init-IsValid : (socket : ℕ) → IsValid (tx_init socket)
unfolding tx_init
tx_init-IsValid socket = record {
  fits = omega arith;
  idle_queue = λ h. refl;
  idle_errors = λ h. refl;
}

pub tx_cleanup-IsValid : (client : Client) → IsValid (tx_cleanup client)
unfolding tx_cleanup
tx_cleanup-IsValid client = record {
  fits = omega arith;
  idle_queue = λ h. refl;
  idle_errors = λ h. refl;
}

-- Whether a command can be queued: an array that is full must grow, and the command is copied.
abbrev pub can_queue : QueueMemory → Client → Bool
can_queue mem client =
    (not (leb client.queue_capacity (length client.queued_commands)) || mem.queue_granted)
    && mem.copy_granted

-- In a transaction `tx_queue_command` appends the command if memory is granted and else keeps the
-- queue; the queue stays within the array, and the rest of the client is as before.
pub tx_queue_command_lem :
    (mem : QueueMemory) (client : Client) (cmd : Bytes)
    → IsValid client
    → client.in_transaction ≡ true
    → ((tx_queue_command mem client cmd).0 ≡ can_queue mem client)
      × ((tx_queue_command mem client cmd).1.queued_commands ≡ (
          if can_queue mem client
          then client.queued_commands ++ cmd ∷ []
          else client.queued_commands))
      × IsValid (tx_queue_command mem client cmd).1
      × ((tx_queue_command mem client cmd).1.in_transaction ≡ true)
      × ((tx_queue_command mem client cmd).1.transaction_errors ≡ client.transaction_errors)
      × ((tx_queue_command mem client cmd).1.socket ≡ client.socket)
unfolding tx_queue_command
tx_queue_command_lem mem client cmd v active = (
  ground arith,
  ground arith,
  record {
    fits = ground (arith, length-append client.queued_commands (cmd ∷ []), v.fits);
    idle_queue = λ h. ground arith;
    idle_errors = λ h. ground arith;
  },
  ground arith,
  ground arith,
  ground arith,
)
