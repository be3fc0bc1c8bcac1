-- ===== src/Commands/Queueing.antt =====
-- Queueing the commands of a client in a transaction.
use crimson_cache.Base.{
  ℕ, ◌≡◌, refl, ap, ◌∙◌, Bool, true, false, [], ◌∷◌, ◌++◌, some, arith, ◌==◌, if◌then◌else◌, inl,
  inr, subst, Bool-cases,
}
use crimson_cache.CString.{Bytes}
use crimson_cache.Transaction.{Client, QueueMemory, tx_queue_command}
use crimson_cache.Transaction.Queue
use crimson_cache.Transaction.Queue.{can_queue, tx_queue_command_lem}
use crimson_cache.Server.{Slots, get_client_by_socket, put_client}
use crimson_cache.Server.Clients
use crimson_cache.Server.Clients.{put_client_lem, found-socket}
use crimson_cache.Commands.Transactions.{queue_input}

put_at :
    (socket : ℕ) (slots : Slots) (v : Clients.IsValid slots) (c new : Client)
    → new.socket ≡ socket
    → get_client_by_socket socket slots ≡ some c
    → (q : ℕ)
    → get_client_by_socket q (put_client new slots)
      ≡ (if socket == q then some new else get_client_by_socket q slots)
put_at socket slots v c new home e q =
    subst
      (λ (n : ℕ).
        get_client_by_socket q (put_client new slots)
        ≡ (if n == q then some new else get_client_by_socket q slots))
      home
      ((put_client_lem new c slots v (ap (λ (n : ℕ). get_client_by_socket n slots) home ∙ e)).1 q)

pub queue_input_done :
    (mem : QueueMemory) (client : Client) (input : Bytes) (slots : Slots)
    → (tx_queue_command mem client input).0 ≡ true
    → (queue_input mem client input slots).clients
      ≡ put_client (tx_queue_command mem client input).1 slots
unfolding queue_input
queue_input_done mem client input slots e = rw e

pub queue_input_failed :
    (mem : QueueMemory) (client : Client) (input : Bytes) (slots : Slots)
    → (tx_queue_command mem client input).0 ≡ false
    → (queue_input mem client input slots).clients
      ≡ put_client
          (record (tx_queue_command mem client input).1 { transaction_errors = true })
          slots
unfolding queue_input
queue_input_failed mem client input slots e = rw e

-- What a client in a transaction is after a command was to be queued.
pub record Queued (room : Bool) (input : Bytes) (before after : Client) : Type 0 where
  pub valid : Queue.IsValid after
  pub active : after.in_transaction ≡ true
  pub commands :
      after.queued_commands
      ≡ (if room then before.queued_commands ++ input ∷ [] else before.queued_commands)
  pub errors : after.transaction_errors ≡ (if room then before.transaction_errors else true)

-- A command of a client in a transaction is appended to its queue if memory is granted, and else
-- the transaction is marked as failed; either way the client stays in it, and no other client changes.
pub queue_input_lem :
    (mem : QueueMemory) (client : Client) (input : Bytes) (slots : Slots)
    → Clients.IsValid slots
    → Queue.IsValid client
    → client.in_transaction ≡ true
    → get_client_by_socket client.socket slots ≡ some client
    → (after : Client) × Queued (can_queue mem client) input client after
      × ((q : ℕ)
          → get_client_by_socket q (queue_input mem client input slots).clients
            ≡ (if client.socket == q then some after else get_client_by_socket q slots))
queue_input_lem mem client input slots v w active e =
    let (done, commands, valid, still, errors, socket) =
      tx_queue_command_lem mem client input w active in
    let client' = (tx_queue_command mem client input).1 in
    elim (Bool-cases (tx_queue_command mem client input).0) [
      | inl went ↦
          let room : can_queue mem client ≡ true = ground arith in
          (
            client',
            record { valid = valid; active = still; commands = commands; errors = rw room errors },
            λ q.
                rw (queue_input_done mem client input slots went)
                  (put_at client.socket slots v client client' socket e q),
          )
      | inr failed ↦
          let none_left : can_queue mem client ≡ false = ground arith in
          let marked = record client' { transaction_errors = true } in
          (
            marked,
            record {
              valid = record {
                fits = valid.fits;
                idle_queue = valid.idle_queue;
                idle_errors = λ h. ground (arith, still);
              };
              active = still;
              commands = commands;
              errors = rw none_left refl;
            },
            λ q.
                rw (queue_input_failed mem client input slots failed)
                  (put_at client.socket slots v client marked socket e q),
          )
    ]
