-- ===== src/Tests/Sessions.antt =====
-- A list of three slots with one client.
use crimson_cache.Base.{
  ℕ, ◌≡◌, refl, true, false, [], ◌∷◌, ◌++◌, none, some, arith, if◌then◌else◌, ◌==◌,
}
use crimson_cache.CString.{codes}
use crimson_cache.Reply.{reply_string}
use crimson_cache.Transaction.{Client}
use crimson_cache.Transaction.Queue.{can_queue}
use crimson_cache.Server.{Slots, get_client_by_socket}
use crimson_cache.Server.Clients.{IsValid, with_socket}
use crimson_cache.Commands.Blocks.{
  Handles, begun, dropped, in_block, multi_command_lem, discard_command_lem,
}
use crimson_cache.Commands.Queueing.{Queued, queue_input_lem}
use crimson_cache.Commands.Transactions.{multi_command, discard_command, queue_input}
use crimson_cache.Tests.Clients.{waiting, waiting-IsValid, queue_given}

abbrev slots : Slots
slots = none ∷ some waiting ∷ none ∷ []

slots-IsValid : IsValid slots
unfolding with_socket
slots-IsValid = record { apart = λ q. ground arith }

multi_command_lem_example :
    Handles 4 slots
      (in_block false (get_client_by_socket 4 slots))
      (begun (get_client_by_socket 4 slots))
      (reply_string (codes "OK"))
      (multi_command 4 slots)
multi_command_lem_example = multi_command_lem 4 slots slots-IsValid

discard_command_lem_example :
    Handles 4 slots
      (in_block true (get_client_by_socket 4 slots))
      (dropped (get_client_by_socket 4 slots))
      (reply_string (codes "OK") ++ reply_string (codes "OK"))
      (discard_command 4 slots)
discard_command_lem_example = discard_command_lem 4 slots slots-IsValid

queue_input_lem_example :
    (after : Client) × Queued (can_queue queue_given waiting) (codes "get a") waiting after
    × ((q : ℕ)
        → get_client_by_socket q (queue_input queue_given waiting (codes "get a") slots).clients
          ≡ (if 4 == q then some after else get_client_by_socket q slots))
queue_input_lem_example =
    queue_input_lem queue_given waiting (codes "get a") slots slots-IsValid waiting-IsValid refl
      (unfold get_client_by_socket in refl)
