-- ===== src/Tests/Clients.antt =====
-- Subscribers of a channel, and the queue of a client.
use crimson_cache.Base.{
  map, ℕ, ◌≡◌, refl, true, false, not, ◌&&◌, List, [], ◌∷◌, arith, if◌then◌else◌, ◌==◌, length,
}
use crimson_cache.Number.{print_nat, digits}
use crimson_cache.CString.{Bytes, codes}
use crimson_cache.PubSub.{
  Channel, SubMemory, subscribe_to_channel, unsubscribe_from_channel, pubsub_remove_client,
  pubsub_publish_message, unsubscribe_from_all, is_subscribed,
}
use crimson_cache.PubSub.Channels
use crimson_cache.PubSub.Channels.{subscribed, occurrences}
use crimson_cache.PubSub.Subscribers.{
  Changes, can_subscribe, subscribe_to_channel_lem, unsubscribe_from_channel_lem,
}
use crimson_cache.PubSub.Disconnect.{pubsub_remove_client_lem}
use crimson_cache.PubSub.Delivery.{
  writes_to, OnlyWrites, joined, message_text, confirmation_text, pubsub_publish_message_lem,
  unsubscribe_from_all_lem,
}
use crimson_cache.Transaction.{Client, QueueMemory, tx_queue_command}
use crimson_cache.Transaction.Queue
use crimson_cache.Transaction.Queue.{can_queue, tx_queue_command_lem}

-- One channel with the clients 5 and 4.
abbrev news : List Channel
news = record { name = codes "news"; subscribers = 5 ∷ 4 ∷ [] } ∷ []

news-IsValid : Channels.IsValid news
unfolding occurrences
news-IsValid = record { once = ((λ q. ground arith), tt) }

abbrev node_given : SubMemory
node_given = record { channel_granted = true; name_granted = true; node_granted = true }

subscribe_to_channel_lem_example :
    ((subscribe_to_channel node_given 6 (codes "news") news).0
      ≡ can_subscribe node_given 6 (codes "news") news)
    × Changes news
        (subscribe_to_channel node_given 6 (codes "news") news).1
        6
        (codes "news")
        (subscribe_to_channel node_given 6 (codes "news") news).0
subscribe_to_channel_lem_example = subscribe_to_channel_lem 6 (codes "news") node_given news-IsValid

unsubscribe_from_channel_lem_example :
    ((unsubscribe_from_channel 5 (codes "news") news).0 ≡ subscribed 5 (codes "news") news)
    × Changes news (unsubscribe_from_channel 5 (codes "news") news).1 5 (codes "news") false
unsubscribe_from_channel_lem_example = unsubscribe_from_channel_lem 5 (codes "news") news-IsValid

pubsub_remove_client_lem_example :
    Channels.IsValid (pubsub_remove_client 5 news)
    × ((q : ℕ) (n : Bytes)
        → subscribed q n (pubsub_remove_client 5 news) ≡ (not (5 == q) && subscribed q n news))
pubsub_remove_client_lem_example = pubsub_remove_client_lem 5 news news-IsValid

pubsub_publish_message_lem_example :
    ((q : ℕ)
      → writes_to q (pubsub_publish_message (codes "news") (codes "hi") news).0
        ≡ (if subscribed q (codes "news") news then 1 else 0))
    × OnlyWrites
        (message_text (codes "news") (codes "hi"))
        (pubsub_publish_message (codes "news") (codes "hi") news).0
    × ((pubsub_publish_message (codes "news") (codes "hi") news).1
        ≡ length (pubsub_publish_message (codes "news") (codes "hi") news).0)
pubsub_publish_message_lem_example =
    pubsub_publish_message_lem (codes "news") (codes "hi") news news-IsValid
      (unfold print_nat digits in omega arith)

unsubscribe_from_all_lem_example :
    ((unsubscribe_from_all 4 news).channels ≡ pubsub_remove_client 4 news)
    × ((unsubscribe_from_all 4 news).success_count ≡ length (joined 4 news))
    × ((unsubscribe_from_all 4 news).written ≡ (
        if length (joined 4 news) == 0
        then (4, codes "*3\r\n$11\r\nunsubscribe\r\n$-1\r\n:0\r\n") ∷ []
        else map (λ name. (4, confirmation_text name)) (joined 4 news)))
unsubscribe_from_all_lem_example =
    unsubscribe_from_all_lem 4 news
      (unfold joined is_subscribed print_nat digits in (omega arith, tt))

-- A client in a transaction, with nothing queued.
abbrev pub waiting : Client
waiting = record {
  socket = 4;
  in_transaction = true;
  transaction_errors = false;
  queued_commands = [];
  queue_capacity = 0;
}

pub waiting-IsValid : Queue.IsValid waiting
waiting-IsValid = record { fits = omega arith; idle_queue = λ h. refl; idle_errors = λ h. refl }

abbrev pub queue_given : QueueMemory
queue_given = record { queue_granted = true; copy_granted = true }

tx_queue_command_lem_example :
    ((tx_queue_command queue_given waiting (codes "get a")).0 ≡ true)
    × ((tx_queue_command queue_given waiting (codes "get a")).1.queued_commands
        ≡ codes "get a" ∷ [])
    × Queue.IsValid (tx_queue_command queue_given waiting (codes "get a")).1
    × ((tx_queue_command queue_given waiting (codes "get a")).1.in_transaction ≡ true)
    × ((tx_queue_command queue_given waiting (codes "get a")).1.transaction_errors ≡ false)
    × ((tx_queue_command queue_given waiting (codes "get a")).1.socket ≡ 4)
tx_queue_command_lem_example =
    tx_queue_command_lem queue_given waiting (codes "get a") waiting-IsValid refl
