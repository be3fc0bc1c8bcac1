-- ===== src/PubSub/Kept.antt =====
-- SUBSCRIBE and UNSUBSCRIBE, for all the names that they are given, keep the channels well formed and
-- subscribe nobody but their client.
use crimson_cache.Base.{
  ℕ, ◌≡◌, ◌⊎◌, inl, inr, Bool, true, false, List, [], ◌∷◌, ==_iff, arith, length, if_either,
}
use crimson_cache.CString.{Bytes}
use crimson_cache.PubSub.{
  Channel, SubMemory, PubSubResult, pubsub_remove_client, subscribe_all, pubsub_subscribe_client,
  unsubscribe_each, pubsub_unsubscribe_client,
}
use crimson_cache.PubSub.Channels.{IsValid, subscribed}
use crimson_cache.PubSub.Subscribers.{
  Changes, subscribe_to_channel_lem, unsubscribe_from_channel_lem,
}
use crimson_cache.PubSub.Disconnect.{pubsub_remove_client_lem}
use crimson_cache.PubSub.Delivery.{unsubscribe_from_all-channels}

-- The channels `cs'` are well formed, and who is subscribed in them was so in `cs`, but for the client.
pub record Concerns (client : ℕ) (cs cs' : List Channel) : Type 0 where
  pub valid : IsValid cs'
  pub others :
      (q : ℕ) (n : Bytes) → subscribed q n cs' ≡ true → (client ≡ q) ⊎ (subscribed q n cs ≡ true)

nothing_new : (client : ℕ) (cs : List Channel) → IsValid cs → Concerns client cs cs
nothing_new client cs v = record { valid = v; others = λ q n h. inr h }

-- One step, and what follows it.
follows :
    (client : ℕ) (cs cs' cs'' : List Channel) (name : Bytes) (value : Bool)
    → Changes cs cs' client name value
    → Concerns client cs' cs''
    → Concerns client cs cs''
follows client cs cs' cs'' name value c rest = record {
  valid = rest.valid;
  others = λ q n h. elim (rest.others q n h) [
    | inl same ↦ inl same
    | inr before ↦ ground (arith, c.reads q n, before, ==_iff client q)
  ];
}

subscribe_all-Concerns :
    (mem : ℕ → SubMemory) (client : ℕ) (names : List Bytes) (n : ℕ) (cs : List Channel)
    → IsValid cs
    → Concerns client cs (subscribe_all mem client names n cs).channels
unfolding subscribe_all
subscribe_all-Concerns mem client [] n cs v = nothing_new client cs v
subscribe_all-Concerns mem client (name ∷ names) n cs v =
    let changes = (subscribe_to_channel_lem client name (mem (length names)) v).1 in
    follows client cs _ _ name _ changes (subscribe_all-Concerns mem client names _ _ changes.valid)

unsubscribe_each-Concerns :
    (client : ℕ) (names : List Bytes) (n : ℕ) (cs : List Channel)
    → IsValid cs
    → Concerns client cs (unsubscribe_each client names n cs).channels
unfolding unsubscribe_each
unsubscribe_each-Concerns client [] n cs v = nothing_new client cs v
unsubscribe_each-Concerns client (name ∷ names) n cs v =
    let changes = (unsubscribe_from_channel_lem client name v).1 in
    let rest =
      follows client cs _ _ name false changes
        (unsubscribe_each-Concerns client names _ _ changes.valid) in
    if_either (λ (r : PubSubResult). Concerns client cs r.channels) _ rest rest

pub pubsub_subscribe_client-Concerns :
    (mem : ℕ → SubMemory) (client : ℕ) (argv : List Bytes) (cs : List Channel)
    → IsValid cs
    → Concerns client cs (pubsub_subscribe_client mem client argv cs).channels
unfolding pubsub_subscribe_client
pubsub_subscribe_client-Concerns mem client [] cs v = nothing_new client cs v
pubsub_subscribe_client-Concerns mem client (cmd ∷ []) cs v = nothing_new client cs v
pubsub_subscribe_client-Concerns mem client (cmd ∷ name ∷ names) cs v =
    subscribe_all-Concerns mem client (name ∷ names) 0 cs v

removed-Concerns :
    (client : ℕ) (cs : List Channel)
    → IsValid cs
    → Concerns client cs (pubsub_remove_client client cs)
removed-Concerns client cs v =
    let (valid, reads) = pubsub_remove_client_lem client cs v in
    record { valid = valid; others = λ q n h. inr (ground (arith, reads q n)) }

pub pubsub_unsubscribe_client-Concerns :
    (client : ℕ) (argv : List Bytes) (cs : List Channel)
    → IsValid cs
    → Concerns client cs (pubsub_unsubscribe_client client argv cs).channels
unfolding pubsub_unsubscribe_client
pubsub_unsubscribe_client-Concerns client [] cs v = unsubscribe_each-Concerns client [] 0 cs v
pubsub_unsubscribe_client-Concerns client (cmd ∷ []) cs v =
    rw (unsubscribe_from_all-channels client cs) (removed-Concerns client cs v)
pubsub_unsubscribe_client-Concerns client (cmd ∷ name ∷ names) cs v =
    unsubscribe_each-Concerns client (name ∷ names) 0 cs v
