-- ===== src/PubSub.antt =====
-- src/pubsub.h, src/pubsub.c: channels and their subscribers. The operations run under one mutex,
-- so each is a step of its own. A client is its socket, by which the code finds it and writes to it.
pub mod Channels
pub mod Subscribers
pub mod Disconnect
pub mod Delivery
pub mod Kept
use crimson_cache.Base.{
  ℕ, zero, suc, ◌+◌, Bool, true, false, not, ◌&&◌, ◌||◌, List, [], ◌∷◌, ◌++◌, Option, none, some,
  ltb, ◌==◌, if◌then◌else◌, length,
}
use crimson_cache.CString.{Bytes, codes, str_eq}
use crimson_cache.Number.{ℤ, pos, print_nat, snprintf}
use crimson_cache.Reply.{crlf, reply_error}

-- `pubsub_channel_t`; lists take the place of the `next` pointers.
pub record Channel : Type 0 where
  pub name : Bytes
  pub subscribers : List ℕ

-- What a socket is written, in order.
abbrev pub Output : Type 0
Output = List (ℕ × Bytes)

-- What the allocations of one subscription give: the channel and its name, the node.
pub record SubMemory : Type 0 where
  pub channel_granted : Bool
  pub name_granted : Bool
  pub node_granted : Bool

unfoldable pub find_channel : Bytes → List Channel → Option Channel
find_channel name [] = none
find_channel name (c ∷ cs) = if str_eq c.name name then some c else find_channel name cs

-- The channels, with the wanted one among them; `none` where memory fails.
unfoldable pub find_or_create_channel : SubMemory → Bytes → List Channel → Option (List Channel)
unfolding find_channel
find_or_create_channel mem name cs = elim (find_channel name cs) [
  | some c ↦ some cs
  | none ↦
      if mem.channel_granted && mem.name_granted
      then some (record { name = name; subscribers = [] } ∷ cs)
      else none
]

unfoldable pub is_subscribed : ℕ → List ℕ → Bool
is_subscribed client [] = false
is_subscribed client (s ∷ ss) = s == client || is_subscribed client ss

-- The first channel of a name with other subscribers.
unfoldable pub set_subscribers : Bytes → List ℕ → List Channel → List Channel
set_subscribers name subs [] = []
set_subscribers name subs (c ∷ cs) =
    if str_eq c.name name
    then record c { subscribers = subs } ∷ cs
    else c ∷ set_subscribers name subs cs

-- `subscribe_to_channel` on the channels with the wanted one among them.
unfoldable pub add_subscriber : SubMemory → ℕ → Bytes → List Channel → Bool × List Channel
unfolding find_channel is_subscribed set_subscribers
add_subscriber mem client name cs = elim (find_channel name cs) [
  | none ↦ (false, cs)
  | some c ↦
      if is_subscribed client c.subscribers
      then (true, cs)
      else if mem.node_granted
      then (true, set_subscribers name (client ∷ c.subscribers) cs)
      else (false, cs)
]

unfoldable pub subscribe_to_channel : SubMemory → ℕ → Bytes → List Channel → Bool × List Channel
unfolding find_or_create_channel add_subscriber
subscribe_to_channel mem client name cs = elim (find_or_create_channel mem name cs) [
  | none ↦ (false, cs)
  | some cs' ↦ add_subscriber mem client name cs'
]

-- The first node of a client is unlinked.
unfoldable pub remove_node : ℕ → List ℕ → List ℕ
remove_node client [] = []
remove_node client (s ∷ ss) = if s == client then ss else s ∷ remove_node client ss

unfoldable pub unsubscribe_from_channel : ℕ → Bytes → List Channel → Bool × List Channel
unfolding find_channel is_subscribed set_subscribers remove_node
unsubscribe_from_channel client name cs = elim (find_channel name cs) [
  | none ↦ (false, cs)
  | some c ↦
      if is_subscribed client c.subscribers
      then (true, set_subscribers name (remove_node client c.subscribers) cs)
      else (false, cs)
]

-- The confirmation for one channel, cut to its buffer of 256 bytes.
abbrev bulk : Bytes → Bytes
bulk s = b'$' ∷ print_nat (length s) ++ crlf ++ s ++ crlf

unfoldable pub confirmation : Bytes → Bytes → ℕ → Bytes
unfolding snprintf print_nat
confirmation kind name n =
    snprintf 256 (codes "*3" ++ crlf ++ bulk kind ++ bulk name ++ b':' ∷ print_nat n ++ crlf)

abbrev pub subscribe_reply : Bytes → ℕ → Bytes
subscribe_reply = confirmation (codes "subscribe")

abbrev pub unsubscribe_reply : Bytes → ℕ → Bytes
unsubscribe_reply = confirmation (codes "unsubscribe")

-- What an operation leaves: the channels, the writes, and the number that it returns.
pub record PubSubResult : Type 0 where
  pub channels : List Channel
  pub written : Output
  pub success_count : ℕ

-- The loop of `pubsub_subscribe_client` over its arguments, with the count so far.
unfoldable pub subscribe_all : (ℕ → SubMemory) → ℕ → List Bytes → ℕ → List Channel → PubSubResult
unfolding subscribe_to_channel confirmation reply_error
subscribe_all mem client [] n cs = record { channels = cs; written = []; success_count = n }
subscribe_all mem client (name ∷ names) n cs =
    let (done, cs') = subscribe_to_channel (mem (length names)) client name cs in
    let n' : ℕ = if done then n + 1 else n in
    let rest = subscribe_all mem client names n' cs' in
    record rest {
      written =
          (
            client,
            if done
                then subscribe_reply name n'
                else reply_error (codes "err failed to subscribe to channel"),
          )
          ∷ rest.written;
    }

-- `argc` is the length of `argv`, and `argv[0]` the command.
unfoldable pub pubsub_subscribe_client :
    (ℕ → SubMemory) → ℕ → List Bytes → List Channel → PubSubResult
unfolding subscribe_all
pubsub_subscribe_client mem client [] cs = record {
  channels = cs;
  written =
      (client, reply_error (codes "err wrong number of arguments for 'subscribe' command")) ∷ [];
  success_count = 0;
}
pubsub_subscribe_client mem client (cmd ∷ []) cs = record {
  channels = cs;
  written =
      (client, reply_error (codes "err wrong number of arguments for 'subscribe' command")) ∷ [];
  success_count = 0;
}
pubsub_subscribe_client mem client (cmd ∷ name ∷ names) cs =
    subscribe_all mem client (name ∷ names) 0 cs

-- Out of every channel, with a confirmation for each that had the client.
unfoldable pub unsubscribe_everywhere : ℕ → List Channel → PubSubResult
unfolding is_subscribed remove_node confirmation
unsubscribe_everywhere client [] = record { channels = []; written = []; success_count = 0 }
unsubscribe_everywhere client (c ∷ cs) =
    let rest = unsubscribe_everywhere client cs in
    if is_subscribed client c.subscribers
    then record {
      channels = record c { subscribers = remove_node client c.subscribers } ∷ rest.channels;
      written = (client, unsubscribe_reply c.name 0) ∷ rest.written;
      success_count = rest.success_count + 1;
    }
    else record rest { channels = c ∷ rest.channels }

unfoldable pub unsubscribe_each : ℕ → List Bytes → ℕ → List Channel → PubSubResult
unfolding unsubscribe_from_channel confirmation
unsubscribe_each client [] n cs = record { channels = cs; written = []; success_count = n }
unsubscribe_each client (name ∷ names) n cs =
    let (done, cs') = unsubscribe_from_channel client name cs in
    let rest = unsubscribe_each client names (if done then n + 1 else n) cs' in
    if done
    then record rest { written = (client, unsubscribe_reply name 0) ∷ rest.written }
    else rest

-- The reply where the client was subscribed to no channel.
unfoldable pub nothing_to_leave : Bytes
nothing_to_leave =
    codes "*3"
    ++ crlf
    ++ codes "$11"
    ++ crlf
    ++ codes "unsubscribe"
    ++ crlf
    ++ codes "$-1"
    ++ crlf
    ++ codes ":0"
    ++ crlf

unfoldable pub unsubscribe_from_all : ℕ → List Channel → PubSubResult
unfolding unsubscribe_everywhere
unsubscribe_from_all client cs =
    let r = unsubscribe_everywhere client cs in
    if r.success_count == 0 then record r { written = (client, nothing_to_leave) ∷ [] } else r

unfoldable pub pubsub_unsubscribe_client : ℕ → List Bytes → List Channel → PubSubResult
unfolding unsubscribe_from_all unsubscribe_each
pubsub_unsubscribe_client client (cmd ∷ []) cs = unsubscribe_from_all client cs
pubsub_unsubscribe_client client [] cs = unsubscribe_each client [] 0 cs
pubsub_unsubscribe_client client (cmd ∷ name ∷ names) cs =
    unsubscribe_each client (name ∷ names) 0 cs

-- One message, cut to its buffer of 1024 bytes.
unfoldable pub message_frame : Bytes → Bytes → Bytes
unfolding snprintf print_nat
message_frame name message =
    snprintf 1024 (codes "*3" ++ crlf ++ bulk (codes "message") ++ bulk name ++ bulk message)

unfoldable pub deliver : Bytes → List ℕ → Output
deliver frame [] = []
deliver frame (s ∷ ss) = (s, frame) ∷ deliver frame ss

-- The writes, and the number of receivers.
unfoldable pub pubsub_publish_message : Bytes → Bytes → List Channel → Output × ℕ
unfolding find_channel deliver message_frame
pubsub_publish_message name message cs = elim (find_channel name cs) [
  | none ↦ ([], 0)
  | some c ↦ (deliver (message_frame name message) c.subscribers, length c.subscribers)
]

-- On a disconnect: the first node of the client in every channel is unlinked.
unfoldable pub pubsub_remove_client : ℕ → List Channel → List Channel
unfolding remove_node
pubsub_remove_client client [] = []
pubsub_remove_client client (c ∷ cs) =
    record c { subscribers = remove_node client c.subscribers } ∷ pubsub_remove_client client cs
