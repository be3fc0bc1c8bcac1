-- ===== src/PubSub/Subscribers.antt =====
-- Subscribing and unsubscribing change one pair of a client and a name.
use crimson_cache.Base.{
  ℕ, ◌≡◌, refl, ◌∙◌, Bool, true, false, ◌&&◌, ◌||◌, List, [], ◌∷◌, Option, none, some, arith, ◌==◌,
  if◌then◌else◌, inl, inr, Bool-cases, Option-cases,
}
use crimson_cache.CString.{Bytes, str_eq, str_eq_iff, str_eq_self}
use crimson_cache.PubSub.{
  Channel, SubMemory, find_channel, is_subscribed, set_subscribers, add_subscriber,
  subscribe_to_channel, remove_node, unsubscribe_from_channel,
}
use crimson_cache.PubSub.Channels.{
  subscribed, occurrences, Once, IsValid, find_channel-Once, find-set_subscribers,
  set_subscribers-Once, is_subscribed-occurrences, is_subscribed-remove, remove_node-Once,
}

-- The channels `cs'` are valid, and have the subscriptions of `cs` but for the client and the name,
-- where they have `value`.
pub record Changes (cs cs' : List Channel) (client : ℕ) (name : Bytes) (value : Bool) : Type 0 where
  pub valid : IsValid cs'
  pub reads :
      (q : ℕ) (n : Bytes)
      → subscribed q n cs' ≡ (if client == q && str_eq name n then value else subscribed q n cs)

module _ (client : ℕ) (name : Bytes) {cs : List Channel} (v : IsValid cs) where
  unchanged : (value : Bool) → subscribed client name cs ≡ value → Changes cs cs client name value
  unchanged value e = record { valid = v; reads = λ q n. ground (arith, str_eq_iff name n) }

  set_lem :
      (c : Channel) (subs : List ℕ) (value : Bool)
      → find_channel name cs ≡ some c
      → Once subs
      → ((q : ℕ)
          → is_subscribed q subs ≡ (if client == q then value else is_subscribed q c.subscribers))
      → Changes cs (set_subscribers name subs cs) client name value
  unfolding subscribed
  set_lem c subs value e once reads = record {
    valid = record { once = set_subscribers-Once name subs cs once v.once };
    reads =
        λ q n. ground (arith, find-set_subscribers name n subs cs c e, reads q, str_eq_iff name n);
  }

  unsubscribe_absent :
      find_channel name cs ≡ none → unsubscribe_from_channel client name cs ≡ (false, cs)
  unfolding unsubscribe_from_channel
  unsubscribe_absent e = rw (e, unsubscribe_from_channel)

  unsubscribe_found :
      (c : Channel)
      → find_channel name cs ≡ some c
      → unsubscribe_from_channel client name cs ≡ (
          if is_subscribed client c.subscribers
          then (true, set_subscribers name (remove_node client c.subscribers) cs)
          else (false, cs))
  unfolding unsubscribe_from_channel
  unsubscribe_found c e = rw (e, unsubscribe_from_channel)

  subscribed_at :
      (c : Channel)
      → find_channel name cs ≡ some c
      → subscribed client name cs ≡ is_subscribed client c.subscribers
  unfolding subscribed
  subscribed_at c e = rw e

  subscribed_nowhere : find_channel name cs ≡ none → subscribed client name cs ≡ false
  unfolding subscribed
  subscribed_nowhere e = rw e

  -- `unsubscribe_from_channel` says whether the client was subscribed to the name; afterwards it is
  -- not, and no other subscription has changed.
  pub unsubscribe_from_channel_lem :
      ((unsubscribe_from_channel client name cs).0 ≡ subscribed client name cs)
      × Changes cs (unsubscribe_from_channel client name cs).1 client name false
  unsubscribe_from_channel_lem = elim (Option-cases (find_channel name cs)) [
    | inl e ↦
        rw (unsubscribe_absent e, subscribed_nowhere e)
          (refl, unchanged false (subscribed_nowhere e))
    | inr (c, e) ↦ elim (Bool-cases (is_subscribed client c.subscribers)) [
      | inr out ↦
          rw (unsubscribe_found c e, subscribed_at c e, out)
            (refl, unchanged false (subscribed_at c e ∙ out))
      | inl here ↦
          let once = find_channel-Once name cs c v.once e in
          rw (unsubscribe_found c e, subscribed_at c e, here)
            (
              refl,
              set_lem c (remove_node client c.subscribers) false e
                  (remove_node-Once client c.subscribers once)
                  (λ q. ground (arith, is_subscribed-remove client q c.subscribers once)),
            )
    ]
  ]

  no_channel :
      (mem : SubMemory)
      → find_channel name cs ≡ none
      → subscribe_to_channel mem client name cs ≡ (
          if mem.channel_granted && mem.name_granted
          then add_subscriber mem client name (record { name = name; subscribers = [] } ∷ cs)
          else (false, cs))
  unfolding subscribe_to_channel
  no_channel mem e = ground arith

  a_channel :
      (mem : SubMemory) (c : Channel)
      → find_channel name cs ≡ some c
      → subscribe_to_channel mem client name cs ≡ add_subscriber mem client name cs
  unfolding subscribe_to_channel
  a_channel mem c e = rw (e, subscribe_to_channel)

  add_found :
      (mem : SubMemory) (c : Channel)
      → find_channel name cs ≡ some c
      → add_subscriber mem client name cs ≡ (
          if is_subscribed client c.subscribers
          then (true, cs)
          else if mem.node_granted
          then (true, set_subscribers name (client ∷ c.subscribers) cs)
          else (false, cs))
  unfolding add_subscriber
  add_found mem c e = rw (e, add_subscriber)

  is_subscribed-cons :
      (q : ℕ) (subs : List ℕ)
      → is_subscribed q (client ∷ subs) ≡ (if client == q then true else is_subscribed q subs)
  unfolding is_subscribed
  is_subscribed-cons q subs = ground arith

  Once-cons : (subs : List ℕ) → Once subs → is_subscribed client subs ≡ false → Once (client ∷ subs)
  unfolding occurrences
  Once-cons subs h out q = ground (arith, h q, is_subscribed-occurrences q subs)

  -- Where the channel is there.
  add_subscriber_lem :
      (mem : SubMemory) (c : Channel)
      → find_channel name cs ≡ some c
      → ((add_subscriber mem client name cs).0 ≡ subscribed client name cs || mem.node_granted)
        × Changes cs
            (add_subscriber mem client name cs).1
            client
            name
            (add_subscriber mem client name cs).0
  add_subscriber_lem mem c e =
      let was = subscribed_at c e in
      elim (Bool-cases (is_subscribed client c.subscribers)) [
        | inl here ↦ rw (add_found mem c e, was, here) (refl, unchanged true (was ∙ here))
        | inr out ↦ elim (Bool-cases mem.node_granted) [
          | inl room ↦
              rw (add_found mem c e, was, out, room)
                (
                  refl,
                  set_lem c (client ∷ c.subscribers) true e
                      (Once-cons c.subscribers (find_channel-Once name cs c v.once e) out)
                      (λ q. is_subscribed-cons q c.subscribers),
                )
          | inr full ↦ rw (add_found mem c e, was, out, full) (refl, unchanged false (was ∙ out))
        ]
      ]

-- What a subscription needs: nothing if it is there, else the memory for what is missing.
abbrev room_for : SubMemory → Bool → Option Channel → Bool
room_for mem was none = mem.channel_granted && mem.name_granted && mem.node_granted
room_for mem was (some c) = was || mem.node_granted

abbrev pub can_subscribe : SubMemory → ℕ → Bytes → List Channel → Bool
can_subscribe mem client name cs = room_for mem (subscribed client name cs) (find_channel name cs)

module _ (client : ℕ) (name : Bytes) (mem : SubMemory) {cs : List Channel} (v : IsValid cs) where
  abbrev fresh : List Channel
  fresh = record { name = name; subscribers = [] } ∷ cs

  fresh-IsValid : IsValid fresh
  unfolding occurrences
  fresh-IsValid = record { once = (λ q. omega arith, v.once) }

  fresh_found : find_channel name fresh ≡ some (record { name = name; subscribers = [] })
  unfolding find_channel
  fresh_found = rw (str_eq_self name)

  subscribed-fresh :
      find_channel name cs ≡ none → (q : ℕ) (n : Bytes) → subscribed q n fresh ≡ subscribed q n cs
  unfolding subscribed find_channel is_subscribed
  subscribed-fresh e q n = ground (arith, str_eq_iff name n)

  -- `subscribe_to_channel` succeeds if the client is subscribed or memory is granted for what is
  -- missing. Afterwards the client is subscribed to the name just if it succeeded, no other
  -- subscription has changed, and no client stands twice in a channel.
  pub subscribe_to_channel_lem :
      ((subscribe_to_channel mem client name cs).0 ≡ can_subscribe mem client name cs)
      × Changes cs
          (subscribe_to_channel mem client name cs).1
          client
          name
          (subscribe_to_channel mem client name cs).0
  subscribe_to_channel_lem = elim (Option-cases (find_channel name cs)) [
    | inr (c, e) ↦
        rw (a_channel client name v mem c e, e) (add_subscriber_lem client name v mem c e)
    | inl e ↦ elim (Bool-cases (mem.channel_granted && mem.name_granted)) [
      | inr full ↦
          rw (no_channel client name v mem e, e, full)
            (ground arith, unchanged client name v false (subscribed_nowhere client name v e))
      | inl room ↦
          let nobody = subscribed-fresh e in
          let (answer, changes) = add_subscriber_lem client name fresh-IsValid mem _ fresh_found in
          rw (no_channel client name v mem e, e, room)
            (
              ground (arith, nobody client name, subscribed_nowhere client name v e),
              record {
                valid = changes.valid;
                reads = λ q n. ground (arith, changes.reads q n, nobody q n);
              },
            )
    ]
  ]
