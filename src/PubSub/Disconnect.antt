-- ===== src/PubSub/Disconnect.antt =====
-- A client leaves all of its channels: on a disconnect, or by UNSUBSCRIBE without names.
use crimson_cache.Base.{
  ℕ, ◌≡◌, refl, false, not, ◌&&◌, List, [], ◌∷◌, arith, ◌==◌, All, inl, inr, Bool-cases,
}
use crimson_cache.CString.{Bytes}
use crimson_cache.PubSub.{
  Channel, find_channel, is_subscribed, remove_node, pubsub_remove_client, unsubscribe_everywhere,
}
use crimson_cache.PubSub.Channels.{
  subscribed, Once, IsValid, is_subscribed-remove, remove_node-Once,
}

remove_node_absent :
    (client : ℕ) (ss : List ℕ) → is_subscribed client ss ≡ false → remove_node client ss ≡ ss
unfolding remove_node is_subscribed
remove_node_absent client [] h = refl
remove_node_absent client (s ∷ ss) h = ground (arith, remove_node_absent client ss)

remove_client-Once :
    (client : ℕ) (cs : List Channel)
    → All (λ c. Once c.subscribers) cs
    → All (λ c. Once c.subscribers) (pubsub_remove_client client cs)
unfolding pubsub_remove_client
remove_client-Once client [] a = tt
remove_client-Once client (c ∷ cs) (h, a) =
    (remove_node-Once client c.subscribers h, remove_client-Once client cs a)

subscribed-remove_client :
    (client q : ℕ) (n : Bytes) (cs : List Channel)
    → All (λ c. Once c.subscribers) cs
    → subscribed q n (pubsub_remove_client client cs) ≡ (not (client == q) && subscribed q n cs)
unfolding pubsub_remove_client subscribed find_channel
subscribed-remove_client client q n [] a = unfold is_subscribed in ground arith
subscribed-remove_client client q n (c ∷ cs) (h, a) =
    ground (
      arith,
      is_subscribed-remove client q c.subscribers h,
      subscribed-remove_client client q n cs a,
    )

-- `pubsub_remove_client` takes the client out of every channel, and nobody else out of any.
pub pubsub_remove_client_lem :
    (client : ℕ) (cs : List Channel)
    → IsValid cs
    → IsValid (pubsub_remove_client client cs)
      × ((q : ℕ) (n : Bytes)
          → subscribed q n (pubsub_remove_client client cs)
            ≡ (not (client == q) && subscribed q n cs))
pubsub_remove_client_lem client cs v = (
  record { once = remove_client-Once client cs v.once },
  λ q n. subscribed-remove_client client q n cs v.once,
)

-- UNSUBSCRIBE with no names leaves the channels as a disconnect does.
pub unsubscribe_everywhere-channels :
    (client : ℕ) (cs : List Channel)
    → (unsubscribe_everywhere client cs).channels ≡ pubsub_remove_client client cs
unfolding unsubscribe_everywhere pubsub_remove_client remove_node is_subscribed
unsubscribe_everywhere-channels client [] = refl
unsubscribe_everywhere-channels client (c ∷ cs) =
    elim (Bool-cases (is_subscribed client c.subscribers)) [
      | inl here ↦ rw (here, unsubscribe_everywhere-channels client cs)
      | inr out ↦ rw (
        out,
        unsubscribe_everywhere-channels client cs,
        remove_node_absent client c.subscribers out,
      )
    ]
