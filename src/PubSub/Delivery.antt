-- ===== src/PubSub/Delivery.antt =====
-- What PUBLISH sends, and what UNSUBSCRIBE confirms.
use crimson_cache.Base.{
  ◌≤◌, ◌++◌, take, take-all, subst, ℕ, suc, ◌+◌, ◌≡◌, refl, sym, map, ◌∙◌, ap, List, [], ◌∷◌, none,
  some, arith, ◌==◌, if◌then◌else◌, length, All, inl, inr, Bool-cases, Option-cases,
}
use crimson_cache.CString.{Bytes, codes}
use crimson_cache.Reply.{crlf}
use crimson_cache.Number.{print_nat, snprintf, digits}
use mathlib.Core.List.{append_assoc}
use crimson_cache.PubSub.{
  Channel, Output, find_channel, is_subscribed, deliver, message_frame, pubsub_publish_message,
  pubsub_remove_client, unsubscribe_everywhere, unsubscribe_from_all, unsubscribe_reply,
  confirmation, bulk, nothing_to_leave,
}
use crimson_cache.PubSub.Channels.{
  subscribed, occurrences, Once, IsValid, find_channel-Once, is_subscribed-occurrences,
}
use crimson_cache.PubSub.Disconnect.{unsubscribe_everywhere-channels}

-- How often a socket is written to, and that all that is written is one text.
unfoldable pub writes_to : ℕ → Output → ℕ
writes_to q [] = 0
writes_to q ((s, frame) ∷ out) = (if s == q then 1 else 0) + writes_to q out

abbrev pub OnlyWrites : Bytes → Output → Type 0
OnlyWrites frame out = All (λ (w : ℕ × Bytes). w.1 ≡ frame) out

writes_to-deliver :
    (q : ℕ) (frame : Bytes) (ss : List ℕ) → writes_to q (deliver frame ss) ≡ occurrences q ss
unfolding writes_to deliver occurrences
writes_to-deliver q frame [] = refl
writes_to-deliver q frame (s ∷ ss) = omega (arith, writes_to-deliver q frame ss)

OnlyWrites-deliver : (frame : Bytes) (ss : List ℕ) → OnlyWrites frame (deliver frame ss)
unfolding deliver
OnlyWrites-deliver frame [] = tt
OnlyWrites-deliver frame (s ∷ ss) = (refl, OnlyWrites-deliver frame ss)

length-deliver : (frame : Bytes) (ss : List ℕ) → length (deliver frame ss) ≡ length ss
unfolding deliver
length-deliver frame [] = refl
length-deliver frame (s ∷ ss) = ap suc (length-deliver frame ss)

publish_none :
    (name message : Bytes) (cs : List Channel)
    → find_channel name cs ≡ none
    → pubsub_publish_message name message cs ≡ ([], 0)
unfolding pubsub_publish_message
publish_none name message cs e = rw (e, pubsub_publish_message)

publish_some :
    (name message : Bytes) (cs : List Channel) (c : Channel)
    → find_channel name cs ≡ some c
    → pubsub_publish_message name message cs
      ≡ (deliver (message_frame name message) c.subscribers, length c.subscribers)
unfolding pubsub_publish_message
publish_some name message cs c e = rw (e, pubsub_publish_message)

as_bit : (q : ℕ) (ss : List ℕ) → Once ss → occurrences q ss ≡ (if is_subscribed q ss then 1 else 0)
as_bit q ss h = ground (arith, h q, is_subscribed-occurrences q ss)

-- A message on the wire.
abbrev pub message_text : Bytes → Bytes → Bytes
message_text name message =
    codes "*3\r\n$7\r\nmessage\r\n$"
    ++ (print_nat (length name)
        ++ (crlf
            ++ (name
                ++ (crlf ++ (b'$' ∷ (print_nat (length message) ++ (crlf ++ (message ++ crlf))))))))

message_frame-text :
    (name message : Bytes)
    → length (message_text name message) ≤ 1023
    → message_frame name message ≡ message_text name message
unfolding message_frame snprintf
message_frame-text name message h =
    let same : codes "*3" ++ crlf ++ bulk (codes "message") ++ bulk name ++ bulk message
        ≡ message_text name message =
      simp append_assoc in
    ap (take 1023) same ∙ take-all 1023 (message_text name message) h

-- PUBLISH of a message that fits the buffer for it writes the message, with the name of the channel
-- and both lengths, to each subscriber of the channel once, to nobody else, writes nothing else, and
-- returns the number of its writes.
pub pubsub_publish_message_lem :
    (name message : Bytes) (cs : List Channel)
    → IsValid cs
    → length (message_text name message) ≤ 1023
    → ((q : ℕ)
        → writes_to q (pubsub_publish_message name message cs).0
          ≡ (if subscribed q name cs then 1 else 0))
      × OnlyWrites (message_text name message) (pubsub_publish_message name message cs).0
      × ((pubsub_publish_message name message cs).1
          ≡ length (pubsub_publish_message name message cs).0)
pubsub_publish_message_lem name message cs v fits = elim (Option-cases (find_channel name cs)) [
  | inl e ↦
      rw (publish_none name message cs e)
        (λ q. unfold subscribed writes_to in rw e (unfold is_subscribed in refl), tt, refl)
  | inr (c, e) ↦
      let once = find_channel-Once name cs c v.once e in
      rw (publish_some name message cs c e) (
        λ q.
            unfold subscribed in
            rw e (writes_to-deliver q _ c.subscribers ∙ as_bit q c.subscribers once),
        subst (λ (f : Bytes). OnlyWrites f (deliver (message_frame name message) c.subscribers))
            (message_frame-text name message fits)
            (OnlyWrites-deliver (message_frame name message) c.subscribers),
        sym (length-deliver (message_frame name message) c.subscribers),
      )
]

-- The names of the channels that a client is in, in the order of the list.
unfoldable pub joined : ℕ → List Channel → List Bytes
joined client [] = []
joined client (c ∷ cs) =
    if is_subscribed client c.subscribers then c.name ∷ joined client cs else joined client cs

abbrev pub confirmations : ℕ → List Bytes → Output
confirmations client names = map (λ name. (client, unsubscribe_reply name 0)) names

unsubscribe_everywhere_lem :
    (client : ℕ) (cs : List Channel)
    → ((unsubscribe_everywhere client cs).written ≡ confirmations client (joined client cs))
      × ((unsubscribe_everywhere client cs).success_count ≡ length (joined client cs))
unfolding unsubscribe_everywhere joined
unsubscribe_everywhere_lem client [] = (refl, refl)
unsubscribe_everywhere_lem client (c ∷ cs) =
    let (sent, counted) = unsubscribe_everywhere_lem client cs in
    elim (Bool-cases (is_subscribed client c.subscribers)) [
      | inl here ↦ rw (here, sent, counted) (refl, omega arith)
      | inr out ↦ rw (out, sent, counted) (refl, refl)
    ]

-- A confirmation on the wire: it always counts 0 channels that are left.
abbrev pub confirmation_text : Bytes → Bytes
confirmation_text name =
    codes "*3\r\n$11\r\nunsubscribe\r\n$"
    ++ (print_nat (length name) ++ (crlf ++ (name ++ codes "\r\n:0\r\n")))

unsubscribe_reply-text :
    (name : Bytes)
    → length (confirmation_text name) ≤ 255
    → unsubscribe_reply name 0 ≡ confirmation_text name
unfolding confirmation snprintf print_nat digits
unsubscribe_reply-text name h =
    let same : codes "*3"
          ++ crlf
          ++ bulk (codes "unsubscribe")
          ++ bulk name
          ++ b':' ∷ print_nat 0
          ++ crlf
        ≡ confirmation_text name =
      simp append_assoc in
    ap (take 255) same ∙ take-all 255 (confirmation_text name) h

confirmations-texts :
    (client : ℕ) (names : List Bytes)
    → All (λ name. length (confirmation_text name) ≤ 255) names
    → confirmations client names ≡ map (λ name. (client, confirmation_text name)) names
confirmations-texts client [] a = refl
confirmations-texts client (name ∷ names) (h, a) =
    rw (unsubscribe_reply-text name h, confirmations-texts client names a) refl

-- The channels are left as a disconnect leaves them.
pub unsubscribe_from_all-channels :
    (client : ℕ) (cs : List Channel)
    → (unsubscribe_from_all client cs).channels ≡ pubsub_remove_client client cs
unfolding unsubscribe_from_all
unsubscribe_from_all-channels client cs =
    let left = unsubscribe_everywhere-channels client cs in
    elim (Bool-cases ((unsubscribe_everywhere client cs).success_count == 0)) [
      | inl nobody ↦ rw nobody left
      | inr some_left ↦ rw some_left left
    ]

-- UNSUBSCRIBE with no names confirms each channel that the client was in, in order, with its name and
-- the count 0, where these names fit the buffer for a confirmation, bulk, or, if there was none, sends the
-- one reply that names no channel; it leaves the channels as a disconnect does.
pub unsubscribe_from_all_lem :
    (client : ℕ) (cs : List Channel)
    → All (λ name. length (confirmation_text name) ≤ 255) (joined client cs)
    → ((unsubscribe_from_all client cs).channels ≡ pubsub_remove_client client cs)
      × ((unsubscribe_from_all client cs).success_count ≡ length (joined client cs))
      × ((unsubscribe_from_all client cs).written ≡ (
          if length (joined client cs) == 0
          then (client, codes "*3\r\n$11\r\nunsubscribe\r\n$-1\r\n:0\r\n") ∷ []
          else map (λ name. (client, confirmation_text name)) (joined client cs)))
unfolding unsubscribe_from_all nothing_to_leave
unsubscribe_from_all_lem client cs fit =
    let (sent, counted) = unsubscribe_everywhere_lem client cs in
    let left = unsubscribe_everywhere-channels client cs in
    elim (Bool-cases (length (joined client cs) == 0)) [
      | inl nobody ↦ rw (counted, nobody) (left, refl, refl)
      | inr some_left ↦
          rw (counted, some_left)
            (left, counted, sent ∙ confirmations-texts client (joined client cs) fit)
    ]
