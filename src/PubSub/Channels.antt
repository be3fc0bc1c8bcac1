-- ===== src/PubSub/Channels.antt =====
-- Who is subscribed to what: the channels as a map from names to subscribers, and their invariant.
use crimson_cache.Base.{
  ℕ, ◌+◌, ◌-◌, ◌≤◌, ◌<◌, ◌≡◌, Bool, true, not, ◌&&◌, List, [], ◌∷◌, Option, none, some, arith, ◌==◌,
  if◌then◌else◌, All, Bool-cases, inl, inr, ◌↔◌,
}
use crimson_cache.CString.{Bytes, str_eq, str_eq_iff}
use crimson_cache.PubSub.{Channel, find_channel, is_subscribed, set_subscribers, remove_node}

-- The subscribers of a name.
abbrev pub subscribers_of : Option Channel → List ℕ
subscribers_of none = []
subscribers_of (some c) = c.subscribers

unfoldable pub members : Bytes → List Channel → List ℕ
unfolding find_channel
members name cs = subscribers_of (find_channel name cs)

unfoldable pub subscribed : ℕ → Bytes → List Channel → Bool
unfolding members is_subscribed
subscribed client name cs = is_subscribed client (members name cs)

unfoldable pub occurrences : ℕ → List ℕ → ℕ
occurrences q [] = 0
occurrences q (s ∷ ss) = (if s == q then 1 else 0) + occurrences q ss

abbrev pub Once : List ℕ → Type 0
Once ss = (q : ℕ) → occurrences q ss ≤ 1

-- No client stands twice in the list of a channel.
pub record IsValid (cs : List Channel) : Type 0 where
  pub once : All (λ c. Once c.subscribers) cs

pub find_channel-Once :
    (name : Bytes) (cs : List Channel) (c : Channel)
    → All (λ c. Once c.subscribers) cs
    → find_channel name cs ≡ some c
    → Once c.subscribers
unfolding find_channel
find_channel-Once name [] c h e = cc
find_channel-Once name (x ∷ cs) c (h, hs) e = elim (Bool-cases (str_eq x.name name)) [
  | inl same ↦ λ q. ground (arith, h q)
  | inr other ↦ find_channel-Once name cs c hs (rw other at e)
]

pub find-set_subscribers :
    (name n : Bytes) (subs : List ℕ) (cs : List Channel) (c : Channel)
    → find_channel name cs ≡ some c
    → members n (set_subscribers name subs cs) ≡ (if str_eq name n then subs else members n cs)
unfolding members set_subscribers
find-set_subscribers name n subs [] c e = cc
find-set_subscribers name n subs (x ∷ cs) c e = ground (
  arith,
  find-set_subscribers name n subs cs c,
  str_eq_iff x.name name,
  str_eq_iff x.name n,
  str_eq_iff name n,
)

pub set_subscribers-Once :
    (name : Bytes) (subs : List ℕ) (cs : List Channel)
    → Once subs
    → All (λ c. Once c.subscribers) cs
    → All (λ c. Once c.subscribers) (set_subscribers name subs cs)
unfolding set_subscribers
set_subscribers-Once name subs [] h a = tt
set_subscribers-Once name subs (x ∷ cs) h (y, a) = elim (Bool-cases (str_eq x.name name)) [
  | inl e ↦ rw e (h, a)
  | inr e ↦ rw e (y, set_subscribers-Once name subs cs h a)
]

pub is_subscribed-occurrences :
    (q : ℕ) (ss : List ℕ) → (is_subscribed q ss ≡ true) ↔ (0 < occurrences q ss)
unfolding is_subscribed occurrences
is_subscribed-occurrences q [] = ground arith
is_subscribed-occurrences q (s ∷ ss) = ground (arith, is_subscribed-occurrences q ss)

pub occurrences-remove :
    (client q : ℕ) (ss : List ℕ)
    → occurrences q (remove_node client ss)
      ≡ occurrences q ss - (if client == q && is_subscribed client ss then 1 else 0)
unfolding remove_node occurrences is_subscribed
occurrences-remove client q [] = ground arith
occurrences-remove client q (s ∷ ss) =
    ground (arith, occurrences-remove client q ss, is_subscribed-occurrences client ss)

-- Taking a client out of a list that has it at most once takes out this client alone.
pub is_subscribed-remove :
    (client q : ℕ) (ss : List ℕ)
    → Once ss
    → is_subscribed q (remove_node client ss) ≡ (not (client == q) && is_subscribed q ss)
is_subscribed-remove client q ss h = ground (
  arith,
  h q,
  occurrences-remove client q ss,
  is_subscribed-occurrences q ss,
  is_subscribed-occurrences q (remove_node client ss),
)

pub remove_node-Once : (client : ℕ) (ss : List ℕ) → Once ss → Once (remove_node client ss)
remove_node-Once client ss h q = omega (arith, h q, occurrences-remove client q ss)
