-- ===== src/Process/Kept.antt =====
-- The background threads, a child and the connections keep the server well formed.
use crimson_cache.Base.{
  ℕ, ◌≡◌, refl, sym, ap, subst, ◌∙◌, Bool, true, false, not, ◌&&◌, Option, none, some, arith, ◌==◌,
  if◌then◌else◌, get_elem?, inl, inr, Bool-cases, Option-cases,
}
use crimson_cache.Dict.Add.{IsSound}
use crimson_cache.Dict.Clear.{dict_clear_expired_lem}
use crimson_cache.Persistence.Save.{FileSystem}
use crimson_cache.PubSub.Channels
use crimson_cache.PubSub.Channels.{subscribed}
use crimson_cache.PubSub.Disconnect.{pubsub_remove_client_lem}
use crimson_cache.Transaction.{Client, tx_init}
use crimson_cache.Transaction.Queue.{tx_init-IsValid}
use crimson_cache.Server.{Slots, get_client_by_socket, register_client}
use crimson_cache.Server.Clients
use crimson_cache.Server.Clients.{
  with_socket, register_client_lem, unregister_client_lem, has_free_slot,
}
use crimson_cache.Dispatch.{Server, is_open}
use crimson_cache.Dispatch.Valid.{IsValid, HasSessions, IsSession, AreKnown, is_some}
use crimson_cache.Process.{Process, handle_signal, cleanup_expired_keys, auto_save_thread}
use crimson_cache.Process.Clients.{handle_new_connection, disconnect}
use crimson_cache.Process.Steps.{finish_child}

-- The same database, channels and clients.
abbrev pub Same : Server → Server → Type 0
Same s s' = (s'.db ≡ s.db) × (s'.channels ≡ s.channels) × (s'.clients ≡ s.clients)

pub Same-IsValid : (s s' : Server) → IsValid s → Same s s' → IsValid s'
Same-IsValid s s' v (db, channels, clients) = record {
  db = subst (λ d. IsSound d) (sym db) v.db;
  channels = subst (λ cs. Channels.IsValid cs) (sym channels) v.channels;
  clients = subst (λ cs. HasSessions cs) (sym clients) v.clients;
  subscribers =
      subst (λ cs. AreKnown cs s'.clients) (sym channels)
        (subst (λ slots. AreKnown s.channels slots) (sym clients) v.subscribers);
}

new-IsSession : (fd : ℕ) → is_open fd ≡ true → IsSession (tx_init fd)
unfolding tx_init
new-IsSession fd opened = record { queue = tx_init-IsValid fd; connected = opened; queued = tt }

registered :
    (fd : ℕ) (slots : Slots)
    → Clients.IsValid slots
    → get_client_by_socket fd slots ≡ none
    → Clients.IsValid (register_client (tx_init fd) slots)
      × ((q : ℕ)
          → get_client_by_socket q (register_client (tx_init fd) slots) ≡ (
              if has_free_slot slots && fd == q
              then some (tx_init fd)
              else get_client_by_socket q slots))
unfolding tx_init
registered fd slots apart fresh = register_client_lem (tx_init fd) slots apart fresh

-- What is found after a registration has a session.
found-IsSession :
    (free : Bool) (fd : ℕ)
    → is_open fd ≡ true
    → (q : ℕ) (c : Client) (o o' : Option Client) → (o ≡ some c → IsSession c)
    → o' ≡ (if free && fd == q then some (tx_init fd) else o)
    → o' ≡ some c
    → IsSession c
found-IsSession free fd opened q c o o' before e f = elim (Bool-cases (free && fd == q)) [
  | inl new ↦
      let same : tx_init fd ≡ c = cc (rw new at e) in
      subst (λ x. IsSession x) same (new-IsSession fd opened)
  | inr old ↦ before (sym (rw old at e) ∙ f)
]

still_known :
    (free : Bool) (fd q : ℕ) (o o' : Option Client)
    → o' ≡ (if free && fd == q then some (tx_init fd) else o)
    → is_some o ≡ true
    → is_some o' ≡ true
still_known free fd q o o' e h = elim (Bool-cases (free && fd == q)) [
  | inl new ↦ ap is_some (rw new at e)
  | inr old ↦ ap is_some (rw old at e) ∙ h
]

found_before :
    (fd q : ℕ) (c : Client) (o o' : Option Client)
    → o' ≡ (if fd == q then none else o)
    → o' ≡ some c
    → o ≡ some c
found_before fd q c o o' e f = elim (Bool-cases (fd == q)) [
  | inl gone ↦ cc (rw gone at e)
  | inr other ↦ sym (rw other at e) ∙ f
]

other_subscriber :
    (fd q : ℕ) (before after : Bool)
    → after ≡ (not (fd == q) && before)
    → after ≡ true
    → ((fd == q) ≡ false) × (before ≡ true)
other_subscriber fd q before after e h = (ground arith, ground arith)

module _ (p : Process) (v : IsValid p.server) where
  pub cleanup-IsValid : (now : ℕ) → IsValid (cleanup_expired_keys now p).server
  unfolding cleanup_expired_keys
  cleanup-IsValid now =
      let (b, limit) = dict_clear_expired_lem v.db.valid now in
      record {
        db = record { valid = b.valid; unlimited = limit ∙ v.db.unlimited };
        channels = v.channels;
        clients = v.clients;
        subscribers = v.subscribers;
      }

  pub auto_save-IsValid :
      (files : FileSystem) (now save_now : ℕ)
      → IsValid (auto_save_thread files now save_now p).server
  unfolding auto_save_thread
  auto_save-IsValid files now save_now =
      Same-IsValid p.server _ v (ground arith, ground arith, ground arith)

  pub child-IsValid : (files : FileSystem) (now n : ℕ) → IsValid (finish_child files now n p).server
  unfolding finish_child
  child-IsValid files now n = elim (Option-cases (get_elem? p.server.children n)) [
    | inl e ↦ rw (e, finish_child) v
    | inr (db, e) ↦ rw (e, finish_child) (Same-IsValid p.server _ v (refl, refl, refl))
  ]

  pub signal-IsValid : (sig : ℕ) → IsValid (handle_signal sig p).server
  unfolding handle_signal
  signal-IsValid sig = Same-IsValid p.server _ v (ground arith, ground arith, ground arith)

  pub new_connection-IsValid :
      (granted : Bool) (fd : ℕ)
      → is_open fd ≡ true
      → get_client_by_socket fd p.server.clients ≡ none
      → IsValid (handle_new_connection granted fd p).server
  unfolding handle_new_connection
  new_connection-IsValid granted fd opened fresh = elim (Bool-cases granted) [
    | inr none_left ↦ rw none_left v
    | inl room_left ↦
        let (apart, finds) = registered fd p.server.clients v.clients.apart fresh in
        let free = has_free_slot p.server.clients in
        rw room_left (record {
          db = v.db;
          channels = v.channels;
          clients = record {
            apart = apart;
            each = λ q c. found-IsSession free fd opened q c _ _ (v.clients.each q c) (finds q);
          };
          subscribers = λ q n h. still_known free fd q _ _ (finds q) (v.subscribers q n h);
        })
  ]

  pub disconnect-IsValid : (fd : ℕ) → IsValid (disconnect fd p).server
  unfolding disconnect
  disconnect-IsValid fd =
      let (apart, finds) = unregister_client_lem fd p.server.clients v.clients.apart in
      let (channels, reads) = pubsub_remove_client_lem fd p.server.channels v.channels in
      record {
        db = v.db;
        channels = channels;
        clients = record {
          apart = apart;
          each = λ q c e. v.clients.each q c (found_before fd q c _ _ (finds q) e);
        };
        subscribers = λ q n h.
            let (other, before) = other_subscriber fd q _ _ (reads q n) h in
            ap is_some (
              finds q
              ∙ ap (λ (b : Bool). if b then none else get_client_by_socket q p.server.clients)
                  other)
            ∙ v.subscribers q n before;
      }
