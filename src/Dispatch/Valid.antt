-- ===== src/Dispatch/Valid.antt =====
-- The invariant of the whole server: the database, the channels and the client list are well formed,
-- and the queue of a transaction has none of MULTI, EXEC and DISCARD in it.
use crimson_cache.Base.{
  Bool, Option, none, ==_iff, if◌then◌else◌, ℕ, ◌≡◌, refl, sym, ap, subst, ◌∙◌, true, false, not,
  List, [], ◌∷◌, ◌++◌, some, ◌==◌, if_either, All, map, inl, inr, Bool-cases, Option-cases,
}
use crimson_cache.CString.{Bytes, tolower}
use crimson_cache.Tokenizer.{TokenMemory, tokenize_command}
use crimson_cache.Transaction.{
  Client, QueueMemory, tx_cleanup, tx_discard_commands, tx_queue_command,
}
use crimson_cache.Transaction.Queue
use crimson_cache.Transaction.Queue.{tx_cleanup-IsValid, tx_queue_command_lem, can_queue}
use crimson_cache.Commands.Transactions.{Handled, multi_command, discard_command, queue_input}
use crimson_cache.Commands.Blocks.{multi_some}
use crimson_cache.Commands.Queueing.{queue_input_done, queue_input_failed}
use crimson_cache.Server.{Slots, get_client_by_socket, put_client}
use crimson_cache.Server.Clients
use crimson_cache.Server.Clients.{put_client_lem, found-socket}
use crimson_cache.PubSub.{Channel}
use crimson_cache.PubSub.Channels
use crimson_cache.PubSub.Channels.{subscribed}
use crimson_cache.Dict.Add.{IsSound}
use crimson_cache.Dispatch.{Server, is_open}
use crimson_cache.Dispatch.Execute.{is_tx_command}

-- A line that is not a command on the transaction itself, as far as it is cut into words.
abbrev pub IsQueueable : Bytes → Type 0
IsQueueable cmd =
    (mem : TokenMemory) (name : Bytes) (args : List Bytes)
    → tokenize_command mem cmd ≡ some (name ∷ args)
    → is_tx_command (map tolower name) ≡ false

-- A client whose socket is open, with a queue that fits and that has commands to be run.
pub record IsSession (c : Client) : Type 0 where
  pub queue : Queue.IsValid c
  pub connected : is_open c.socket ≡ true
  pub queued : All IsQueueable c.queued_commands

pub record HasSessions (slots : Slots) : Type 0 where
  pub apart : Clients.IsValid slots
  pub each : (sock : ℕ) (c : Client) → get_client_by_socket sock slots ≡ some c → IsSession c

abbrev pub is_some : Option Client → Bool
is_some none = false
is_some (some c) = true

-- Every subscriber is on the client list: no channel has a pointer to a client that is gone.
abbrev pub AreKnown : List Channel → Slots → Type 0
AreKnown cs slots =
    (q : ℕ) (name : Bytes)
    → subscribed q name cs ≡ true
    → is_some (get_client_by_socket q slots) ≡ true

pub record IsValid (s : Server) : Type 0 where
  pub db : IsSound s.db
  pub channels : Channels.IsValid s.channels
  pub clients : HasSessions s.clients
  pub subscribers : AreKnown s.channels s.clients

-- A client list with the same sockets, well formed as well.
pub record SameSockets (before after : Slots) : Type 0 where
  pub sessions : HasSessions after
  pub known :
      (q : ℕ) → is_some (get_client_by_socket q after) ≡ is_some (get_client_by_socket q before)

abbrev pub unmoved : (slots : Slots) → HasSessions slots → SameSockets slots slots
unmoved slots v = record { sessions = v; known = λ q. refl }

pub moved-IsValid :
    (s : Server)
    → IsValid s
    → (slots : Slots) → SameSockets s.clients slots
    → IsValid (record s { clients = slots })
moved-IsValid s v slots m = record {
  db = v.db;
  channels = v.channels;
  clients = m.sessions;
  subscribers = λ q n h. m.known q ∙ v.subscribers q n h;
}

found_again : (c d : Client) → some c ≡ some d → IsSession c → IsSession d
found_again c d e ok = let same : c ≡ d = cc in subst (λ x. IsSession x) same ok

known_again :
    (c old : Client) (q : ℕ) (slots after : Slots)
    → get_client_by_socket c.socket slots ≡ some old
    → get_client_by_socket q after
      ≡ (if c.socket == q then some c else get_client_by_socket q slots)
    → is_some (get_client_by_socket q after) ≡ is_some (get_client_by_socket q slots)
known_again c old q slots after e f = elim (Bool-cases (c.socket == q)) [
  | inl same ↦
      let there =
        subst (λ (n : ℕ). get_client_by_socket n slots ≡ some old) ((==_iff c.socket q).0 same) e in
      ap is_some (rw same at f) ∙ sym (ap is_some there)
  | inr other ↦ ap is_some (rw other at f)
]

-- Writing through the pointer to a client.
pub put_client-HasSessions :
    (c old : Client) (slots : Slots)
    → HasSessions slots
    → get_client_by_socket c.socket slots ≡ some old
    → IsSession c
    → SameSockets slots (put_client c slots)
put_client-HasSessions c old slots v e ok =
    let (apart, finds) = put_client_lem c old slots v.apart e in
    record {
      sessions = record {
        apart = apart;
        each = λ sock d f.
            let found = finds sock in
            elim (Bool-cases (c.socket == sock)) [
              | inl same ↦ found_again c d (sym (rw same at found) ∙ f) ok
              | inr other ↦ v.each sock d (sym (rw other at found) ∙ f)
            ];
      };
      known = λ q. known_again c old q slots (put_client c slots) e (finds q);
    }

All-snoc :
    (cmds : List Bytes) (cmd : Bytes)
    → All IsQueueable cmds
    → IsQueueable cmd
    → All IsQueueable (cmds ++ cmd ∷ [])
All-snoc [] cmd a may = (may, tt)
All-snoc (c ∷ cmds) cmd (x, a) may = (x, All-snoc cmds cmd a may)

-- The sessions of what a handler on the clients leaves.
module _ (sock : ℕ) (slots : Slots) (v : HasSessions slots) where
  -- The client of the socket, written with its socket kept.
  pub replaced-HasSessions :
      (c new : Client)
      → get_client_by_socket sock slots ≡ some c
      → new.socket ≡ c.socket
      → IsSession new
      → SameSockets slots (put_client new slots)
  replaced-HasSessions c new e same ok =
      put_client-HasSessions new c slots v
        (ap (λ (n : ℕ). get_client_by_socket n slots) (same ∙ (found-socket sock slots c e).0) ∙ e)
        ok

  begun-IsSession :
      (c : Client)
      → IsSession c
      → IsSession (record c { in_transaction = true; transaction_errors = false })
  begun-IsSession c ok = record {
    queue = record { fits = ok.queue.fits; idle_queue = λ h. cc; idle_errors = λ h. cc };
    connected = ok.connected;
    queued = ok.queued;
  }

  pub multi_command-HasSessions : SameSockets slots (multi_command sock slots).clients
  multi_command-HasSessions = elim (Option-cases (get_client_by_socket sock slots)) [
    | inl e ↦ unfold multi_command in rw (e, multi_command) (unmoved slots v)
    | inr (c, e) ↦ rw (multi_some sock slots v.apart c e) (
        if_either (λ (h : Handled). SameSockets slots h.clients) c.in_transaction (unmoved slots v)
          (replaced-HasSessions c (record c { in_transaction = true; transaction_errors = false }) e
            refl (begun-IsSession c (v.each sock c e))))
  ]

  pub cleaned-IsSession : (c : Client) → IsSession c → IsSession (tx_cleanup c)
  unfolding tx_cleanup
  cleaned-IsSession c ok = record {
    queue = tx_cleanup-IsValid c;
    connected = ok.connected;
    queued = tt;
  }

  pub discard_command-HasSessions : SameSockets slots (discard_command sock slots).clients
  unfolding discard_command tx_discard_commands tx_cleanup
  discard_command-HasSessions = elim (Option-cases (get_client_by_socket sock slots)) [
    | inl e ↦ rw (e, discard_command) (unmoved slots v)
    | inr (c, e) ↦
        rw (e, discard_command)
          (if_either (λ (h : Handled). SameSockets slots h.clients) (not c.in_transaction)
            (unmoved slots v)
            (replaced-HasSessions c (tx_cleanup c) e refl (cleaned-IsSession c (v.each sock c e))))
  ]

  pub queue_input-HasSessions :
      (mem : QueueMemory) (c : Client) (input : Bytes)
      → get_client_by_socket sock slots ≡ some c
      → c.in_transaction ≡ true
      → IsQueueable input
      → SameSockets slots (queue_input mem c input slots).clients
  queue_input-HasSessions mem c input e active may =
      let ok = v.each sock c e in
      let (done, commands, valid, still, errors, socket) =
        tx_queue_command_lem mem c input ok.queue active in
      let kept : All IsQueueable (tx_queue_command mem c input).1.queued_commands = rw commands (
        if_either (All IsQueueable) (can_queue mem c)
          (All-snoc c.queued_commands input ok.queued may) ok.queued) in
      let new = (tx_queue_command mem c input).1 in
      let connected : is_open new.socket ≡ true = rw socket ok.connected in
      elim (Bool-cases (tx_queue_command mem c input).0) [
        | inl went ↦ rw (queue_input_done mem c input slots went) (
            replaced-HasSessions c new e socket
              (record { queue = valid; connected = connected; queued = kept }))
        | inr stopped ↦ rw (queue_input_failed mem c input slots stopped) (
            replaced-HasSessions c (record new { transaction_errors = true }) e socket
              (record {
                queue = record {
                  fits = valid.fits;
                  idle_queue = valid.idle_queue;
                  idle_errors = λ h. cc;
                };
                connected = connected;
                queued = kept;
              }))
      ]
