-- ===== src/Commands/Blocks.antt =====
-- What MULTI and DISCARD do to the list of clients.
use crimson_cache.Base.{
  ℕ, ◌≡◌, refl, ◌∙◌, Bool, true, false, not, ◌++◌, Option, none, some, arith, ◌==◌, if◌then◌else◌,
  inl, inr, subst, Option-cases,
}
use crimson_cache.CString.{Bytes, codes}
use crimson_cache.Reply.{reply_string}
use crimson_cache.Transaction.{Client, tx_init, tx_cleanup, tx_discard_commands}
use crimson_cache.Server.{Slots, get_client_by_socket, put_client}
use crimson_cache.Server.Clients
use crimson_cache.Server.Clients.{put_client_lem, found-socket}
use crimson_cache.Commands.Keyspace.{cmd_ok, cmd_err}
use crimson_cache.Commands.Transactions.{Handled, refuse, multi_command, discard_command}

-- What MULTI makes of a client, and DISCARD.
abbrev pub begun : Option Client → Option Client
begun none = none
begun (some c) =
    if c.in_transaction
    then some c
    else some (record c { in_transaction = true; transaction_errors = false })

abbrev pub dropped : Option Client → Option Client
dropped none = none
dropped (some c) = if c.in_transaction then some (tx_init c.socket) else some c

-- Whether a client is there and in a transaction, or not in one.
abbrev pub in_block : Bool → Option Client → Bool
in_block b none = false
in_block b (some c) = if b then c.in_transaction else not c.in_transaction

-- What a handler does that turns the client of a socket into `o`, and answers `reply` if it may.
pub record Handles (socket : ℕ) (slots : Slots) (may : Bool) (o : Option Client) (reply : Bytes)
    (h : Handled) : Type 0 where
  pub valid : Clients.IsValid h.clients
  pub result : h.result ≡ (if may then cmd_ok else cmd_err)
  pub answer : (if may then h.written else reply) ≡ reply
  pub finds :
      (q : ℕ)
      → get_client_by_socket q h.clients ≡ (if socket == q then o else get_client_by_socket q slots)

module _ (socket : ℕ) (slots : Slots) (v : Clients.IsValid slots) where
  -- A handler that is refused.
  refused :
      (o : Option Client) (message reply : Bytes)
      → get_client_by_socket socket slots ≡ o
      → Handles socket slots false o reply (refuse slots message)
  refused o message reply e = record {
    valid = v;
    result = refl;
    answer = refl;
    finds = λ q. ground (arith, e);
  }

  -- A handler that writes the client.
  wrote :
      (c new : Client) (reply : Bytes)
      → get_client_by_socket socket slots ≡ some c
      → new.socket ≡ c.socket
      → Handles socket slots true
          (some new)
          reply
          (record { result = cmd_ok; clients = put_client new slots; written = reply })
  wrote c new reply e same =
      let (at, there) = found-socket socket slots c e in
      let home : new.socket ≡ socket = same ∙ at in
      let (valid, finds) = put_client_lem new c slots v (rw home e) in
      record { valid = valid; result = refl; answer = refl; finds = λ q. rw⁻¹ home (finds q) }

  multi_none :
      get_client_by_socket socket slots ≡ none
      → multi_command socket slots ≡ refuse slots (codes "ERR client not found")
  unfolding multi_command
  multi_none e = rw (e, multi_command)

  pub multi_some :
      (c : Client)
      → get_client_by_socket socket slots ≡ some c
      → multi_command socket slots ≡ (
          if c.in_transaction
          then refuse slots (codes "ERR MULTI calls can not be nested")
          else record {
            result = cmd_ok;
            clients =
                put_client (record c { in_transaction = true; transaction_errors = false }) slots;
            written = reply_string (codes "OK");
          })
  unfolding multi_command
  multi_some c e = rw (e, multi_command)

  discard_none :
      get_client_by_socket socket slots ≡ none
      → discard_command socket slots ≡ refuse slots (codes "ERR client not found")
  unfolding discard_command
  discard_none e = rw (e, discard_command)

  discard_some :
      (c : Client)
      → get_client_by_socket socket slots ≡ some c
      → discard_command socket slots ≡ (
          if not c.in_transaction
          then refuse slots (codes "ERR DISCARD without MULTI")
          else record {
            result = cmd_ok;
            clients = put_client (tx_init c.socket) slots;
            written = reply_string (codes "OK") ++ reply_string (codes "OK");
          })
  unfolding discard_command tx_discard_commands tx_init tx_cleanup
  discard_some c e = rw (e, discard_command)

  begins :
      (c : Client) (b : Bool)
      → c.in_transaction ≡ b
      → get_client_by_socket socket slots ≡ some c
      → Handles socket slots (not b) (begun (some c)) (reply_string (codes "OK")) (
          if b then refuse slots (codes "ERR MULTI calls can not be nested") else record {
            result = cmd_ok;
            clients =
                put_client (record c { in_transaction = true; transaction_errors = false }) slots;
            written = reply_string (codes "OK");
          })
  begins c true active e =
      let same : some c ≡ begun (some c) = ground arith in
      refused _ (codes "ERR MULTI calls can not be nested") _ (e ∙ same)
  begins c false idle e =
      let new = record c { in_transaction = true; transaction_errors = false } in
      let same : some new ≡ begun (some c) = ground arith in
      subst
        (λ (o : Option Client). Handles socket slots true o (reply_string (codes "OK")) (record {
          result = cmd_ok;
          clients = put_client new slots;
          written = reply_string (codes "OK");
        }))
        same (wrote c new (reply_string (codes "OK")) e refl)

  -- MULTI begins a transaction for a client that is in none, and answers "OK"; it refuses a client
  -- that is in one, and a socket without a client. Nothing else changes.
  pub multi_command_lem :
      Handles socket slots
        (in_block false (get_client_by_socket socket slots))
        (begun (get_client_by_socket socket slots))
        (reply_string (codes "OK"))
        (multi_command socket slots)
  multi_command_lem = elim (Option-cases (get_client_by_socket socket slots)) [
    | inl e ↦ rw e (rw (multi_none e) (refused _ (codes "ERR client not found") _ e))
    | inr (c, e) ↦ rw e (rw (multi_some c e) (begins c c.in_transaction refl e))
  ]

  drops :
      (c : Client) (b : Bool)
      → c.in_transaction ≡ b
      → get_client_by_socket socket slots ≡ some c
      → Handles socket slots b
          (dropped (some c))
          (reply_string (codes "OK") ++ reply_string (codes "OK"))
          (if not b then refuse slots (codes "ERR DISCARD without MULTI") else record {
            result = cmd_ok;
            clients = put_client (tx_init c.socket) slots;
            written = reply_string (codes "OK") ++ reply_string (codes "OK");
          })
  drops c false idle e =
      let same : some c ≡ dropped (some c) = ground arith in
      refused _ (codes "ERR DISCARD without MULTI") _ (e ∙ same)
  drops c true active e =
      let twice = reply_string (codes "OK") ++ reply_string (codes "OK") in
      let same : some (tx_init c.socket) ≡ dropped (some c) = ground arith in
      subst
        (λ (o : Option Client). Handles socket slots true o twice (record {
          result = cmd_ok;
          clients = put_client (tx_init c.socket) slots;
          written = twice;
        }))
        same (wrote c (tx_init c.socket) twice e (unfold tx_init in refl))

  -- DISCARD of a client in a transaction leaves it as `tx_init` makes it, its queue empty, and writes
  -- "OK" twice; it refuses a client in no transaction, and a socket without a client. Nothing else
  -- changes.
  pub discard_command_lem :
      Handles socket slots
        (in_block true (get_client_by_socket socket slots))
        (dropped (get_client_by_socket socket slots))
        (reply_string (codes "OK") ++ reply_string (codes "OK"))
        (discard_command socket slots)
  discard_command_lem = elim (Option-cases (get_client_by_socket socket slots)) [
    | inl e ↦ rw e (rw (discard_none e) (refused _ (codes "ERR client not found") _ e))
    | inr (c, e) ↦ rw e (rw (discard_some c e) (drops c c.in_transaction refl e))
  ]
