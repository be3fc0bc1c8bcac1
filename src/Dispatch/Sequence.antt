-- ===== src/Dispatch/Sequence.antt =====
-- EXEC and its commands sent one after the other.
use crimson_cache.Base.{
  ℕ, ◌≡◌, refl, sym, ap, ◌∙◌, true, false, not, ◌&&◌, List, [], ◌∷◌, ◌++◌, Option, none, some,
  arith, if◌then◌else◌, length, map,
}
use crimson_cache.CString.{Bytes, codes, str_eq, strcasecmp_eq, tolower}
use crimson_cache.Number.{print_nat, snprintf}
use crimson_cache.Reply.{crlf, reply_error}
use crimson_cache.Tokenizer.{tokenize_command}
use crimson_cache.PubSub.{Output}
use crimson_cache.Transaction.{Client, tx_init, tx_cleanup}
use crimson_cache.Server.{Slots, get_client_by_socket, put_client}
use crimson_cache.Commands.Keyspace.{cmd_ok}
use crimson_cache.Dispatch.{Server, World, Worlds, below, Ran, Executor, say}
use crimson_cache.Dispatch.Handlers.{
  all_copied, run_each, tx_execute_commands, close_block, exec_command,
}
use crimson_cache.Dispatch.Table.{commands, find_command, wrong_arity, call_handler}
use crimson_cache.Dispatch.Execute.{
  is_tx_command, is_write, client_of, queueing_client, run_found, should_propagate, finish,
  run_command, execute_words, execute_tokens, execute_with, execute_command,
}
use crimson_cache.Dispatch.Valid.{IsValid}
use crimson_cache.Dispatch.Exec.{
  execute_command-RunsQuietly, execute_command-Agrees, run_each-Agrees, tx_execute_commands_lem,
  close_block_idle, cleaned-IsValid, cleaned_idle,
}

-- A client that sends commands one by one, each as `execute_command` is given it.
abbrev pub one_by_one : Worlds → ℕ → List Bytes → Server → Output × Server
one_by_one w sock [] s = ([], s)
one_by_one w sock (cmd ∷ cmds) s =
    let r = execute_command 2 (below (length cmds) w) sock cmd s in
    let (sent, s') = one_by_one w sock cmds r.server in (r.sent ++ sent, s')

run_each-one_by_one :
    (w : Worlds) (sock : ℕ) (cmds : List Bytes) (s : Server)
    → run_each (execute_command 2) w sock cmds s ≡ one_by_one w sock cmds s
unfolding run_each
run_each-one_by_one w sock [] s = refl
run_each-one_by_one w sock (cmd ∷ cmds) s =
    let r = execute_command 2 (below (length cmds) w) sock cmd s in
    ap (λ (rest : Output × Server). (r.sent ++ rest.0, rest.1))
      (run_each-one_by_one w sock cmds r.server)

abbrev ran_with : Output → Server → Ran
ran_with sent s = record { result = cmd_ok; server = s; sent = sent }

-- The server once the client has left its transaction.
abbrev pub left : Client → Server → Server
left c s = record s { clients = put_client (tx_init c.socket) s.clients }

-- What EXEC comes to: the commands one by one behind the header of their answers, or an error where
-- a command could not be queued or memory is short; the client has left its transaction before.
abbrev pub exec_outcome : Worlds → Client → Server → Output × Server
exec_outcome w c s =
    if c.transaction_errors
    then (
      say c.socket
          (reply_error (codes "EXECABORT Transaction discarded because of previous errors")),
      left c s,
    )
    else if not ((w []).array_granted && all_copied (w []).copies_granted c.queued_commands)
    then (
      say c.socket (reply_error (codes "ERR out of memory during transaction execution")),
      left c s,
    )
    else (let (sent, s') = one_by_one w c.socket c.queued_commands (left c s) in
        (
          say c.socket (snprintf 32 (b'*' ∷ print_nat (length c.queued_commands) ++ crlf)) ++ sent,
          s',
        ))

module _ (w : Worlds) (c : Client) (s : Server) (v : IsValid s)
    (e : get_client_by_socket c.socket s.clients ≡ some c) where
  tx_outcome : tx_execute_commands (execute_command 1) w c s ≡ exec_outcome w c s
  unfolding tx_execute_commands tx_cleanup tx_init
  tx_outcome =
      rw
        (run_each-Agrees (execute_command 1) (execute_command-RunsQuietly 1) (execute_command 2)
            (execute_command-Agrees 0 1) w c.socket c.queued_commands
            (record s { clients = put_client (tx_cleanup c) s.clients })
            (cleaned-IsValid s c.socket c v e) (v.clients.each c.socket c e).queued
            (cleaned_idle s c.socket c v e)
          ∙ run_each-one_by_one w c.socket c.queued_commands
              (record s { clients = put_client (tx_cleanup c) s.clients }))
        refl

  exec_active :
      c.in_transaction ≡ true
      → exec_command (execute_command 1) w c.socket s ≡ (
          let (sent, s') = tx_execute_commands (execute_command 1) w c s in
          record {
            result = cmd_ok;
            server = record s' { clients = close_block c.socket s'.clients };
            sent = sent;
          })
  unfolding exec_command
  exec_active active = rw (e, exec_command, active) refl

  exec_command-one_by_one :
      c.in_transaction ≡ true
      → exec_command (execute_command 1) w c.socket s
        ≡ record { result = cmd_ok; server = (exec_outcome w c s).1; sent = (exec_outcome w c s).0 }
  exec_command-one_by_one active =
      let t = tx_execute_commands (execute_command 1) w c s in
      let (valid, same) =
        tx_execute_commands_lem s c.socket c v e (execute_command 1) (execute_command-RunsQuietly 1)
          w in
      let closed : close_block c.socket t.1.clients ≡ t.1.clients =
        ap (λ (cs : Slots). close_block c.socket cs) same
        ∙ close_block_idle s c.socket c v e
        ∙ sym same in
      exec_active active
      ∙ ap (λ (cs : Slots). ran_with t.0 (record t.1 { clients = cs })) closed
      ∙ ap (λ (o : Output × Server). ran_with o.0 o.1) tx_outcome

-- A word that is a command on the transaction is not queued.
queueing_tx :
    (name : Bytes) (o : Option Client) → is_tx_command name ≡ true → queueing_client name o ≡ none
unfolding queueing_client
queueing_tx name none h = refl
queueing_tx name (some c) h = ground arith

finish_read :
    (w : World) (sock : ℕ) (input name : Bytes) (r : Ran)
    → is_write name ≡ false
    → finish w sock input name r ≡ r
unfolding finish should_propagate
finish_read w sock input name r h = ground arith

-- EXEC is in the table, and is not propagated itself.
exec_words :
    (run : Executor) (w : Worlds) (sock : ℕ) (input : Bytes) (s : Server)
    → execute_words run w sock input (codes "exec" ∷ []) s ≡ exec_command run w sock s
unfolding execute_words run_command find_command commands run_found wrong_arity call_handler str_eq
exec_words run w sock input s =
    rw
      (
        queueing_tx (codes "exec") (client_of sock s) (unfold is_tx_command str_eq in refl),
        execute_words,
      )
      (finish_read (w []) sock input (codes "exec") (exec_command run w sock s)
        (unfold is_write strcasecmp_eq tolower in refl))

exec_line :
    (w : Worlds) (c : Client) (s : Server) (input name : Bytes)
    → (w []).input_copied ≡ true
    → tokenize_command (w []).tokens input ≡ some (name ∷ [])
    → map tolower name ≡ codes "exec"
    → execute_command 2 w c.socket input s
      ≡ execute_words (execute_command 1) w c.socket input (codes "exec" ∷ []) s
unfolding execute_command execute_with execute_tokens
exec_line w c s input name copied cut is_exec = rw (copied, cut, is_exec) refl

-- The line of EXEC from a client in a transaction, on a server that is well formed: if a command could
-- not be queued, or memory is short, nothing is run and the error is answered; else the answers are
-- a header with their number and what the queued commands answer that are sent one after the other by
-- a client outside a transaction, and the server is as these commands leave it. In each case the
-- client has left its transaction.
pub execute_command-one_by_one :
    (w : Worlds) (c : Client) (s : Server) (input name : Bytes)
    → IsValid s
    → get_client_by_socket c.socket s.clients ≡ some c
    → c.in_transaction ≡ true
    → (w []).input_copied ≡ true
    → tokenize_command (w []).tokens input ≡ some (name ∷ [])
    → map tolower name ≡ codes "exec"
    → execute_command 2 w c.socket input s
      ≡ record { result = cmd_ok; server = (exec_outcome w c s).1; sent = (exec_outcome w c s).0 }
execute_command-one_by_one w c s input name v e active copied cut is_exec =
    exec_line w c s input name copied cut is_exec
    ∙ exec_words (execute_command 1) w c.socket input s
    ∙ exec_command-one_by_one w c s v e active
