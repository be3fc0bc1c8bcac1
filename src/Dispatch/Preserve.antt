-- ===== src/Dispatch/Preserve.antt =====
-- `execute_command` keeps the server well formed, and its calls go two deep at most.
use crimson_cache.Base.{
  ℕ, zero, suc, ◌≡◌, refl, ap, subst, Bool, true, false, not, ◌&&◌, List, [], ◌∷◌, Option, none,
  some, arith, if◌then◌else◌, length, get_or, map, inl, inr, Bool-cases, Option-cases,
}
use crimson_cache.CString.{Bytes, tolower}
use crimson_cache.Tokenizer.{TokenMemory, tokenize_command}
use crimson_cache.Tokenizer.Determined.{tokenize_determined}
use crimson_cache.Transaction.{Client}
use crimson_cache.Server.{get_client_by_socket}
use crimson_cache.Dispatch.{Server, World, Worlds, Ran, Executor, is_open}
use crimson_cache.Dispatch.Table.{
  Handler, ping, set, get, del, exists, expire, ttl, save, bgsave, replicaof, role, incr, replconf,
  subscribe, unsubscribe, publish, multi, exec, discard, CommandDef, commands, find_command,
  wrong_arity, call_handler,
}
use crimson_cache.Dispatch.Execute.{
  is_tx_command, client_of, queueing_client, run_found, propagate, should_propagate, finish,
  run_command, execute_words, execute_tokens, execute_with, execute_command,
}
use crimson_cache.Dispatch.Valid.{
  IsQueueable, IsValid, moved-IsValid, multi_command-HasSessions, discard_command-HasSessions,
  queue_input-HasSessions,
}
use crimson_cache.Dispatch.Quiet.Rows.{call_handler-IsQuiet}
use crimson_cache.Dispatch.Exec.{
  RunsQuietly, Agrees, execute_command-RunsQuietly, execute_command-Agrees, exec_command-IsValid,
  exec_command-Agrees,
}

-- A line that was cut into words of which the first is no command on the transaction.
pub queueable :
    (mem : TokenMemory) (input name : Bytes) (args : List Bytes)
    → tokenize_command mem input ≡ some (name ∷ args)
    → is_tx_command (map tolower name) ≡ false
    → IsQueueable input
queueable mem input name args e no_tx mem' name' args' e' =
    let same = tokenize_determined mem mem' input (name ∷ args) (name' ∷ args') e e' in
    let first : name ≡ name' = ap (λ (ws : List Bytes). get_or ws 0 []) same in
    subst (λ (n : Bytes). is_tx_command (map tolower n) ≡ false) first no_tx

-- The client to queue for is in a transaction, and the command is not one on the transaction.
both : (a b : Bool) → (a && not b) ≡ true → (a ≡ true) × (b ≡ false)
both a b h = (ground arith, ground arith)

queueing_some :
    (name : Bytes) (o : Option Client) (c : Client)
    → queueing_client name o ≡ some c
    → (o ≡ some c) × (c.in_transaction ≡ true) × (is_tx_command name ≡ false)
unfolding queueing_client
queueing_some name none c e = cc
queueing_some name (some d) c e = elim (Bool-cases (d.in_transaction && not (is_tx_command name))) [
  | inl queues ↦
      let same : d ≡ c = cc (rw queues at e) in
      let (active, no_tx) = both d.in_transaction (is_tx_command name) queues in
      (
        ap (λ (x : Client). some x) same,
        subst (λ (x : Client). x.in_transaction ≡ true) same active,
        no_tx,
      )
  | inr other ↦ cc (rw other at e)
]

found_open :
    (sock : ℕ) (o : Option Client) (c : Client)
    → (if is_open sock then o else none) ≡ some c
    → o ≡ some c
found_open sock o c e = ground arith

module _ (run run' : Executor) (q : RunsQuietly run) (a : Agrees run run') where
  -- The server is well formed afterwards, and the two runs do the same.
  abbrev Keeps : (Executor → Ran) → Type 0
  Keeps f = IsValid (f run).server × (f run ≡ f run')

  call_handler-Keeps :
      (h : Handler) (w : Worlds) (sock : ℕ) (argv : List Bytes) (s : Server)
      → IsValid s
      → Keeps (λ (x : Executor). call_handler x h w sock argv s)
  unfolding call_handler
  call_handler-Keeps multi w sock argv s v =
      (moved-IsValid s v _ (multi_command-HasSessions sock s.clients v.clients), refl)
  call_handler-Keeps discard w sock argv s v =
      (moved-IsValid s v _ (discard_command-HasSessions sock s.clients v.clients), refl)
  call_handler-Keeps exec w sock argv s v =
      (exec_command-IsValid run q w sock s v, exec_command-Agrees run run' q a w sock s v)
  call_handler-Keeps ping w sock argv s v =
      ((call_handler-IsQuiet run ping w sock argv s v refl).valid, refl)
  call_handler-Keeps set w sock argv s v =
      ((call_handler-IsQuiet run set w sock argv s v refl).valid, refl)
  call_handler-Keeps get w sock argv s v =
      ((call_handler-IsQuiet run get w sock argv s v refl).valid, refl)
  call_handler-Keeps del w sock argv s v =
      ((call_handler-IsQuiet run del w sock argv s v refl).valid, refl)
  call_handler-Keeps exists w sock argv s v =
      ((call_handler-IsQuiet run exists w sock argv s v refl).valid, refl)
  call_handler-Keeps expire w sock argv s v =
      ((call_handler-IsQuiet run expire w sock argv s v refl).valid, refl)
  call_handler-Keeps ttl w sock argv s v =
      ((call_handler-IsQuiet run ttl w sock argv s v refl).valid, refl)
  call_handler-Keeps save w sock argv s v =
      ((call_handler-IsQuiet run save w sock argv s v refl).valid, refl)
  call_handler-Keeps bgsave w sock argv s v =
      ((call_handler-IsQuiet run bgsave w sock argv s v refl).valid, refl)
  call_handler-Keeps replicaof w sock argv s v =
      ((call_handler-IsQuiet run replicaof w sock argv s v refl).valid, refl)
  call_handler-Keeps role w sock argv s v =
      ((call_handler-IsQuiet run role w sock argv s v refl).valid, refl)
  call_handler-Keeps incr w sock argv s v =
      ((call_handler-IsQuiet run incr w sock argv s v refl).valid, refl)
  call_handler-Keeps replconf w sock argv s v =
      ((call_handler-IsQuiet run replconf w sock argv s v refl).valid, refl)
  call_handler-Keeps subscribe w sock argv s v =
      ((call_handler-IsQuiet run subscribe w sock argv s v refl).valid, refl)
  call_handler-Keeps unsubscribe w sock argv s v =
      ((call_handler-IsQuiet run unsubscribe w sock argv s v refl).valid, refl)
  call_handler-Keeps publish w sock argv s v =
      ((call_handler-IsQuiet run publish w sock argv s v refl).valid, refl)

  run_found-Keeps :
      (o : Option CommandDef) (w : Worlds) (sock : ℕ) (argv : List Bytes) (s : Server)
      → IsValid s
      → Keeps (λ (x : Executor). run_found x o w sock argv s)
  unfolding run_found
  run_found-Keeps none w sock argv s v = (v, refl)
  run_found-Keeps (some c) w sock argv s v = elim (Bool-cases (wrong_arity (length argv) c)) [
    | inl wrong ↦ rw wrong (v, refl)
    | inr right ↦ rw right (call_handler-Keeps c.handler w sock argv s v)
  ]

  finish-IsValid :
      (w : World) (sock : ℕ) (input name : Bytes) (r : Ran)
      → IsValid r.server
      → IsValid (finish w sock input name r).server
  unfolding finish propagate
  finish-IsValid w sock input name r v = elim (Bool-cases (should_propagate sock name r)) [
    | inl write ↦ rw write (record {
      db = v.db;
      channels = v.channels;
      clients = v.clients;
      subscribers = v.subscribers;
    })
    | inr other ↦ rw other v
  ]

  run_command-Keeps :
      (w : Worlds) (sock : ℕ) (input : Bytes) (argv : List Bytes) (s : Server)
      → IsValid s
      → Keeps (λ (x : Executor). run_command x w sock input argv s)
  unfolding run_command
  run_command-Keeps w sock input argv s v =
      let (valid, same) =
        run_found-Keeps (find_command (get_or argv 0 []) commands) w sock argv s v in
      (
        finish-IsValid (w []) sock input (get_or argv 0 []) _ valid,
        ap (λ (r : Ran). finish (w []) sock input (get_or argv 0 []) r) same,
      )

  execute_words-Keeps :
      (w : Worlds) (sock : ℕ) (input name : Bytes) (args : List Bytes) (s : Server)
      → IsValid s
      → tokenize_command (w []).tokens input ≡ some (name ∷ args)
      → Keeps (λ (x : Executor). execute_words x w sock input (map tolower name ∷ args) s)
  unfolding execute_words
  execute_words-Keeps w sock input name args s v cut =
      elim (Option-cases (queueing_client (map tolower name) (client_of sock s))) [
        | inl nobody ↦
            rw (nobody, execute_words)
              (run_command-Keeps w sock input (map tolower name ∷ args) s v)
        | inr (c, e) ↦
            let (found, active, no_tx) = queueing_some (map tolower name) (client_of sock s) c e in
            rw (e, execute_words)
              (
                moved-IsValid s v _ (
                    queue_input-HasSessions sock s.clients v.clients (w []).queue c input
                      (found_open sock (get_client_by_socket sock s.clients) c found) active
                      (queueable (w []).tokens input name args cut no_tx)),
                refl,
              )
      ]

  execute_tokens-Keeps :
      (w : Worlds) (sock : ℕ) (input : Bytes) (s : Server) (o : Option (List Bytes))
      → IsValid s
      → tokenize_command (w []).tokens input ≡ o
      → Keeps (λ (x : Executor). execute_tokens x w sock input o s)
  unfolding execute_tokens
  execute_tokens-Keeps w sock input s none v cut = (v, refl)
  execute_tokens-Keeps w sock input s (some []) v cut = (v, refl)
  execute_tokens-Keeps w sock input s (some (name ∷ args)) v cut =
      execute_words-Keeps w sock input name args s v cut

  execute_with-Keeps :
      (w : Worlds) (sock : ℕ) (input : Bytes) (s : Server)
      → IsValid s
      → Keeps (λ (x : Executor). execute_with x w sock input s)
  execute_with-Keeps w sock input s v = elim (Bool-cases (w []).input_copied) [
    | inl copied ↦
        unfold execute_with in
        rw copied
          (execute_tokens-Keeps w sock input s (tokenize_command (w []).tokens input) v refl)
    | inr failed_copy ↦ unfold execute_with in rw failed_copy (v, refl)
  ]

-- `execute_command` keeps the server well formed, whatever the line, the socket and the memory, and
-- however deep its calls may go.
pub execute_command-IsValid :
    (depth : ℕ) (w : Worlds) (sock : ℕ) (input : Bytes) (s : Server)
    → IsValid s
    → IsValid (execute_command depth w sock input s).server
execute_command-IsValid zero w sock input s v = unfold execute_command in v
execute_command-IsValid (suc depth) w sock input s v =
    unfold execute_command in
    (execute_with-Keeps (execute_command depth) (execute_command depth)
      (execute_command-RunsQuietly depth) (record { same = λ w sock input s v may out. refl }) w
      sock input s v).0

-- No command that EXEC runs is EXEC: on a server that is well formed, calls of depth two are as good
-- as calls of any greater depth.
pub execute_command_depth :
    (more : ℕ) (w : Worlds) (sock : ℕ) (input : Bytes) (s : Server)
    → IsValid s
    → execute_command (suc (suc more)) w sock input s ≡ execute_command 2 w sock input s
execute_command_depth more w sock input s v =
    unfold execute_command in
    (execute_with-Keeps (execute_command (suc more)) (execute_command 1)
      (execute_command-RunsQuietly (suc more)) (execute_command-Agrees more 0) w sock input s v).1
