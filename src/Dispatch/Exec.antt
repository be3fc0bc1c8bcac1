-- ===== src/Dispatch/Exec.antt =====
-- EXEC: its commands run as they would one after the other outside the transaction.
use crimson_cache.Base.{
  ℕ, zero, suc, ◌≡◌, refl, sym, ap, subst, ◌∙◌, true, false, ◌&&◌, List, [], ◌∷◌, ◌++◌, Option,
  none, some, arith, ◌==◌, if◌then◌else◌, length, All, inl, inr, Bool-cases, Option-cases,
}
use crimson_cache.CString.{Bytes}
use crimson_cache.PubSub.{Output}
use crimson_cache.Transaction.{Client, tx_cleanup}
use crimson_cache.Server.{Slots, get_client_by_socket, put_client}
use crimson_cache.Server.Clients.{put_client_lem, found-socket}
use crimson_cache.Dispatch.{Server, Worlds, below, Ran, Executor, is_open}
use crimson_cache.Dispatch.Handlers.{
  all_copied, run_each, tx_execute_commands, close_block, exec_command,
}
use crimson_cache.Dispatch.Execute.{client_of, in_transaction, execute_command}
use crimson_cache.Dispatch.Valid.{
  IsQueueable, IsValid, HasSessions, AreKnown, moved-IsValid, replaced-HasSessions,
  cleaned-IsSession,
}
use crimson_cache.Dispatch.Quiet.{IsQuiet}
use crimson_cache.Dispatch.Quiet.Lines.{execute_with-IsQuiet}

-- What runs queued commands quietly.
pub record RunsQuietly (run : Executor) : Type 0 where
  pub quiet :
      (w : Worlds) (sock : ℕ) (input : Bytes) (s : Server)
      → IsValid s
      → IsQueueable input
      → in_transaction (client_of sock s) ≡ false
      → IsQuiet s (run w sock input s)

pub execute_command-RunsQuietly : (depth : ℕ) → RunsQuietly (execute_command depth)
unfolding execute_command
execute_command-RunsQuietly zero = record {
  quiet = λ w sock input s v may out. record { valid = v; same = refl };
}
execute_command-RunsQuietly (suc depth) = record {
  quiet = λ w sock input s v may out.
      (execute_with-IsQuiet (execute_command depth) w sock input s v may out).0;
}

same_client :
    (sock : ℕ) (s s' : Server)
    → s'.clients ≡ s.clients
    → in_transaction (client_of sock s) ≡ false
    → in_transaction (client_of sock s') ≡ false
same_client sock s s' same out =
    ap
      (λ (slots : Slots).
        in_transaction (if is_open sock then get_client_by_socket sock slots else none))
      same
    ∙ out

-- Two ways to run queued commands that do the same.
pub record Agrees (run run' : Executor) : Type 0 where
  pub same :
      (w : Worlds) (sock : ℕ) (input : Bytes) (s : Server)
      → IsValid s
      → IsQueueable input
      → in_transaction (client_of sock s) ≡ false
      → run w sock input s ≡ run' w sock input s

-- However deep the calls may go from a queued command, it does the same.
pub execute_command-Agrees :
    (depth depth' : ℕ) → Agrees (execute_command (suc depth)) (execute_command (suc depth'))
unfolding execute_command
execute_command-Agrees depth depth' = record {
  same = λ w sock input s v may out.
      (execute_with-IsQuiet (execute_command depth) w sock input s v may out).1
        (execute_command depth');
}

module _ (run : Executor) (q : RunsQuietly run) where
  -- The commands of a queue leave the client list.
  run_each_lem :
      (w : Worlds) (sock : ℕ) (cmds : List Bytes) (s : Server)
      → IsValid s
      → All IsQueueable cmds
      → in_transaction (client_of sock s) ≡ false
      → IsValid (run_each run w sock cmds s).1
        × ((run_each run w sock cmds s).1.clients ≡ s.clients)
  unfolding run_each
  run_each_lem w sock [] s v a out = (v, refl)
  run_each_lem w sock (cmd ∷ cmds) s v (may, a) out =
      let first = q.quiet (below (length cmds) w) sock cmd s v may out in
      let s' = (run (below (length cmds) w) sock cmd s).server in
      let (valid, same) =
        run_each_lem w sock cmds s' first.valid a (same_client sock s s' first.same out) in
      (valid, same ∙ first.same)

  pub run_each-Agrees :
      (run' : Executor) (a : Agrees run run') (w : Worlds) (sock : ℕ) (cmds : List Bytes)
      (s : Server)
      → IsValid s
      → All IsQueueable cmds
      → in_transaction (client_of sock s) ≡ false
      → run_each run w sock cmds s ≡ run_each run' w sock cmds s
  unfolding run_each
  run_each-Agrees run' a w sock [] s v may out = refl
  run_each-Agrees run' a w sock (cmd ∷ cmds) s v (first_may, may) out =
      let w' = below (length cmds) w in
      let first = q.quiet w' sock cmd s v first_may out in
      let r = run w' sock cmd s in
      let rest =
        run_each-Agrees run' a w sock cmds r.server first.valid may
          (same_client sock s r.server first.same out) in
      ap (λ (after : Output × Server). (r.sent ++ after.0, after.1)) rest
      ∙ ap
          (λ (r : Ran). (
            r.sent ++ (run_each run' w sock cmds r.server).0,
            (run_each run' w sock cmds r.server).1,
          ))
          (a.same w' sock cmd s v first_may out)

if_same {ℓ} : {A : Type ℓ} (n m : ℕ) (x y : A) → n ≡ m → (if n == m then x else y) ≡ x
if_same n m x y e = ground arith

if_open :
    (sock : ℕ) (o : Option Client) (c : Client)
    → o ≡ some c
    → c.in_transaction ≡ false
    → in_transaction (if is_open sock then o else none) ≡ false
if_open sock o c e idle = rw e (elim (Bool-cases (is_open sock)) [
  | inl yes_open ↦ rw yes_open idle
  | inr not_open ↦ rw not_open refl
])

module _ (s : Server) (sock : ℕ) (c : Client) (v : IsValid s)
    (e : get_client_by_socket sock s.clients ≡ some c) where
  abbrev pub after : Slots
  after = put_client (tx_cleanup c) s.clients

  pub cleaned-IsValid : IsValid (record s { clients = after })
  unfolding tx_cleanup
  cleaned-IsValid = moved-IsValid s v after (
      replaced-HasSessions sock s.clients v.clients c (tx_cleanup c) e refl
        (cleaned-IsSession sock s.clients v.clients c (v.clients.each sock c e)))

  cleaned_found : get_client_by_socket sock after ≡ some (tx_cleanup c)
  unfolding tx_cleanup
  cleaned_found =
      let (home, there) = found-socket sock s.clients c e in
      let found =
        (put_client_lem (tx_cleanup c) c s.clients v.clients.apart
            (ap (λ (n : ℕ). get_client_by_socket n s.clients) home ∙ e)).1
          sock in
      found ∙ if_same c.socket sock _ _ home

  pub cleaned_idle : in_transaction (client_of c.socket (record s { clients = after })) ≡ false
  unfolding tx_cleanup
  cleaned_idle =
      let (home, there) = found-socket sock s.clients c e in
      let found = ap (λ (n : ℕ). get_client_by_socket n after) home ∙ cleaned_found in
      if_open c.socket (get_client_by_socket c.socket after) (tx_cleanup c) found refl

  -- Every way through EXEC takes the client out of the transaction, and nobody else.
  pub tx_execute_commands_lem :
      (run : Executor) (q : RunsQuietly run) (w : Worlds)
      → IsValid (tx_execute_commands run w c s).1
        × ((tx_execute_commands run w c s).1.clients ≡ after)
  unfolding tx_execute_commands tx_cleanup
  tx_execute_commands_lem run q w = elim (Bool-cases c.transaction_errors) [
    | inl bad ↦ rw bad (cleaned-IsValid, refl)
    | inr fine ↦
        elim (Bool-cases
          ((w []).array_granted && all_copied (w []).copies_granted c.queued_commands)) [
            | inr full ↦ rw (fine, full) (cleaned-IsValid, refl)
            | inl room ↦
                rw (fine, room)
                  (run_each_lem run q w c.socket c.queued_commands (record s { clients = after })
                    cleaned-IsValid (v.clients.each sock c e).queued cleaned_idle)
          ]
  ]

  tx_execute_commands-Agrees :
      (run run' : Executor) (q : RunsQuietly run) (a : Agrees run run') (w : Worlds)
      → tx_execute_commands run w c s ≡ tx_execute_commands run' w c s
  unfolding tx_execute_commands tx_cleanup
  tx_execute_commands-Agrees run run' q a w =
      rw
        (run_each-Agrees run q run' a w c.socket c.queued_commands (record s { clients = after })
          cleaned-IsValid (v.clients.each sock c e).queued cleaned_idle)
        refl

  pub close_block_idle : close_block sock after ≡ after
  unfolding close_block tx_cleanup
  close_block_idle = rw (cleaned_found, close_block) refl

  pub exec_some :
      (run : Executor) (w : Worlds)
      → c.in_transaction ≡ true
      → (exec_command run w sock s).server ≡ (
          let s' = (tx_execute_commands run w c s).1 in
          record s' { clients = close_block sock s'.clients })
  unfolding exec_command
  exec_some run w active = rw (e, exec_command, active) refl

pub exec_command-Agrees :
    (run run' : Executor) (q : RunsQuietly run) (a : Agrees run run') (w : Worlds) (sock : ℕ)
    (s : Server)
    → IsValid s
    → exec_command run w sock s ≡ exec_command run' w sock s
unfolding exec_command
exec_command-Agrees run run' q a w sock s v =
    elim (Option-cases (get_client_by_socket sock s.clients)) [
      | inl e ↦ rw (e, exec_command) refl
      | inr (c, e) ↦
          rw (e, exec_command, tx_execute_commands-Agrees s sock c v e run run' q a w) refl
    ]

pub exec_command-IsValid :
    (run : Executor) (q : RunsQuietly run) (w : Worlds) (sock : ℕ) (s : Server)
    → IsValid s
    → IsValid (exec_command run w sock s).server
exec_command-IsValid run q w sock s v = elim (Option-cases (get_client_by_socket sock s.clients)) [
  | inl e ↦ unfold exec_command in rw (e, exec_command) v
  | inr (c, e) ↦ elim (Bool-cases c.in_transaction) [
    | inr idle ↦ unfold exec_command in rw (e, exec_command, idle) v
    | inl active ↦
        let (valid, same) = tx_execute_commands_lem s sock c v e run q w in
        let s' = (tx_execute_commands run w c s).1 in
        let closed : close_block sock s'.clients ≡ s'.clients =
          ap (λ (cs : Slots). close_block sock cs) same
          ∙ close_block_idle s sock c v e
          ∙ sym same in
        rw (exec_some s sock c v e run w active) (record {
          db = valid.db;
          channels = valid.channels;
          clients = subst (λ cs. HasSessions cs) (sym closed) valid.clients;
          subscribers = subst (λ cs. AreKnown s'.channels cs) (sym closed) valid.subscribers;
        })
  ]
]
