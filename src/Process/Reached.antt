-- ===== src/Process/Reached.antt =====
-- Every state that the process reaches from its start is well formed.
use crimson_cache.Base.{
  ℕ, ◌+◌, ◌≡◌, refl, List, [], ◌∷◌, ◌++◌, Option, ◌⊎◌, none, some, if_either, inl, inr,
  Option-cases,
}
use crimson_cache.CString.{Bytes}
use crimson_cache.PubSub.{Output}
use crimson_cache.Server.{get_client_by_socket}
use crimson_cache.Replication.{
  ReplicaState, state_none, state_connecting, state_sync, state_connected,
}
use crimson_cache.Config.{ConcurrencyModel, threaded, eventloop}
use crimson_cache.Dispatch.{Server, World, Worlds, no_socket}
use crimson_cache.Dispatch.Execute.{execute_command}
use crimson_cache.Dispatch.Valid.{IsValid}
use crimson_cache.Dispatch.Preserve.{execute_command-IsValid}
use crimson_cache.Process.{Process}
use crimson_cache.Process.Follow.{
  Incoming, available, closed, failed, would_block, run_lines, process_buffer, reconnect,
  lose_primary, read_primary, follow_state, replication_thread, split_lines,
}
use crimson_cache.Process.Clients.{
  receive_command, handle_client, handle_client_message, serve_client,
}
use crimson_cache.Process.Steps.{
  Event, accepted, readable, swept, auto_saved, followed, child_ended, signalled, step, CanHappen,
  happens, Reach, here, next,
}
use crimson_cache.Process.Kept.{
  Same-IsValid, cleanup-IsValid, auto_save-IsValid, child-IsValid, signal-IsValid,
  new_connection-IsValid, disconnect-IsValid,
}

pub model-cases : (m : ConcurrencyModel) → (m ≡ threaded) ⊎ (m ≡ eventloop)
model-cases threaded = inl refl
model-cases eventloop = inr refl

receive_command-IsValid :
    (w : Worlds) (fd : ℕ) (incoming : Incoming) (p : Process)
    → IsValid p.server
    → IsValid (receive_command (execute_command 2) w fd incoming p).1.server
unfolding receive_command
receive_command-IsValid w fd (available bs) p v = execute_command-IsValid 2 w fd _ p.server v
receive_command-IsValid w fd closed p v = disconnect-IsValid p v fd
receive_command-IsValid w fd failed p v = disconnect-IsValid p v fd
receive_command-IsValid w fd would_block p v = disconnect-IsValid p v fd

handle_client-IsValid :
    (w : Worlds) (fd : ℕ) (incoming : Incoming) (p : Process)
    → IsValid p.server
    → IsValid (handle_client (execute_command 2) w fd incoming p).1.server
unfolding handle_client
handle_client-IsValid w fd incoming p v = receive_command-IsValid w fd _ p v

handle_client_message-IsValid :
    (w : Worlds) (fd : ℕ) (incoming : Incoming) (p : Process)
    → IsValid p.server
    → IsValid (handle_client_message (execute_command 2) w fd incoming p).1.server
unfolding handle_client_message
handle_client_message-IsValid w fd incoming p v =
    elim (Option-cases (get_client_by_socket fd p.server.clients)) [
      | inl e ↦ rw (e, handle_client_message) v
      | inr (c, e) ↦ rw (e, handle_client_message) (receive_command-IsValid w fd _ p v)
    ]

serve_client-IsValid :
    (w : Worlds) (fd : ℕ) (incoming : Incoming) (p : Process)
    → IsValid p.server
    → IsValid (serve_client (execute_command 2) w fd incoming p).1.server
unfolding serve_client
serve_client-IsValid w fd incoming p v = elim (model-cases p.config.concurrency_model) [
  | inl e ↦ rw (e, serve_client) (handle_client-IsValid w fd incoming p v)
  | inr e ↦ rw (e, serve_client) (handle_client_message-IsValid w fd incoming p v)
]

run_lines-IsValid :
    (w : ℕ → Worlds) (k position : ℕ) (lines : List Bytes) (s : Server)
    → IsValid s
    → IsValid (run_lines (execute_command 2) w k position lines s).1
unfolding run_lines
run_lines-IsValid w k position [] s v = v
run_lines-IsValid w k position ([] ∷ lines) s v =
    run_lines-IsValid w (k + 1) _ lines _ (Same-IsValid s _ v (refl, refl, refl))
run_lines-IsValid w k position ((c ∷ line) ∷ lines) s v =
    let first = execute_command-IsValid 2 (w k) no_socket (c ∷ line) s v in
    run_lines-IsValid w (k + 1) _ lines _ (Same-IsValid _ _ first (refl, refl, refl))

reconnect-IsValid : (w : World) (p : Process) → IsValid p.server → IsValid (reconnect w p).1.server
unfolding reconnect
reconnect-IsValid w p v = Same-IsValid p.server _ v (refl, refl, refl)

read_primary-IsValid :
    (w : ℕ → Worlds) (incoming : Incoming) (p : Process)
    → IsValid p.server
    → IsValid (read_primary (execute_command 2) w incoming p).1.server
unfolding read_primary process_buffer lose_primary
read_primary-IsValid w (available bs) p v =
    Same-IsValid _ _ (run_lines-IsValid w 0 0 (split_lines [] (p.pending ++ bs)).0 p.server v)
      (refl, refl, refl)
read_primary-IsValid w would_block p v = v
read_primary-IsValid w closed p v =
    reconnect-IsValid (w 0 []) _ (Same-IsValid p.server _ v (refl, refl, refl))
read_primary-IsValid w failed p v =
    reconnect-IsValid (w 0 []) _ (Same-IsValid p.server _ v (refl, refl, refl))

fd_either :
    (o : Option ℕ) (x y : Output × Process)
    → IsValid x.1.server
    → IsValid y.1.server
    → IsValid (elim o as (λ _. Output × Process) [ none ↦ x | some fd ↦ y ]).1.server
fd_either none x y v w = v
fd_either (some fd) x y v w = w

follow_state-IsValid :
    (w : ℕ → Worlds) (incoming : Incoming) (state : ReplicaState) (p : Process)
    → IsValid p.server
    → IsValid (follow_state (execute_command 2) w incoming state p).1.server
unfolding follow_state
follow_state-IsValid w incoming state_none p v = v
follow_state-IsValid w incoming state_connecting p v =
    fd_either p.server.repl.primary_fd (reconnect (w 0 []) p) ([], p)
      (reconnect-IsValid (w 0 []) p v) v
follow_state-IsValid w incoming state_sync p v = read_primary-IsValid w _ p v
follow_state-IsValid w incoming state_connected p v = read_primary-IsValid w _ p v

replication_thread-IsValid :
    (w : ℕ → Worlds) (incoming : Incoming) (p : Process)
    → IsValid p.server
    → IsValid (replication_thread (execute_command 2) w incoming p).1.server
unfolding replication_thread
replication_thread-IsValid w incoming p v =
    let unread : Output × Process = ([], p) in
    let after = follow_state (execute_command 2) w incoming p.server.repl.state p in
    if_either (λ (r : Output × Process). IsValid r.1.server) p.server.repl.is_primary {x = unread}
      {y = after} v (follow_state-IsValid w incoming p.server.repl.state p v)

-- Every step of the process keeps its server well formed.
step-IsValid :
    (e : Event) (p : Process) → IsValid p.server → CanHappen e p → IsValid (step e p).1.server
unfolding step
step-IsValid (accepted granted fd) p v (opened, fresh) =
    new_connection-IsValid p v granted fd opened fresh
step-IsValid (readable w fd incoming) p v h = serve_client-IsValid w fd incoming p v
step-IsValid (swept now) p v h = cleanup-IsValid p v now
step-IsValid (auto_saved files now save_now) p v h = auto_save-IsValid p v files now save_now
step-IsValid (followed w incoming) p v h = replication_thread-IsValid w incoming p v
step-IsValid (child_ended files now n) p v h = child-IsValid p v files now n
step-IsValid (signalled sig) p v h = signal-IsValid p v sig

-- Whatever happens, in whatever order, the server stays well formed: the database, the client list and
-- the channels, where no subscriber is a client that is gone.
pub Reach-IsValid : {p q : Process} → IsValid p.server → Reach p q → IsValid q.server
Reach-IsValid v here = v
Reach-IsValid v (next {p = r} way (happens e may)) = step-IsValid e r (Reach-IsValid v way) may
