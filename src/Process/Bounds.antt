-- ===== src/Process/Bounds.antt =====
-- The buffer of the replication thread is never written past its end.
use crimson_cache.Base.{
  ℕ, ◌+◌, ◌-◌, ◌≤◌, ◌<◌, ◌≡◌, refl, sym, ap, subst, ◌∙◌, Bool, [], ◌++◌, Option, none, some, arith,
  if_either, get_elem?, length, length-append, inl, inr, Option-cases,
}
use crimson_cache.CString.{Bytes}
use crimson_cache.Number.{ℤ, pos, negsuc}
use crimson_cache.Config.{ServerConfig, ConcurrencyModel, threaded, eventloop}
use crimson_cache.Replication.{
  ReplicaState, state_none, state_connecting, state_sync, state_connected,
}
use crimson_cache.PubSub.{Output}
use crimson_cache.Dispatch.{Worlds, Executor}
use crimson_cache.Transaction.{Client}
use crimson_cache.Server.{get_client_by_socket}
use crimson_cache.Persistence.Save.{FileSystem}
use crimson_cache.Dispatch.Execute.{execute_command}
use crimson_cache.Process.{Process, handle_signal, cleanup_expired_keys, auto_save_thread}
use crimson_cache.Process.Follow.{
  Incoming, available, closed, failed, would_block, room, recv, process_buffer, reconnect,
  lose_primary, read_primary, follow_state, replication_thread,
}
use crimson_cache.Process.Clients.{
  handle_new_connection, disconnect, receive_command, handle_client, handle_client_message,
  serve_client,
}
use crimson_cache.Process.Steps.{
  finish_child, Event, accepted, readable, swept, auto_saved, followed, child_ended, signalled,
  step, happens, Reach, here, next,
}
use crimson_cache.Process.Lengths.{length-split_lines, received, length-recv}

-- A buffer of `size` bytes, with room for the NUL behind what is pending.
pub record Fits (size : ℕ) (p : Process) : Type 0 where
  pub is_size : p.config.buffer_size ≡ pos size
  pub bounded : length p.pending < size

abbrev Unread : Process → Process → Type 0
Unread p q = (q.config ≡ p.config) × (q.pending ≡ p.pending)

Unread-Fits : {size : ℕ} (p q : Process) → Fits size p → Unread p q → Fits size q
Unread-Fits {size} p q f (config, pending) = record {
  is_size = ap (λ (c : ServerConfig). c.buffer_size) config ∙ f.is_size;
  bounded = subst (λ (bs : Bytes). length bs < size) (sym pending) f.bounded;
}

-- What is received, behind what is pending and with the NUL, lies within the buffer.
received_bounded :
    {size : ℕ} (p : Process) (f : Fits size p) (incoming : Incoming)
    → length p.pending + length (received (recv (room p.config (length p.pending)) incoming)) + 1
      ≤ size
received_bounded {size} p f incoming =
    let n = length-recv (room p.config (length p.pending)) incoming in
    let space : room p.config (length p.pending) ≡ size - length p.pending - 1 =
      ap (λ (z : ℤ). elim z as (λ _. ℕ) [ pos size ↦ size - length p.pending - 1 | negsuc m ↦ 0 ])
        f.is_size in
    omega (arith, n, space, f.bounded)

fd_either :
    (size : ℕ) (o : Option ℕ) (x y : Output × Process)
    → Fits size x.1
    → Fits size y.1
    → Fits size (elim o as (λ _. Output × Process) [ none ↦ x | some fd ↦ y ]).1
fd_either size none x y v w = v
fd_either size (some fd) x y v w = w

module _ (run : Executor) (w : ℕ → Worlds) where
  read_primary-Fits :
      {size : ℕ} (incoming : Incoming) (p : Process) (f : Fits size p)
      → length p.pending + length (received incoming) + 1 ≤ size
      → Fits size (read_primary run w incoming p).1
  unfolding read_primary process_buffer lose_primary reconnect
  read_primary-Fits (available bs) p f h = record {
    is_size = f.is_size;
    bounded = omega (arith, length-split_lines (p.pending ++ bs) [], length-append p.pending bs, h);
  }
  read_primary-Fits closed p f h = Unread-Fits p _ f (refl, refl)
  read_primary-Fits failed p f h = Unread-Fits p _ f (refl, refl)
  read_primary-Fits would_block p f h = f

  follow_state-Fits :
      {size : ℕ} (incoming : Incoming) (state : ReplicaState) (p : Process)
      → Fits size p
      → Fits size (follow_state run w incoming state p).1
  unfolding follow_state reconnect
  follow_state-Fits incoming state_none p f = f
  follow_state-Fits {size} incoming state_connecting p f =
      fd_either size p.server.repl.primary_fd (reconnect (w 0 []) p) ([], p)
        (Unread-Fits p _ f (refl, refl)) f
  follow_state-Fits incoming state_sync p f =
      read_primary-Fits _ p f (received_bounded p f incoming)
  follow_state-Fits incoming state_connected p f =
      read_primary-Fits _ p f (received_bounded p f incoming)

  replication_thread-Fits :
      {size : ℕ} (incoming : Incoming) (p : Process)
      → Fits size p
      → Fits size (replication_thread run w incoming p).1
  unfolding replication_thread
  replication_thread-Fits {size} incoming p f =
      let unread : Output × Process = ([], p) in
      let after = follow_state run w incoming p.server.repl.state p in
      if_either (λ (r : Output × Process). Fits size r.1) p.server.repl.is_primary {x = unread}
        {y = after} f (follow_state-Fits incoming p.server.repl.state p f)

receive_command-Unread :
    (run : Executor) (w : Worlds) (fd : ℕ) (incoming : Incoming) (p : Process)
    → Unread p (receive_command run w fd incoming p).1
unfolding receive_command disconnect
receive_command-Unread run w fd (available bs) p = (refl, refl)
receive_command-Unread run w fd closed p = (refl, refl)
receive_command-Unread run w fd failed p = (refl, refl)
receive_command-Unread run w fd would_block p = (refl, refl)

client_either :
    (p : Process) (o : Option Client) (x : Output × Process)
    → Unread p x.1
    → Unread p (elim o as (λ _. Output × Process) [ none ↦ ([], p) | some c ↦ x ]).1
client_either p none x u = (refl, refl)
client_either p (some c) x u = u

model_either :
    (p : Process) (m : ConcurrencyModel) (x y : Output × Process)
    → Unread p x.1
    → Unread p y.1
    → Unread p (elim m as (λ _. Output × Process) [ threaded ↦ x | eventloop ↦ y ]).1
model_either p threaded x y u v = u
model_either p eventloop x y u v = v

serve_client-Unread :
    (run : Executor) (w : Worlds) (fd : ℕ) (incoming : Incoming) (p : Process)
    → Unread p (serve_client run w fd incoming p).1
unfolding serve_client handle_client handle_client_message
serve_client-Unread run w fd incoming p =
    let given = receive_command-Unread run w fd (recv (room p.config 0) incoming) p in
    model_either p p.config.concurrency_model (handle_client run w fd incoming p)
      (handle_client_message run w fd incoming p) given
      (client_either p (get_client_by_socket fd p.server.clients) _ given)

-- The other steps leave the buffer alone.
child-Unread :
    (p : Process) (files : FileSystem) (now n : ℕ) → Unread p (finish_child files now n p)
unfolding finish_child
child-Unread p files now n = elim (Option-cases (get_elem? p.server.children n)) [
  | inl e ↦ rw (e, finish_child) (refl, refl)
  | inr (db, e) ↦ rw (e, finish_child) (refl, refl)
]

step-Unread :
    (p : Process)
    → ((granted : Bool) (fd : ℕ) → Unread p (handle_new_connection granted fd p))
      × ((now : ℕ) → Unread p (cleanup_expired_keys now p))
      × ((files : FileSystem) (now save_now : ℕ) → Unread p (auto_save_thread files now save_now p))
      × ((files : FileSystem) (now n : ℕ) → Unread p (finish_child files now n p))
      × ((sig : ℕ) → Unread p (handle_signal sig p))
unfolding handle_new_connection cleanup_expired_keys auto_save_thread finish_child handle_signal
step-Unread p = (
  λ granted fd. (ground arith, ground arith),
  λ now. (refl, refl),
  λ files now save_now. (ground arith, ground arith),
  λ files now n. child-Unread p files now n,
  λ sig. (ground arith, ground arith),
)

step-Fits : {size : ℕ} (e : Event) (p : Process) → Fits size p → Fits size (step e p).1
unfolding step
step-Fits (accepted granted fd) p f = Unread-Fits p _ f ((step-Unread p).0 granted fd)
step-Fits (readable w fd incoming) p f =
    Unread-Fits p _ f (serve_client-Unread (execute_command 2) w fd incoming p)
step-Fits (swept now) p f = Unread-Fits p _ f ((step-Unread p).1 now)
step-Fits (auto_saved files now save_now) p f =
    Unread-Fits p _ f ((step-Unread p).2 files now save_now)
step-Fits (followed w incoming) p f = replication_thread-Fits (execute_command 2) w incoming p f
step-Fits (child_ended files now n) p f = Unread-Fits p _ f ((step-Unread p).3 files now n)
step-Fits (signalled sig) p f = Unread-Fits p _ f ((step-Unread p).4 sig)

Reach-Fits : {size : ℕ} {p q : Process} → Fits size p → Reach p q → Fits size q
Reach-Fits f here = f
Reach-Fits f (next {p = r} way (happens e may)) = step-Fits e r (Reach-Fits f way)

-- From a start with an empty buffer, whatever happens, what the next read of the replication thread
-- stores behind the bytes that are pending, with the NUL behind it, lies within `buffer_size` bytes.
pub Reach-received_bounded :
    (p q : Process) (size : ℕ) (incoming : Incoming)
    → p.config.buffer_size ≡ pos size
    → 0 < size
    → p.pending ≡ []
    → Reach p q
    → length q.pending + length (received (recv (room q.config (length q.pending)) incoming)) + 1
      ≤ size
Reach-received_bounded p q size incoming is_size some_room empty way =
    let start : Fits size p = record {
      is_size = is_size;
      bounded = subst (λ (bs : Bytes). length bs < size) (sym empty) some_room;
    } in
    received_bounded q (Reach-Fits start way) incoming
