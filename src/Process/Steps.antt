-- ===== src/Process/Steps.antt =====
-- What can happen to the process, one round of one thread at a time.
use crimson_cache.Base.{ℕ, zero, suc, Bool, true, List, [], ◌∷◌, none, some, ◌≡◌, get_elem?}
use crimson_cache.PubSub.{Output}
use crimson_cache.Dict.Defs.{Dict}
use crimson_cache.Persistence.Save.{FileSystem, save_rdb_to_file}
use crimson_cache.Server.{get_client_by_socket}
use crimson_cache.Dispatch.{Worlds, is_open}
use crimson_cache.Dispatch.Execute.{execute_command}
use crimson_cache.Process.{Process, handle_signal, cleanup_expired_keys, auto_save_thread}
use crimson_cache.Process.Follow.{Incoming, replication_thread}
use crimson_cache.Process.Clients.{handle_new_connection, serve_client}

abbrev removed : ℕ → List Dict → List Dict
removed n [] = []
removed zero (d ∷ ds) = ds
removed (suc n) (d ∷ ds) = d ∷ removed n ds

-- The child process of a BGSAVE saves its copy, and ends.
unfoldable pub finish_child : FileSystem → ℕ → ℕ → Process → Process
finish_child files now n p =
    let s = p.server in
    elim (get_elem? s.children n) [
      | none ↦ p
      | some db ↦ record p {
        server = record s {
          dump = (save_rdb_to_file files now db s.dump).1;
          children = removed n s.children;
        };
      }
    ]

-- A connection is accepted, a socket of a client can be read, a round of each of the background
-- threads, the end of a child, a signal.
pub data Event : Type 0 where
  accepted : Bool → ℕ → Event
  readable : Worlds → ℕ → Incoming → Event
  swept : ℕ → Event
  auto_saved : FileSystem → ℕ → ℕ → Event
  followed : (ℕ → Worlds) → Incoming → Event
  child_ended : FileSystem → ℕ → ℕ → Event
  signalled : ℕ → Event

-- Commands run with calls two deep.
unfoldable pub step : Event → Process → Output × Process
step (accepted granted fd) p = ([], handle_new_connection granted fd p)
step (readable w fd incoming) p = serve_client (execute_command 2) w fd incoming p
step (swept now) p = ([], cleanup_expired_keys now p)
step (auto_saved files now save_now) p = ([], auto_save_thread files now save_now p)
step (followed w incoming) p = replication_thread (execute_command 2) w incoming p
step (child_ended files now n) p = ([], finish_child files now n p)
step (signalled sig) p = ([], handle_signal sig p)

-- A socket that `accept` returns is open, and is that of no client.
abbrev pub CanHappen : Event → Process → Type 0
CanHappen (accepted granted fd) p =
    (is_open fd ≡ true) × (get_client_by_socket fd p.server.clients ≡ none)
CanHappen _ p = Unit

-- Any step may be next; also once the server is to stop, as rounds that have begun go on to their end.
pub data Step (p : Process) : Process → Type 0 where
  happens : (e : Event) → CanHappen e p → Step p (step e p).1

pub data Reach (start : Process) : Process → Type 0 where
  here : Reach start start
  next : {p q : Process} → Reach start p → Step p q → Reach start q
