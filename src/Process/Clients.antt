-- ===== src/Process/Clients.antt =====
-- The connections of clients: `run_threaded_server` and `handle_client` of src/main.c,
-- `handle_new_connection` and `handle_client_message` of src/eventloop.c.
use crimson_cache.Base.{ℕ, Bool, [], none, some, if◌then◌else◌}
use crimson_cache.PubSub.{Output, pubsub_remove_client}
use crimson_cache.Transaction.{tx_init}
use crimson_cache.Server.{register_client, unregister_client, get_client_by_socket}
use crimson_cache.Persistence.Format.{until_nul}
use crimson_cache.Config.{threaded, eventloop}
use crimson_cache.Dispatch.{Worlds, Executor}
use crimson_cache.Process.{Process}
use crimson_cache.Process.Follow.{Incoming, available, room, recv}

-- The new client is registered by its thread, or by the event loop; `granted` is that memory, the
-- thread or the entry in the set of `epoll` could be had.
unfoldable pub handle_new_connection : Bool → ℕ → Process → Process
handle_new_connection granted fd p =
    let s = p.server in
    if granted
    then record p { server = record s { clients = register_client (tx_init fd) s.clients } }
    else p

unfoldable pub disconnect : ℕ → Process → Process
disconnect fd p =
    let s = p.server in
    record p {
      server = record s {
        channels = pubsub_remove_client fd s.channels;
        clients = unregister_client fd s.clients;
      };
    }

-- What one `recv` returns is one command.
unfoldable pub receive_command : Executor → Worlds → ℕ → Incoming → Process → Output × Process
receive_command run w fd (available bs) p =
    let r = run w fd (until_nul bs) p.server in (r.sent, record p { server = r.server })
receive_command run w fd incoming p = ([], disconnect fd p)

-- A round of the loop of a client's thread.
unfoldable pub handle_client : Executor → Worlds → ℕ → Incoming → Process → Output × Process
handle_client run w fd incoming p = receive_command run w fd (recv (room p.config 0) incoming) p

-- A client that has no slot is closed.
unfoldable pub handle_client_message : Executor → Worlds → ℕ → Incoming → Process → Output × Process
handle_client_message run w fd incoming p = elim (get_client_by_socket fd p.server.clients) [
  | none ↦ ([], p)
  | some client ↦ receive_command run w fd (recv (room p.config 0) incoming) p
]

-- One message, as the configured model handles it.
unfoldable pub serve_client : Executor → Worlds → ℕ → Incoming → Process → Output × Process
serve_client run w fd incoming p = elim p.config.concurrency_model [
  | threaded ↦ handle_client run w fd incoming p
  | eventloop ↦ handle_client_message run w fd incoming p
]
