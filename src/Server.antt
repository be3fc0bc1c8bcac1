-- ===== src/Server.antt =====
-- src/main.c: the list of the connected clients.
pub mod Clients
use crimson_cache.Base.{
  ℕ, Bool, true, false, List, [], ◌∷◌, Option, none, some, ◌==◌, if◌then◌else◌,
}
use crimson_cache.Transaction.{Client}

-- `client_list`, with `none` for NULL; its length is `config.max_clients`. Clients that are connected
-- at one time have different sockets, so that a pointer to a client is known by its socket.
abbrev pub Slots : Type 0
Slots = List (Option Client)

-- The first empty slot is taken; where there is none the client is not entered.
unfoldable pub register_client : Client → Slots → Slots
register_client client [] = []
register_client client (none ∷ slots) = some client ∷ slots
register_client client (some c ∷ slots) = some c ∷ register_client client slots

-- The slot of the client; what `tx_cleanup` does to it is seen by nobody else.
unfoldable pub unregister_client : ℕ → Slots → Slots
unregister_client socket [] = []
unregister_client socket (none ∷ slots) = none ∷ unregister_client socket slots
unregister_client socket (some c ∷ slots) =
    if c.socket == socket then none ∷ slots else some c ∷ unregister_client socket slots

unfoldable pub get_client_by_socket : ℕ → Slots → Option Client
get_client_by_socket socket [] = none
get_client_by_socket socket (none ∷ slots) = get_client_by_socket socket slots
get_client_by_socket socket (some c ∷ slots) =
    if c.socket == socket then some c else get_client_by_socket socket slots

-- Writing through the pointer that `get_client_by_socket` returns.
unfoldable pub put_client : Client → Slots → Slots
put_client client [] = []
put_client client (none ∷ slots) = none ∷ put_client client slots
put_client client (some c ∷ slots) =
    if c.socket == client.socket then some client ∷ slots else some c ∷ put_client client slots
