-- ===== src/Server/Clients.antt =====
-- The client list as a map from sockets to clients.
use crimson_cache.Base.{
  ℕ, ◌+◌, ◌≤◌, ◌≡◌, refl, Bool, true, false, ◌&&◌, [], ◌∷◌, none, some, arith, ◌==◌, leb,
  if◌then◌else◌,
}
use crimson_cache.Transaction.{Client}
use crimson_cache.Server.{
  Slots, register_client, unregister_client, get_client_by_socket, put_client,
}

-- How many clients have a socket.
unfoldable pub with_socket : ℕ → Slots → ℕ
with_socket socket [] = 0
with_socket socket (none ∷ slots) = with_socket socket slots
with_socket socket (some c ∷ slots) =
    (if c.socket == socket then 1 else 0) + with_socket socket slots

abbrev pub has_free_slot : Slots → Bool
has_free_slot [] = false
has_free_slot (none ∷ slots) = true
has_free_slot (some c ∷ slots) = has_free_slot slots

-- No two clients have one socket.
pub record IsValid (slots : Slots) : Type 0 where
  pub apart : (socket : ℕ) → with_socket socket slots ≤ 1

get-eq-none :
    (socket : ℕ) (slots : Slots)
    → with_socket socket slots ≡ 0
    → get_client_by_socket socket slots ≡ none
unfolding with_socket get_client_by_socket
get-eq-none socket [] h = refl
get-eq-none socket (none ∷ slots) h = get-eq-none socket slots h
get-eq-none socket (some c ∷ slots) h = ground (arith, get-eq-none socket slots)

with_socket-eq-zero :
    (socket : ℕ) (slots : Slots)
    → get_client_by_socket socket slots ≡ none
    → with_socket socket slots ≡ 0
unfolding with_socket get_client_by_socket
with_socket-eq-zero socket [] h = refl
with_socket-eq-zero socket (none ∷ slots) h = with_socket-eq-zero socket slots h
with_socket-eq-zero socket (some c ∷ slots) h = ground (arith, with_socket-eq-zero socket slots)

get-register :
    (client : Client) (socket : ℕ) (slots : Slots)
    → with_socket client.socket slots ≡ 0
    → (get_client_by_socket socket (register_client client slots) ≡ (
        if has_free_slot slots && client.socket == socket
        then some client
        else get_client_by_socket socket slots))
      × (with_socket socket (register_client client slots)
          ≡ with_socket socket slots
            + (if has_free_slot slots && client.socket == socket then 1 else 0))
unfolding register_client with_socket get_client_by_socket
get-register client socket [] h = (refl, omega arith)
get-register client socket (none ∷ slots) h = (ground arith, ground arith)
get-register client socket (some c ∷ slots) h = (
  ground (arith, get-register client socket slots),
  ground (arith, get-register client socket slots),
)

get-unregister :
    (gone socket : ℕ) (slots : Slots)
    → with_socket socket slots ≤ 1
    → (get_client_by_socket socket (unregister_client gone slots)
        ≡ (if gone == socket then none else get_client_by_socket socket slots))
      × (with_socket socket (unregister_client gone slots) ≤ with_socket socket slots)
unfolding unregister_client with_socket get_client_by_socket
get-unregister gone socket [] h = (ground arith, omega arith)
get-unregister gone socket (none ∷ slots) h = get-unregister gone socket slots h
get-unregister gone socket (some c ∷ slots) h = (
  ground (arith, get-unregister gone socket slots, get-eq-none socket slots),
  ground (arith, get-unregister gone socket slots),
)

get-put :
    (client : Client) (socket : ℕ) (slots : Slots)
    → (get_client_by_socket socket (put_client client slots) ≡ (
        if client.socket == socket && leb 1 (with_socket client.socket slots)
        then some client
        else get_client_by_socket socket slots))
      × (with_socket socket (put_client client slots) ≡ with_socket socket slots)
unfolding put_client with_socket get_client_by_socket
get-put client socket [] = (ground arith, refl)
get-put client socket (none ∷ slots) = get-put client socket slots
get-put client socket (some c ∷ slots) =
    (ground (arith, get-put client socket slots), ground (arith, get-put client socket slots))

-- A client whose socket is new is found by it after `register_client` if a slot is free; all others
-- are found as before, and no two clients have one socket.
pub register_client_lem :
    (client : Client) (slots : Slots)
    → IsValid slots
    → get_client_by_socket client.socket slots ≡ none
    → IsValid (register_client client slots)
      × ((socket : ℕ)
          → get_client_by_socket socket (register_client client slots) ≡ (
              if has_free_slot slots && client.socket == socket
              then some client
              else get_client_by_socket socket slots))
register_client_lem client slots v fresh =
    let nobody = with_socket-eq-zero client.socket slots fresh in
    (
      record {
        apart = λ q. ground (
          arith,
          v.apart q,
          with_socket-eq-zero client.socket slots,
          (get-register client q slots nobody).1,
        );
      },
      λ q. (get-register client q slots nobody).0,
    )

-- After `unregister_client` the client is not found, and all others are found as before.
pub unregister_client_lem :
    (gone : ℕ) (slots : Slots)
    → IsValid slots
    → IsValid (unregister_client gone slots)
      × ((socket : ℕ)
          → get_client_by_socket socket (unregister_client gone slots)
            ≡ (if gone == socket then none else get_client_by_socket socket slots))
unregister_client_lem gone slots v = (
  record { apart = λ q. omega (arith, v.apart q, (get-unregister gone q slots (v.apart q)).1) },
  λ q. (get-unregister gone q slots (v.apart q)).0,
)

pub found-socket :
    (socket : ℕ) (slots : Slots) (c : Client)
    → get_client_by_socket socket slots ≡ some c
    → (c.socket ≡ socket) × (1 ≤ with_socket socket slots)
unfolding with_socket get_client_by_socket
found-socket socket [] c h = cc
found-socket socket (none ∷ slots) c h = found-socket socket slots c h
found-socket socket (some x ∷ slots) c h =
    (ground (arith, found-socket socket slots c), ground (arith, found-socket socket slots c))

-- Writing through the pointer to a client that was found changes what is found under its socket.
pub put_client_lem :
    (client c : Client) (slots : Slots)
    → IsValid slots
    → get_client_by_socket client.socket slots ≡ some c
    → IsValid (put_client client slots)
      × ((socket : ℕ)
          → get_client_by_socket socket (put_client client slots)
            ≡ (if client.socket == socket then some client else get_client_by_socket socket slots))
put_client_lem client c slots v h =
    let there = (found-socket client.socket slots c h).1 in
    (
      record { apart = λ q. omega (arith, v.apart q, (get-put client q slots).1) },
      λ q. ground (arith, (get-put client q slots).0),
    )
