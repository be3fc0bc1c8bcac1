-- ===== src/Replication/Roles.antt =====
-- The roles of a server in src/replication.c: primary or replica of another server.
use crimson_cache.Base.{
  ℕ, zero, suc, ◌+◌, ◌-◌, ◌%◌, Bool, true, false, List, [], ◌∷◌, ◌++◌, Option, none, some, ltb,
  if◌then◌else◌, length, take, map,
}
use crimson_cache.CString.{Bytes, codes}
use crimson_cache.Number.{ℤ, pos, print, snprintf}
use crimson_cache.Replication.{ReplicationInfo, state_none, state_connecting, state_sync}

-- One of the 40 characters of the replication id, of a number that `rand` gives.
abbrev id_char : ℕ → ℕ
id_char n = if ltb (n % 36) 10 then n % 36 + b'0' else (n % 36 - 10) + b'a'

-- The characters from `random k` down to `random 1`.
unfoldable pub id_chars : (ℕ → ℕ) → ℕ → Bytes
id_chars random zero = []
id_chars random (suc k) = id_char (random (suc k)) ∷ id_chars random k

unfoldable pub replication_init : (ℕ → ℕ) → ReplicationInfo
replication_init random = record {
  is_primary = true;
  primary_host = [];
  primary_port = pos 0;
  state = state_none;
  primary_fd = none;
  replid = id_chars random 40;
  repl_offset = 0;
  replicas = [];
}

-- What a server writes to a primary that it has connected to.
unfoldable pub handshake : ℤ → List Bytes
handshake port =
    snprintf 64 (codes "REPLCONF listening-port " ++ print port ++ b'\r' ∷ b'\n' ∷ [])
    ∷ (codes "PSYNC ? -1" ++ b'\r' ∷ b'\n' ∷ [])
    ∷ []

-- The answer, the state, and the writes with their descriptor. `connect` is what `getaddrinfo`,
-- `socket` and `connect` come to: a descriptor, or `none` where no address could be reached;
-- `port` is the server's own.
unfoldable pub replication_set_primary :
    (Bytes → ℤ → Option ℕ)
    → ℤ
    → Bytes
    → ℤ
    → ReplicationInfo
    → Bool × ReplicationInfo × List (ℕ × Bytes)
replication_set_primary connect own host port repl =
    let asked = record repl {
      is_primary = false;
      primary_host = take 255 host;
      primary_port = port;
      state = state_connecting;
      primary_fd = none;
    } in
    elim (connect host port) [
      | none ↦ (false, asked, [])
      | some fd ↦ (
        true,
        record asked { state = state_sync; primary_fd = some fd },
        map (λ bs. (fd, bs)) (handshake own),
      )
    ]

unfoldable pub replication_unset_primary : ReplicationInfo → ReplicationInfo
replication_unset_primary repl = record repl {
  is_primary = true;
  state = state_none;
  primary_fd = none;
}

unfoldable pub replication_get_role_name : ReplicationInfo → Bytes
replication_get_role_name repl = if repl.is_primary then codes "master" else codes "slave"

abbrev pub count_replicas : ReplicationInfo → ℕ
count_replicas repl = length repl.replicas
