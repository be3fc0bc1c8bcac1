-- ===== src/Replication/Info.antt =====
-- What src/replication.c says of itself, and the end of replication.
use crimson_cache.Base.{
  length-take, length-append, ◌≤◌, ℕ, ◌-◌, ◌^◌, ◌<◌, List, [], ◌∷◌, ◌++◌, none, some, arith,
  if◌then◌else◌, length, take, map, sub64, if_either,
}
use crimson_cache.CString.{Bytes, codes}
use crimson_cache.Reply.{crlf}
use crimson_cache.Number.{print, print_nat, snprintf}
use crimson_cache.Replication.{ReplicationInfo, Replica, ReplicaState, state_connected}
use crimson_cache.Replication.Roles.{replication_get_role_name, count_replicas}

abbrev field : Bytes → Bytes → Bytes
field name value = name ++ b':' ∷ value ++ crlf

abbrev link_status : ReplicaState → Bytes
link_status state_connected = codes "up"
link_status _ = codes "down"

unfoldable pub primary_lines : ReplicationInfo → Bytes
primary_lines repl =
    field (codes "# Replication\r\nrole") (replication_get_role_name repl)
    ++ field (codes "connected_replicas") (print_nat (count_replicas repl))
    ++ field (codes "repl_offset") (print_nat repl.repl_offset)
    ++ field (codes "repl_id") repl.replid

unfoldable pub replica_lines : ReplicationInfo → Bytes
replica_lines repl =
    field (codes "primary_host") repl.primary_host
    ++ field (codes "primary_port") (print repl.primary_port)
    ++ field (codes "primary_link_status") (link_status repl.state)

-- `strncat(info, buf, *len - strlen(info) - 1)`, on an unsigned count.
unfoldable pub append_within : ℕ → Bytes → Bytes → Bytes
append_within len info buf = info ++ take (sub64 (sub64 len (length info)) 1) buf

unfoldable pub replication_info_append : ReplicationInfo → ℕ → Bytes → Bytes
replication_info_append repl len info =
    let shown = append_within len info (snprintf 1024 (primary_lines repl)) in
    if repl.is_primary then shown else append_within len shown (snprintf 1024 (replica_lines repl))

-- The descriptors that are closed, and the state that is left.
unfoldable pub replication_cleanup : ReplicationInfo → List ℕ × ReplicationInfo
replication_cleanup repl =
    let closed = map (λ (r : Replica). r.fd) repl.replicas in
    (elim repl.primary_fd [ none ↦ closed | some fd ↦ fd ∷ closed ], record repl { replicas = [] })

below : (len used : ℕ) → used < len → len < 2 ^ 64 → sub64 (sub64 len used) 1 ≤ len - used - 1
below len used h w = omega arith

append_within_bounded :
    (len : ℕ) (info buf : Bytes)
    → length info < len
    → len < 2 ^ 64
    → length (append_within len info buf) < len
unfolding append_within
append_within_bounded len info buf h w =
    let n = sub64 (sub64 len (length info)) 1 in
    omega (arith, below len (length info) h w, length-append info (take n buf), length-take n buf)

-- What is shown stays within its buffer of `len` bytes, with the NUL behind it.
replication_info_append_bounded :
    (repl : ReplicationInfo) (len : ℕ) (info : Bytes)
    → length info < len
    → len < 2 ^ 64
    → length (replication_info_append repl len info) < len
unfolding replication_info_append
replication_info_append_bounded repl len info h w =
    let shown = append_within_bounded len info (snprintf 1024 (primary_lines repl)) h w in
    if_either (λ (shown_all : Bytes). length shown_all < len) repl.is_primary shown
      (append_within_bounded len _ (snprintf 1024 (replica_lines repl)) shown w)
