-- ===== src/Replication.antt =====
-- src/replication.h, src/replication.c: the state of replication, and the feeding of commands to the
-- replicas of a primary.
pub mod Feed
pub mod Info
pub mod Roles
pub mod Sync
use crimson_cache.Base.{
  ℕ, zero, suc, ◌+◌, ◌-◌, Bool, true, false, not, ◌&&◌, ◌||◌, List, [], ◌∷◌, ◌++◌, ltb, ◌==◌,
  if◌then◌else◌, length, get_or, add64, Option,
}
use crimson_cache.CString.{Bytes}
use crimson_cache.Number.{ℤ}

-- `replica_t`: `none` in `ip` is NULL.
pub record Replica : Type 0 where
  pub fd : ℕ
  pub ip : Option Bytes
  pub port : ℤ
  pub last_ack_time : ℕ

-- `replica_state_t`
pub data ReplicaState : Type 0 where
  state_none state_connecting state_sync state_connected : ReplicaState

-- `replication_info_t`: `is_primary` is `role == ROLE_PRIMARY`, and `none` in `primary_fd` is -1.
pub record ReplicationInfo : Type 0 where
  pub is_primary : Bool
  pub primary_host : Bytes
  pub primary_port : ℤ
  pub state : ReplicaState
  pub primary_fd : Option ℕ
  pub replid : Bytes
  pub repl_offset : ℕ
  pub replicas : List Replica

-- What a `write` to a replica comes to: all bytes, -1 with EAGAIN or EWOULDBLOCK, or anything else.
pub data Write : Type 0 where
  complete would_block broken : Write

-- The first replica with the descriptor is unlinked.
unfoldable pub remove_replica : ℕ → List Replica → List Replica
remove_replica fd [] = []
remove_replica fd (r ∷ rs) = if r.fd == fd then rs else r ∷ remove_replica fd rs

-- `granted`: whether there is memory for the copy that ends in "\r\n".
unfoldable pub propagate_cmd : Bool → Bytes → Bytes
propagate_cmd granted cmd =
    let len = length cmd in
    if ltb len 2 || not (get_or cmd (len - 2) 0 == b'\r') || not (get_or cmd (len - 1) 0 == b'\n')
    then if granted then cmd ++ b'\r' ∷ b'\n' ∷ [] else cmd
    else cmd

-- The loop over the replicas, `outcome` and `clock` by their positions in the list: those, with the offset, the complete writes, and `to_remove`.
pub record Fed : Type 0 where
  pub replicas : List Replica
  pub offset : ℕ
  pub sent : List (ℕ × Bytes)
  pub to_remove : List ℕ

abbrev pub mark : ℕ → List ℕ → List ℕ
mark fd marked = if ltb (length marked) 100 then marked ++ fd ∷ [] else marked

unfoldable pub feed_each : (ℕ → Write) → (ℕ → ℕ) → Bytes → List Replica → ℕ → List ℕ → Fed
feed_each outcome clock frame [] offset marked = record {
  replicas = [];
  offset = offset;
  sent = [];
  to_remove = marked;
}
feed_each outcome clock frame (r ∷ rs) offset marked =
    let later = feed_each (λ k. outcome (k + 1)) (λ k. clock (k + 1)) frame rs in
    elim (outcome 0) [
      | complete ↦
          (let rest = later (add64 offset (length frame)) marked in
            record rest {
              replicas = record r { last_ack_time = clock 0 } ∷ rest.replicas;
              sent = (r.fd, frame) ∷ rest.sent;
            })
      | would_block ↦
          (let rest = later offset marked in record rest { replicas = r ∷ rest.replicas })
      | broken ↦
          (let rest = later offset (mark r.fd marked) in
            record rest { replicas = r ∷ rest.replicas })
    ]

unfoldable pub remove_each : List ℕ → List Replica → List Replica
unfolding remove_replica
remove_each [] rs = rs
remove_each (fd ∷ fds) rs = remove_each fds (remove_replica fd rs)

-- The state of the primary afterwards, and the complete writes.
unfoldable pub replication_feed_slaves :
    (ℕ → Write) → (ℕ → ℕ) → Bool → Bytes → ReplicationInfo → ReplicationInfo × List (ℕ × Bytes)
unfolding propagate_cmd feed_each remove_each
replication_feed_slaves outcome clock granted cmd server =
    if server.is_primary
    then (let fed =
          feed_each outcome clock (propagate_cmd granted cmd) server.replicas server.repl_offset
            [] in
        (
          record server {
            replicas = remove_each fed.to_remove fed.replicas;
            repl_offset = fed.offset;
          },
          fed.sent,
        ))
    else (server, [])
