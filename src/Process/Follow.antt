-- ===== src/Process/Follow.antt =====
-- `replication_thread` of src/main.c: what a replica does with the bytes of its primary.
use crimson_cache.Base.{
  add64, ℕ, zero, suc, ◌+◌, ◌-◌, true, false, ◌&&◌, List, [], ◌∷◌, ◌++◌, none, some, ◌==◌,
  if◌then◌else◌, length, take,
}
use crimson_cache.CString.{Bytes}
use crimson_cache.Number.{pos, negsuc}
use crimson_cache.Tokenizer.{backwards}
use crimson_cache.PubSub.{Output}
use crimson_cache.Replication.{
  ReplicaState, state_none, state_connecting, state_sync, state_connected,
}
use crimson_cache.Replication.Roles.{replication_set_primary}
use crimson_cache.Config.{ServerConfig}
use crimson_cache.Dispatch.{Server, World, Worlds, Executor, no_socket}
use crimson_cache.Process.{Process}

-- The search for "\r\n" from the start of each line to the end of the string in the buffer, with the
-- line so far in reverse: the lines, and what is left.
unfoldable pub split_lines : Bytes → Bytes → List Bytes × Bytes
split_lines start [] = ([], backwards start [])
split_lines start (c ∷ []) = ([], backwards (c ∷ start) [])
split_lines start (c ∷ d ∷ bs) = elim (c == 0) [
  | true ↦ ([], backwards start (c ∷ d ∷ bs))
  | false ↦ elim (c == b'\r' && d == b'\n') [
    | true ↦ (let (lines, rest) = split_lines [] bs in (backwards start [] ∷ lines, rest))
    | false ↦ split_lines (c ∷ start) (d ∷ bs)
  ]
]

abbrev pub advance : ℕ → Server → Server
advance n s = record s { repl = record s.repl { repl_offset = add64 s.repl.repl_offset n } }

abbrev pub run_line : Executor → Worlds → Bytes → Server → Output × Server
run_line run w [] s = ([], s)
run_line run w (c ∷ line) s = let r = run w no_socket (c ∷ line) s in (r.sent, r.server)

-- The loop over the lines. The offset grows by the end of the line in the buffer, `position` the
-- start; the world of a line is that of its number.
unfoldable pub run_lines : Executor → (ℕ → Worlds) → ℕ → ℕ → List Bytes → Server → Output × Server
run_lines run w k position [] s = ([], s)
run_lines run w k position (line ∷ lines) s =
    let end : ℕ = position + length line + 2 in
    let (sent, s') = run_line run (w k) line s in
    let (more, s'') = run_lines run w (k + 1) end lines (advance end s') in (sent ++ more, s'')

-- What there is to read on a socket.
pub data Incoming : Type 0 where
  available : Bytes → Incoming
  closed failed would_block : Incoming

-- The room in a buffer behind `n` bytes, with the NUL.
abbrev pub room : ServerConfig → ℕ → ℕ
room config n = elim config.buffer_size [ pos size ↦ size - n - 1 | negsuc m ↦ 0 ]

-- What `recv` gives for a room: where there is none it returns 0, as for a connection that is closed.
unfoldable pub recv : ℕ → Incoming → Incoming
recv zero (available bs) = closed
recv (suc n) (available bs) = available (take (suc n) bs)
recv n other = other

abbrev synced : ReplicaState → ReplicaState
synced state_sync = state_connected
synced state = state

abbrev pub settle : Server → Server
settle s = record s { repl = record s.repl { state = synced s.repl.state } }

-- The branch for the bytes that were read.
unfoldable pub process_buffer : Executor → (ℕ → Worlds) → Bytes → Process → Output × Process
process_buffer run w bs p =
    let (lines, rest) = split_lines [] (p.pending ++ bs) in
    let (sent, s) = run_lines run w 0 0 lines p.server in
    (sent, record p { server = settle s; pending = rest })

unfoldable pub reconnect : World → Process → Output × Process
reconnect w p =
    let s = p.server in
    let (connected, repl, sent) =
      replication_set_primary w.connect s.port s.repl.primary_host s.repl.primary_port s.repl in
    (sent, record p { server = record s { repl = repl } })

-- The branch for a connection that is lost.
unfoldable pub lose_primary : World → Process → Output × Process
lose_primary w p =
    let s = p.server in
    reconnect w (record p {
      server = record s { repl = record s.repl { primary_fd = none; state = state_connecting } };
    })

unfoldable pub read_primary : Executor → (ℕ → Worlds) → Incoming → Process → Output × Process
read_primary run w (available bs) p = process_buffer run w bs p
read_primary run w would_block p = ([], p)
read_primary run w closed p = lose_primary (w 0 []) p
read_primary run w failed p = lose_primary (w 0 []) p

unfoldable pub follow_state :
    Executor → (ℕ → Worlds) → Incoming → ReplicaState → Process → Output × Process
follow_state run w incoming state_none p = ([], p)
follow_state run w incoming state_connecting p = elim p.server.repl.primary_fd [
  | none ↦ reconnect (w 0 []) p
  | some fd ↦ ([], p)
]
follow_state run w incoming state_sync p =
    read_primary run w (recv (room p.config (length p.pending)) incoming) p
follow_state run w incoming state_connected p =
    read_primary run w (recv (room p.config (length p.pending)) incoming) p

-- A round of the loop.
unfoldable pub replication_thread : Executor → (ℕ → Worlds) → Incoming → Process → Output × Process
replication_thread run w incoming p =
    if p.server.repl.is_primary then ([], p) else follow_state run w incoming p.server.repl.state p
