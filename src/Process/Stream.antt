-- ===== src/Process/Stream.antt =====
-- The rounds of the replication thread on the stream of a primary, through `recv` and its room.
use crimson_cache.Base.{
  ℕ, zero, suc, ◌<◌, ◌≤◌, ◌≡◌, refl, ap, false, List, [], ◌∷◌, ◌++◌, arith, length, take-all,
}
use crimson_cache.CString.{Bytes}
use crimson_cache.PubSub.{Output}
use crimson_cache.Commands.Keyspace.{cmd_ok}
use crimson_cache.Replication.{state_sync}
use crimson_cache.Config.{ServerConfig}
use crimson_cache.Dispatch.{Worlds, Executor, no_socket}
use crimson_cache.Process.{Process}
use crimson_cache.Process.Follow.{
  split_lines, process_buffer, recv, room, available, replication_thread, follow_state,
  read_primary,
}

-- A piece that fits the room is received whole.
recv-available :
    (n : ℕ) (bs : Bytes) → 0 < length bs → length bs ≤ n → recv n (available bs) ≡ available bs
unfolding recv
recv-available zero bs some_byte fits = absurd (omega arith)
recv-available (suc n) bs some_byte fits =
    ap (λ (x : Bytes). available x) (take-all (suc n) bs fits)

module _ (run : Executor) (w : ℕ → Worlds) (p : Process) (bs : Bytes)
    (replica : p.server.repl.is_primary ≡ false) (some_byte : 0 < length bs)
    (fits : length bs ≤ room p.config (length p.pending)) where
  pub sync_round :
      p.server.repl.state ≡ state_sync
      → replication_thread run w (available bs) p ≡ process_buffer run w bs p
  unfolding replication_thread follow_state read_primary
  sync_round state =
      rw (replica, state, recv-available (room p.config (length p.pending)) bs some_byte fits) refl

-- What runs a line by noting it.
abbrev pub note : Executor
note w sock line s = record { result = cmd_ok; server = s; sent = (sock, line) ∷ [] }

abbrev pub noted : List Bytes → Output
noted [] = []
noted ([] ∷ lines) = noted lines
noted ((c ∷ line) ∷ lines) = (no_socket, c ∷ line) ∷ noted lines

-- The rounds on the pieces that arrive.
abbrev pub rounds : Executor → (ℕ → Worlds) → List Bytes → Process → Output × Process
rounds run w [] p = ([], p)
rounds run w (part ∷ parts) p =
    let (sent, p') = replication_thread run w (available part) p in
    let (more, p'') = rounds run w parts p' in (sent ++ more, p'')

-- Each piece has a byte, and fits behind what is left of those before it.
abbrev pub AreReceived : ServerConfig → Bytes → List Bytes → Type 0
AreReceived config rest [] = Unit
AreReceived config rest (part ∷ parts) =
    (0 < length part)
    × (length part ≤ room config (length rest))
    × AreReceived config (split_lines [] (rest ++ part)).1 parts
