-- ===== src/Process/Synced.antt =====
-- The first synchronization from end to end: what a primary sends for an entry, and what a replica
-- makes of it.
use crimson_cache.Base.{
  length, length-append, ◌≤◌, ◌+◌, false, arith, ℕ, ◌≡◌, refl, sym, ap, subst, ◌∙◌, Bool, true,
  List, [], ◌∷◌, ◌++◌, some, arith, map,
}
use mathlib.Core.List.{append-nil, flatten}
use crimson_cache.CString.{Bytes, codes, tolower, str_eq}
use crimson_cache.Tokenizer.{TokenMemory, tokenize_command}
use crimson_cache.Tokenizer.RoundTrip.{line, ample}
use crimson_cache.Dict.Defs.{DictEntry, Dict}
use crimson_cache.Dict.Valid.{view}
use crimson_cache.Dict.Access.{Becomes, update}
use crimson_cache.Replication.Sync.{Memory, SyncStep, set_line, sync_entry}
use crimson_cache.Commands.Keyspace.{CommandEnv, text_object, set_command, expire_option}
use crimson_cache.Commands.Writes.{IsAmple, set_command_lem, has_room}
use crimson_cache.Dispatch.{Server, World, Worlds, Ran, Executor, no_socket, on_db}
use crimson_cache.Dispatch.Table.{find_command, commands, wrong_arity, call_handler}
use crimson_cache.Dispatch.Execute.{
  queueing_client, run_found, should_propagate, finish, run_command, execute_words, execute_tokens,
  execute_with, execute_command,
}
use crimson_cache.Dispatch.Valid.{IsValid}
use crimson_cache.Process.{Process}
use crimson_cache.Process.Stream.{sync_round}
use crimson_cache.Replication.{state_sync}
use crimson_cache.Process.Follow.{
  room, available, replication_thread, split_lines, run_lines, process_buffer,
}
use crimson_cache.Process.Sent.{
  CanSend, sent_words, split_line, set_line-content, IsPlain-content, content_words,
  sync_entry-set_line,
}

finish_unsent : (w : World) (input name : Bytes) (r : Ran) → finish w no_socket input name r ≡ r
unfolding finish should_propagate
finish_unsent w input name r = ground arith

cut_line :
    (w : Worlds) (input name : Bytes) (args : List Bytes) (s : Server)
    → (w []).input_copied ≡ true
    → tokenize_command (w []).tokens input ≡ some (name ∷ args)
    → execute_command 2 w no_socket input s
      ≡ execute_words (execute_command 1) w no_socket input (map tolower name ∷ args) s
unfolding execute_command execute_with execute_tokens
cut_line w input name args s copied cut = rw (copied, cut) refl

-- SET by the thread of a replica: the line has no client, and is not passed on.
run_set :
    (run : Executor) (w : Worlds) (key ptr input : Bytes) (s : Server)
    → execute_words run w no_socket input (codes "set" ∷ key ∷ ptr ∷ []) s
      ≡ on_db no_socket s (set_command (w []).env (codes "set" ∷ key ∷ ptr ∷ []) s.db)
unfolding execute_words run_command find_command commands run_found wrong_arity call_handler str_eq
    queueing_client
run_set run w key ptr input s =
    finish_unsent (w []) input (codes "set")
      (on_db no_socket s (set_command (w []).env (codes "set" ∷ key ∷ ptr ∷ []) s.db))

lowered : map tolower (codes "SET") ≡ codes "set"
unfolding tolower
lowered = refl

run_line_set :
    (w : Worlds) (e : DictEntry) (ok : CanSend e) (s : Server)
    → (w []).input_copied ≡ true
    → (w []).tokens ≡ ample
    → execute_command 2 w no_socket (line (sent_words e)) s
      ≡ on_db no_socket s (set_command (w []).env (codes "set" ∷ e.key ∷ e.val.ptr ∷ []) s.db)
run_line_set w e ok s copied granted =
    cut_line w (line (sent_words e)) (codes "SET") (e.key ∷ e.val.ptr ∷ []) s copied (
      ap (λ (mem : TokenMemory). tokenize_command mem (line (sent_words e))) granted
      ∙ content_words e ok)
    ∙ ap
        (λ (name : Bytes).
          execute_words (execute_command 1) w no_socket (line (sent_words e))
            (name ∷ e.key ∷ e.val.ptr ∷ []) s)
        lowered
    ∙ run_set (execute_command 1) w e.key e.val.ptr (line (sent_words e)) s

-- The clock that the new object shows as its last access.
abbrev pub stored_at : World → ℕ
stored_at w = w.env.clock 2

enough : (env : CommandEnv) → IsAmple env → (known : Bool) → true ≡ has_room env known
enough env a known = ground (arith, a.object, a.text, a.entry)

split_sent :
    (e : DictEntry) (ok : CanSend e) (pending : Bytes)
    → pending ≡ []
    → split_lines [] (pending ++ flatten (set_line e ∷ [])) ≡ (line (sent_words e) ∷ [], [])
unfolding flatten
split_sent e ok pending none_left =
    rw (none_left, append-nil, set_line-content e ok)
      (split_line [] (line (sent_words e)) [] (IsPlain-content e ok) ∙ unfold split_lines in refl)

-- The bytes of the entry in an empty buffer.
sync_entry-process_buffer :
    (e : DictEntry) (ok : CanSend e) (beyond : Memory) (sync_step : SyncStep) (w : ℕ → Worlds)
    (p : Process)
    → sync_step.set_completes ≡ true
    → IsValid p.server
    → p.pending ≡ []
    → (w 0 []).input_copied ≡ true
    → (w 0 []).tokens ≡ ample
    → IsAmple (w 0 []).env
    → Becomes
        (process_buffer
          (execute_command 2)
          w
          (flatten (sync_entry beyond sync_step e))
          p).1.server.db
        (update (view p.server.db) e.key (some (text_object e.val.ptr 0 (stored_at (w 0 [])))))
      × ((process_buffer
            (execute_command 2)
            w
            (flatten (sync_entry beyond sync_step e))
            p).1.pending
          ≡ [])
unfolding process_buffer
sync_entry-process_buffer e ok beyond sync_step w p completes v none_left copied granted ample_env =
    let words = codes "set" ∷ e.key ∷ e.val.ptr ∷ [] in
    let content = line (sent_words e) in
    let split : split_lines [] (p.pending ++ flatten (sync_entry beyond sync_step e))
        ≡ (content ∷ [], []) =
      ap (λ (bs : List Bytes). split_lines [] (p.pending ++ flatten bs))
        (sync_entry-set_line e ok beyond sync_step completes)
      ∙ split_sent e ok p.pending none_left in
    let stored : (process_buffer (execute_command 2) w (flatten (sync_entry beyond sync_step e))
          p).1.server.db
        ≡ (set_command (w 0 []).env words p.server.db).db =
      ap (λ (x : List Bytes × Bytes). (run_lines (execute_command 2) w 0 0 x.0 p.server).1.db) split
      ∙ unfold run_lines in
        ap (λ (r : Ran). r.server.db) (run_line_set (w 0) e ok p.server copied granted) in
    let set =
      set_command_lem v.db.valid (w 0 []).env words true v.db.unlimited
        (enough (w 0 []).env ample_env _) in
    (
      subst
          (λ (d : Dict).
            Becomes d (
              update (view p.server.db) e.key
                (some (text_object e.val.ptr 0 (stored_at (w 0 []))))))
          (sym stored) (unfold expire_option in set.becomes),
      ap (λ (x : List Bytes × Bytes). x.1) split,
    )

-- A replica in its synchronization, with an empty buffer and all memory, whose primary sends a lasting
-- string and has it arrive in one piece, in a line that fits the buffer of the replica: after the
-- round of the replication thread that reads it, the replica has the value under the key, every other
-- key as before, and nothing left in the buffer.
pub sync_entry-replication_thread :
    (e : DictEntry) (ok : CanSend e) (beyond : Memory) (sync_step : SyncStep) (w : ℕ → Worlds)
    (p : Process)
    → sync_step.set_completes ≡ true
    → IsValid p.server
    → p.server.repl.is_primary ≡ false
    → p.server.repl.state ≡ state_sync
    → p.pending ≡ []
    → length (set_line e) ≤ room p.config 0
    → (w 0 []).input_copied ≡ true
    → (w 0 []).tokens ≡ ample
    → IsAmple (w 0 []).env
    → Becomes
        (replication_thread
          (execute_command 2)
          w
          (available (flatten (sync_entry beyond sync_step e)))
          p).1.server.db
        (update (view p.server.db) e.key (some (text_object e.val.ptr 0 (stored_at (w 0 [])))))
      × ((replication_thread
            (execute_command 2)
            w
            (available (flatten (sync_entry beyond sync_step e)))
            p).1.pending
          ≡ [])
sync_entry-replication_thread e ok beyond sync_step w p completes v replica state none_left fits
      copied granted ample_env =
    let sent : flatten (sync_entry beyond sync_step e) ≡ set_line e =
      ap flatten (sync_entry-set_line e ok beyond sync_step completes)
      ∙ unfold flatten in append-nil (set_line e) in
    let long : length (set_line e) ≡ length (line (sent_words e)) + 2 =
      ap length (set_line-content e ok)
      ∙ length-append (line (sent_words e)) (b'\r' ∷ b'\n' ∷ []) in
    let round =
      sync_round (execute_command 2) w p (flatten (sync_entry beyond sync_step e)) replica
        (rw sent (omega (arith, long))) (rw (sent, none_left) fits) state in
    rw round (
      sync_entry-process_buffer e ok beyond sync_step w p completes v none_left copied granted
        ample_env)
