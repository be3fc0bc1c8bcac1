-- ===== src/Dispatch/Quiet/Lines.antt =====
-- The lines that are quiet: those whose first word is none of MULTI, EXEC and DISCARD.
use crimson_cache.Base.{
  ℕ, ◌≡◌, refl, false, List, [], ◌∷◌, Option, none, some, arith, if_either, length, get_or, ap, map,
  inl, inr, Bool-cases,
}
use crimson_cache.CString.{Bytes, tolower}
use crimson_cache.Transaction.{Client}
use crimson_cache.Tokenizer.{tokenize_command}
use crimson_cache.Dispatch.{Server, Worlds, Ran, Executor}
use crimson_cache.Dispatch.Table.{CommandDef, commands, find_command, wrong_arity}
use crimson_cache.Dispatch.Execute.{
  is_tx_command, client_of, in_transaction, queueing_client, run_found, propagate, finish,
  run_command, execute_words, execute_tokens, execute_with,
}
use crimson_cache.Dispatch.Valid.{IsValid, IsQueueable}
use crimson_cache.Dispatch.Quiet.{IsQuiet, kept}
use crimson_cache.Dispatch.Quiet.Rows.{
  find_command-quiet, commands-quiet, call_handler-IsQuiet, call_handler_alone,
}

pub queueing_nobody :
    (name : Bytes) (o : Option Client) → in_transaction o ≡ false → queueing_client name o ≡ none
unfolding queueing_client
queueing_nobody name none out = refl
queueing_nobody name (some c) out = ground arith

-- A word other than MULTI, EXEC and DISCARD, outside a transaction.
module _ (run : Executor) (w : Worlds) (sock : ℕ) (input : Bytes) (argv : List Bytes) (s : Server)
    (v : IsValid s) (no_tx : is_tx_command (get_or argv 0 []) ≡ false) where
  run_found-IsQuiet :
      (o : Option CommandDef)
      → find_command (get_or argv 0 []) commands ≡ o
      → IsQuiet s (run_found run o w sock argv s)
        × ((run' : Executor) → run_found run o w sock argv s ≡ run_found run' o w sock argv s)
  unfolding run_found
  run_found-IsQuiet none e = (kept s v _ refl refl refl, λ run'. refl)
  run_found-IsQuiet (some c) e =
      let q = find_command-quiet (get_or argv 0 []) commands c commands-quiet no_tx e in
      elim (Bool-cases (wrong_arity (length argv) c)) [
        | inl wrong ↦ rw wrong (kept s v _ refl refl refl, λ run'. refl)
        | inr right ↦ rw right (
          call_handler-IsQuiet run c.handler w sock argv s v q,
          λ run'. call_handler_alone run run' c.handler w sock argv s q,
        )
      ]

  propagate-IsQuiet : (r : Ran) → IsQuiet s r → IsQuiet s (propagate (w []) input r)
  unfolding propagate
  propagate-IsQuiet r q = record {
    valid = record {
      db = q.valid.db;
      channels = q.valid.channels;
      clients = q.valid.clients;
      subscribers = q.valid.subscribers;
    };
    same = q.same;
  }

  finish-IsQuiet :
      (r : Ran) → IsQuiet s r → IsQuiet s (finish (w []) sock input (get_or argv 0 []) r)
  unfolding finish
  finish-IsQuiet r q = if_either (IsQuiet s) _ (propagate-IsQuiet r q) q

  pub run_command-IsQuiet :
      IsQuiet s (run_command run w sock input argv s)
      × ((run' : Executor)
          → run_command run w sock input argv s ≡ run_command run' w sock input argv s)
  unfolding run_command
  run_command-IsQuiet =
      let (q, alone) = run_found-IsQuiet (find_command (get_or argv 0 []) commands) refl in
      (
        finish-IsQuiet _ q,
        λ run'. ap (λ (r : Ran). finish (w []) sock input (get_or argv 0 []) r) (alone run'),
      )

  execute_words-IsQuiet :
      in_transaction (client_of sock s) ≡ false
      → IsQuiet s (execute_words run w sock input argv s)
        × ((run' : Executor)
            → execute_words run w sock input argv s ≡ execute_words run' w sock input argv s)
  unfolding execute_words
  execute_words-IsQuiet out =
      rw (queueing_nobody (get_or argv 0 []) (client_of sock s) out, execute_words)
        run_command-IsQuiet

execute_tokens-IsQuiet :
    (run : Executor) (w : Worlds) (sock : ℕ) (input : Bytes) (s : Server) (o : Option (List Bytes))
    → IsValid s
    → IsQueueable input
    → in_transaction (client_of sock s) ≡ false
    → tokenize_command (w []).tokens input ≡ o
    → IsQuiet s (execute_tokens run w sock input o s)
      × ((run' : Executor)
          → execute_tokens run w sock input o s ≡ execute_tokens run' w sock input o s)
unfolding execute_tokens
execute_tokens-IsQuiet run w sock input s none v may out e =
    (kept s v _ refl refl refl, λ run'. refl)
execute_tokens-IsQuiet run w sock input s (some []) v may out e =
    (kept s v _ refl refl refl, λ run'. refl)
execute_tokens-IsQuiet run w sock input s (some (name ∷ args)) v may out e =
    execute_words-IsQuiet run w sock input (map tolower name ∷ args) s v
      (may (w []).tokens name args e) out

-- Outside a transaction, a line that can be queued leaves the client list, and does not depend on
-- what EXEC would run its commands by.
pub execute_with-IsQuiet :
    (run : Executor) (w : Worlds) (sock : ℕ) (input : Bytes) (s : Server)
    → IsValid s
    → IsQueueable input
    → in_transaction (client_of sock s) ≡ false
    → IsQuiet s (execute_with run w sock input s)
      × ((run' : Executor) → execute_with run w sock input s ≡ execute_with run' w sock input s)
execute_with-IsQuiet run w sock input s v may out = elim (Bool-cases (w []).input_copied) [
  | inl copied ↦
      unfold execute_with in
      rw copied (
        execute_tokens-IsQuiet run w sock input s (tokenize_command (w []).tokens input) v may out
          refl)
  | inr failed_copy ↦
      unfold execute_with in rw failed_copy (kept s v _ refl refl refl, λ run'. refl)
]
