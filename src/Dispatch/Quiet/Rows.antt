-- ===== src/Dispatch/Quiet/Rows.antt =====
-- The rows of the command table that are quiet, and their handlers.
use crimson_cache.Base.{
  ℕ, ◌≡◌, refl, subst, Bool, true, false, ◌&&◌, ◌||◌, List, [], ◌∷◌, some, arith, inl, inr,
  Bool-cases,
}
use crimson_cache.CString.{Bytes, str_eq, str_eq_iff}
use crimson_cache.Commands.Sound.{
  ping_command-IsSound, set_command-IsSound, get_command-IsSound, del_command-IsSound,
  exists_command-IsSound, expire_command-IsSound, ttl_command-IsSound, incr_command-IsSound,
}
use crimson_cache.Dispatch.{Server, Worlds, Executor}
use crimson_cache.Dispatch.Handlers.{role_command}
use crimson_cache.Dispatch.Table.{
  Handler, ping, set, get, del, exists, expire, ttl, save, bgsave, replicaof, role, incr, replconf,
  multi, exec, discard, subscribe, unsubscribe, publish, CommandDef, commands, find_command,
  call_handler,
}
use crimson_cache.Dispatch.Execute.{is_tx_command}
use crimson_cache.Dispatch.Valid.{IsValid}
use crimson_cache.Dispatch.Quiet.{
  IsQuiet, kept, on_db-IsQuiet, save_command-IsQuiet, bgsave_command-IsQuiet,
  replicaof_command-IsQuiet, replconf_command-IsQuiet, publish_command-IsQuiet,
  subscribe_command-IsQuiet, unsubscribe_command-IsQuiet,
}

-- The handlers that are not for MULTI, EXEC and DISCARD.
abbrev pub is_quiet : Handler → Bool
is_quiet multi = false
is_quiet exec = false
is_quiet discard = false
is_quiet _ = true

abbrev is_no_block : CommandDef → Bool
is_no_block c = is_quiet c.handler || is_tx_command c.name

and_true : (a b : Bool) → (a && b) ≡ true → (a ≡ true) × (b ≡ true)
and_true a b h = (ground arith, ground arith)

-- Whether all rows with such a handler have a name that says so.
abbrev are_no_blocks : List CommandDef → Bool
are_no_blocks [] = true
are_no_blocks (c ∷ cs) = is_no_block c && are_no_blocks cs

row-quiet :
    (c : CommandDef)
    → is_no_block c ≡ true
    → is_tx_command c.name ≡ false
    → is_quiet c.handler ≡ true
row-quiet c ok no_tx = ground arith

pub find_command-quiet :
    (name : Bytes) (cs : List CommandDef) (c : CommandDef)
    → are_no_blocks cs ≡ true
    → is_tx_command name ≡ false
    → find_command name cs ≡ some c
    → is_quiet c.handler ≡ true
unfolding find_command
find_command-quiet name [] c a no_tx e = cc
find_command-quiet name (x ∷ cs) c a no_tx e =
    let (ok, rest) = and_true (is_no_block x) (are_no_blocks cs) a in
    elim (Bool-cases (str_eq name x.name)) [
      | inl same ↦
          let found : x ≡ c = cc (rw same at e) in
          subst (λ (r : CommandDef). is_quiet r.handler ≡ true) found
            (row-quiet x ok (
              subst (λ (n : Bytes). is_tx_command n ≡ false) ((str_eq_iff name x.name).0 same)
                no_tx))
      | inr other ↦ find_command-quiet name cs c rest no_tx (rw other at e)
    ]

pub commands-quiet : are_no_blocks commands ≡ true
unfolding commands is_tx_command str_eq
commands-quiet = refl

pub call_handler-IsQuiet :
    (run : Executor) (h : Handler) (w : Worlds) (sock : ℕ) (argv : List Bytes) (s : Server)
    → IsValid s
    → is_quiet h ≡ true
    → IsQuiet s (call_handler run h w sock argv s)
unfolding call_handler role_command
call_handler-IsQuiet run ping w sock argv s v q =
    on_db-IsQuiet s v sock _ (ping_command-IsSound v.db argv)
call_handler-IsQuiet run set w sock argv s v q =
    on_db-IsQuiet s v sock _ (set_command-IsSound v.db (w []).env argv)
call_handler-IsQuiet run get w sock argv s v q =
    on_db-IsQuiet s v sock _ (get_command-IsSound v.db (w []).env argv)
call_handler-IsQuiet run del w sock argv s v q =
    on_db-IsQuiet s v sock _ (del_command-IsSound v.db argv)
call_handler-IsQuiet run exists w sock argv s v q =
    on_db-IsQuiet s v sock _ (exists_command-IsSound v.db (w []).env argv)
call_handler-IsQuiet run expire w sock argv s v q =
    on_db-IsQuiet s v sock _ (expire_command-IsSound v.db (w []).env argv)
call_handler-IsQuiet run ttl w sock argv s v q =
    on_db-IsQuiet s v sock _ (ttl_command-IsSound v.db (w []).env argv)
call_handler-IsQuiet run save w sock argv s v q = save_command-IsQuiet s v (w []) sock
call_handler-IsQuiet run bgsave w sock argv s v q = bgsave_command-IsQuiet s v (w []) sock
call_handler-IsQuiet run replicaof w sock argv s v q =
    replicaof_command-IsQuiet s v (w []) sock argv
call_handler-IsQuiet run role w sock argv s v q = kept s v _ refl refl refl
call_handler-IsQuiet run incr w sock argv s v q =
    on_db-IsQuiet s v sock _ (incr_command-IsSound v.db (w []).env argv)
call_handler-IsQuiet run replconf w sock argv s v q = replconf_command-IsQuiet s v (w []) sock argv
call_handler-IsQuiet run multi w sock argv s v q = cc
call_handler-IsQuiet run exec w sock argv s v q = cc
call_handler-IsQuiet run discard w sock argv s v q = cc
call_handler-IsQuiet run subscribe w sock argv s v q =
    subscribe_command-IsQuiet s v (w []) sock argv
call_handler-IsQuiet run unsubscribe w sock argv s v q = unsubscribe_command-IsQuiet s v sock argv
call_handler-IsQuiet run publish w sock argv s v q = publish_command-IsQuiet s v sock argv

-- A quiet handler does not use what runs the queued commands.
pub call_handler_alone :
    (run run' : Executor) (h : Handler) (w : Worlds) (sock : ℕ) (argv : List Bytes) (s : Server)
    → is_quiet h ≡ true
    → call_handler run h w sock argv s ≡ call_handler run' h w sock argv s
unfolding call_handler
call_handler_alone run run' ping w sock argv s q = refl
call_handler_alone run run' set w sock argv s q = refl
call_handler_alone run run' get w sock argv s q = refl
call_handler_alone run run' del w sock argv s q = refl
call_handler_alone run run' exists w sock argv s q = refl
call_handler_alone run run' expire w sock argv s q = refl
call_handler_alone run run' ttl w sock argv s q = refl
call_handler_alone run run' save w sock argv s q = refl
call_handler_alone run run' bgsave w sock argv s q = refl
call_handler_alone run run' replicaof w sock argv s q = refl
call_handler_alone run run' role w sock argv s q = refl
call_handler_alone run run' incr w sock argv s q = refl
call_handler_alone run run' replconf w sock argv s q = refl
call_handler_alone run run' multi w sock argv s q = refl
call_handler_alone run run' exec w sock argv s q = cc
call_handler_alone run run' discard w sock argv s q = refl
call_handler_alone run run' subscribe w sock argv s q = refl
call_handler_alone run run' unsubscribe w sock argv s q = refl
call_handler_alone run run' publish w sock argv s q = refl
