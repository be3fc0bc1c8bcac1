-- ===== src/Commands/Keyspace.antt =====
-- The handlers of src/commands.c that work on the keys: GET, SET, DEL, EXISTS, EXPIRE, TTL and INCR,
-- and PING. `argc` is the length of `argv`; `execute_command` calls a handler with at least as many
-- arguments as its row in the command table wants.
use crimson_cache.Base.{
  ℕ, ◌+◌, ◌-◌, ◌*◌, ◌/◌, ◌%◌, Bool, not, List, [], ◌∷◌, Option, none, some, ltb, leb, ◌==◌,
  if◌then◌else◌, length, get_or, word, add64,
}
use crimson_cache.CString.{Bytes, codes, strcasecmp_eq}
use crimson_cache.Dict.Defs.{CcObj, cc_string, Dict}
use crimson_cache.Dict.Ops.{AddMemory, dict_add, dict_get, dict_delete, dict_write}
use crimson_cache.Number.{ℤ, pos, negsuc, to_word, increment, strtoll, atoll, print}
use crimson_cache.Persistence.Format.{is_string}
use crimson_cache.Reply.{reply_string, reply_error, reply_integer, reply_bulk, reply_null_bulk}

-- `cmd_result`
pub data CmdResult : Type 0 where
  cmd_ok cmd_err cmd_unknown : CmdResult

-- What a handler returns, with the database and what the client is written.
pub record Outcome : Type 0 where
  pub result : CmdResult
  pub db : Dict
  pub written : Bytes

-- What the clock shows at the places where a handler and the calls in it read it, numbered from 0 in
-- the order of the code, and what the allocations give while it runs.
pub record CommandEnv : Type 0 where
  pub clock : ℕ → ℕ
  pub object_granted : Bool
  pub text_granted : Bool
  pub add_memory : AddMemory

abbrev pub ok : Dict → Bytes → Outcome
ok db written = record { result = cmd_ok; db = db; written = written }

abbrev pub err : Dict → Bytes → Outcome
err db written = record { result = cmd_err; db = db; written = written }

unfoldable pub ping_command : List Bytes → Dict → Outcome
unfolding reply_bulk reply_string
ping_command argv db =
    if ltb 1 (length argv)
    then ok db (reply_bulk (get_or argv 1 []))
    else ok db (reply_string (codes "PONG"))

-- The expiry that the options EX and PX ask for at a time; 0 is none.
unfoldable pub expire_option : ℕ → List Bytes → ℕ
unfolding strcasecmp_eq to_word
expire_option now argv =
    if leb 5 (length argv)
    then (if strcasecmp_eq (get_or argv 3 []) (codes "EX")
        then add64 now ((to_word (atoll (get_or argv 4 [])) * 1000) % word)
        else if strcasecmp_eq (get_or argv 3 []) (codes "PX")
        then add64 now (to_word (atoll (get_or argv 4 [])))
        else 0)
    else 0

-- A new string object.
abbrev pub text_object : Bytes → ℕ → ℕ → CcObj
text_object text expire now = record {
  ptr = text;
  type = cc_string;
  expire = expire;
  size = length text + 1;
  last_access = now;
}

-- The object is made and stored; `reply` is what a success is answered with, and `place` where
-- the clock is read for the object.
unfoldable pub store_text : CommandEnv → ℕ → Bytes → Bytes → ℕ → Bytes → Dict → Outcome
unfolding reply_error
store_text env place key text expire reply db =
    if not env.object_granted
    then err db (reply_error (codes "ERR out of memory"))
    else if not env.text_granted
    then err db (reply_error (codes "ERR out of memory"))
    else (let (done, db') =
          dict_add env.add_memory (env.clock (place + 1)) db key
            (text_object text expire (env.clock place)) in
        if done then ok db' reply else err db' (reply_error (codes "ERR could not set key")))

unfoldable pub set_command : CommandEnv → List Bytes → Dict → Outcome
unfolding expire_option store_text reply_string
set_command env argv db =
    store_text env 1 (get_or argv 1 []) (get_or argv 2 []) (expire_option (env.clock 0) argv)
      (reply_string (codes "OK")) db

abbrev pub bulk_of : Option CcObj → Bytes
bulk_of none = reply_null_bulk
bulk_of (some obj) = if is_string obj.type then reply_bulk obj.ptr else reply_null_bulk

unfoldable pub get_command : CommandEnv → List Bytes → Dict → Outcome
unfolding dict_get reply_bulk reply_null_bulk is_string
get_command env argv db =
    let (obj, db') = dict_get (env.clock 0) (env.clock 1) db (get_or argv 1 []) in
    ok db' (bulk_of obj)

-- The loop of `del_command`, with the count so far.
unfoldable pub delete_each : List Bytes → ℕ → Dict → ℕ × Dict
delete_each [] deleted db = (deleted, db)
delete_each (key ∷ keys) deleted db =
    let (found, db') = dict_delete db key in
    delete_each keys (if found then deleted + 1 else deleted) db'

abbrev pub arguments : List Bytes → List Bytes
arguments [] = []
arguments (cmd ∷ args) = args

unfoldable pub del_command : List Bytes → Dict → Outcome
unfolding delete_each reply_integer
del_command argv db =
    let (deleted, db') = delete_each (arguments argv) 0 db in ok db' (reply_integer (pos deleted))

-- The loop of `exists_command`; each search has its own readings of the clock.
unfoldable pub count_each : (ℕ → ℕ) → List Bytes → ℕ → Dict → ℕ × Dict
count_each clock [] count db = (count, db)
count_each clock (key ∷ keys) count db =
    let i = 2 * length keys in
    let (obj, db') = dict_get (clock i) (clock (i + 1)) db key in
    let n : ℕ = elim obj [ none ↦ count | some val ↦ count + 1 ] in count_each clock keys n db'

unfoldable pub exists_command : CommandEnv → List Bytes → Dict → Outcome
unfolding count_each reply_integer
exists_command env argv db =
    let (count, db') = count_each env.clock (arguments argv) 0 db in
    ok db' (reply_integer (pos count))

unfoldable pub expire_command : CommandEnv → List Bytes → Dict → Outcome
unfolding dict_get dict_write to_word reply_integer
expire_command env argv db =
    let key = get_or argv 1 [] in
    let (found, db') = dict_get (env.clock 0) (env.clock 1) db key in
    elim found [
      | none ↦ ok db' (reply_integer (pos 0))
      | some obj ↦
          (let seconds = atoll (get_or argv 2 []) in
            let expire = add64 (env.clock 2) ((to_word seconds * 1000) % word) in
            ok (dict_write db' key (record obj { expire = expire })) (reply_integer (pos 1)))
    ]

-- The answer of `ttl_command` at a time.
unfoldable pub ttl_of : ℕ → Option CcObj → ℤ
ttl_of now none = negsuc 1
ttl_of now (some obj) =
    if obj.expire == 0
    then negsuc 0
    else if leb obj.expire now
    then negsuc 1
    else pos ((obj.expire - now) / 1000)

unfoldable pub ttl_command : CommandEnv → List Bytes → Dict → Outcome
unfolding dict_get ttl_of reply_integer
ttl_command env argv db =
    let (obj, db') = dict_get (env.clock 0) (env.clock 1) db (get_or argv 1 []) in
    ok db' (reply_integer (ttl_of (env.clock 2) obj))

abbrev pub not_an_integer : Bytes
not_an_integer = codes "ERR value is not an integer or out of range"

-- INCR behind the reading of the old value.
unfoldable pub incr_from : CommandEnv → Bytes → Option CcObj → ℤ → Dict → Outcome
unfolding increment print store_text reply_integer
incr_from env key obj value db =
    let expire : ℕ = elim obj [ none ↦ 0 | some old ↦ old.expire ] in
    store_text env 2 key (print (increment value)) expire (reply_integer (increment value)) db

unfoldable pub incr_command : CommandEnv → List Bytes → Dict → Outcome
unfolding dict_get strtoll incr_from reply_error is_string
incr_command env argv db =
    let key = get_or argv 1 [] in
    let (obj, db') = dict_get (env.clock 0) (env.clock 1) db key in
    elim obj [
      | none ↦ incr_from env key none (pos 0) db'
      | some old ↦
          if is_string old.type
          then (let (value, rest) = strtoll old.ptr in
              elim rest [
                | [] ↦ incr_from env key (some old) value db'
                | c ∷ cs ↦ err db' (reply_error not_an_integer)
              ])
          else err db' (reply_error not_an_integer)
    ]
