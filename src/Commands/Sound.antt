-- ===== src/Commands/Sound.antt =====
-- The handlers for keys keep the database well formed.
use crimson_cache.Base.{
  ℕ, ◌+◌, ◌*◌, ◌≡◌, refl, sym, ◌∙◌, Bool, not, if_either, List, [], ◌∷◌, Option, none, some,
  if◌then◌else◌, length, get_or, inl, inr, Option-cases,
}
use crimson_cache.CString.{Bytes, str_eq_self}
use crimson_cache.Number.{ℤ, pos, strtoll}
use crimson_cache.Reply.{reply_error}
use crimson_cache.Dict.Defs.{CcObj, Dict}
use crimson_cache.Dict.Ops.{dict_get, dict_delete, dict_write}
use crimson_cache.Dict.Valid.{view}
use crimson_cache.Dict.Access.{
  dict_get_lem, dict_delete_lem, dict_write_lem, dict_get-max_memory, dict_delete-max_memory,
}
use crimson_cache.Dict.Add.{IsSound, dict_add-IsSound}
use crimson_cache.Persistence.Format.{is_string}
use crimson_cache.Commands.Keyspace.{
  Outcome, CommandEnv, text_object, err, not_an_integer, store_text, set_command, get_command,
  delete_each, del_command, count_each, exists_command, expire_command, ttl_command, incr_from,
  incr_command, ping_command, arguments,
}
use crimson_cache.Commands.Expiry.{expire_at, expire_command_step}

-- What is claimed of a handler's outcome.
abbrev Holds : Outcome → Type 0
Holds o = IsSound o.db

dict_get-IsSound :
    {d : Dict} → IsSound d → (now later : ℕ) (key : Bytes) → IsSound (dict_get now later d key).1
dict_get-IsSound {d} s now later key = record {
  valid = (dict_get_lem s.valid now later key).1.valid;
  unlimited = dict_get-max_memory d now later key ∙ s.unlimited;
}

dict_delete-IsSound : {d : Dict} → IsSound d → (key : Bytes) → IsSound (dict_delete d key).1
dict_delete-IsSound {d} s key = record {
  valid = (dict_delete_lem s.valid key).1.valid;
  unlimited = dict_delete-max_memory d key ∙ s.unlimited;
}

store_text-IsSound :
    {d : Dict}
    → IsSound d
    → (env : CommandEnv) (place : ℕ) (key text : Bytes) (expire : ℕ) (reply : Bytes)
    → IsSound (store_text env place key text expire reply d).db
unfolding store_text
store_text-IsSound {d} s env place key text expire reply =
    let added =
      dict_add-IsSound s env.add_memory (env.clock (place + 1)) key
        (text_object text expire (env.clock place)) in
    if_either Holds (not env.object_granted) s
      (if_either Holds (not env.text_granted) s (if_either Holds _ added added))

pub set_command-IsSound :
    {d : Dict}
    → IsSound d
    → (env : CommandEnv) (argv : List Bytes) → IsSound (set_command env argv d).db
unfolding set_command
set_command-IsSound s env argv = store_text-IsSound s env 1 _ _ _ _

pub get_command-IsSound :
    {d : Dict}
    → IsSound d
    → (env : CommandEnv) (argv : List Bytes) → IsSound (get_command env argv d).db
unfolding get_command
get_command-IsSound s env argv = dict_get-IsSound s (env.clock 0) (env.clock 1) (get_or argv 1 [])

pub ttl_command-IsSound :
    {d : Dict}
    → IsSound d
    → (env : CommandEnv) (argv : List Bytes) → IsSound (ttl_command env argv d).db
unfolding ttl_command
ttl_command-IsSound s env argv = dict_get-IsSound s (env.clock 0) (env.clock 1) (get_or argv 1 [])

pub ping_command-IsSound :
    {d : Dict} → IsSound d → (argv : List Bytes) → IsSound (ping_command argv d).db
unfolding ping_command
ping_command-IsSound s argv = if_either Holds _ s s

delete_each-IsSound :
    (keys : List Bytes) (n : ℕ) {d : Dict} → IsSound d → IsSound (delete_each keys n d).1
unfolding delete_each
delete_each-IsSound [] n s = s
delete_each-IsSound (key ∷ keys) n s = delete_each-IsSound keys _ (dict_delete-IsSound s key)

pub del_command-IsSound :
    {d : Dict} → IsSound d → (argv : List Bytes) → IsSound (del_command argv d).db
unfolding del_command
del_command-IsSound s argv = delete_each-IsSound (arguments argv) 0 s

count_each-IsSound :
    (clock : ℕ → ℕ) (keys : List Bytes) (n : ℕ) {d : Dict}
    → IsSound d
    → IsSound (count_each clock keys n d).1
unfolding count_each
count_each-IsSound clock [] n s = s
count_each-IsSound clock (key ∷ keys) n s =
    let i = 2 * length keys in
    count_each-IsSound clock keys _ (dict_get-IsSound s (clock i) (clock (i + 1)) key)

pub exists_command-IsSound :
    {d : Dict}
    → IsSound d
    → (env : CommandEnv) (argv : List Bytes) → IsSound (exists_command env argv d).db
unfolding exists_command
exists_command-IsSound s env argv = count_each-IsSound env.clock (arguments argv) 0 s

pub expire_command-IsSound :
    {d : Dict}
    → IsSound d
    → (env : CommandEnv) (argv : List Bytes) → IsSound (expire_command env argv d).db
expire_command-IsSound {d} s env argv =
    let key = get_or argv 1 [] in
    let (same, b) = dict_get_lem s.valid (env.clock 0) (env.clock 1) key in
    let got = dict_get-IsSound s (env.clock 0) (env.clock 1) key in
    elim (Option-cases (dict_get (env.clock 0) (env.clock 1) d key).0) [
      | inl e ↦ unfold expire_command in rw (e, expire_command) got
      | inr (obj, e) ↦
          let stands : view (dict_get (env.clock 0) (env.clock 1) d key).1 key ≡ some obj =
            b.reads key ∙ (rw (str_eq_self key) (sym same ∙ e)) in
          rw (expire_command_step env argv d obj e) (record {
            valid =
                (dict_write_lem got.valid key (record obj { expire = expire_at env argv }) obj
                  stands refl).valid;
            unlimited = unfold dict_write in got.unlimited;
          })
    ]

incr_from-IsSound :
    {d : Dict}
    → IsSound d
    → (env : CommandEnv) (key : Bytes) (obj : Option CcObj) (value : ℤ)
    → IsSound (incr_from env key obj value d).db
unfolding incr_from
incr_from-IsSound s env key obj value = store_text-IsSound s env 2 _ _ _ _

either_outcome : (b : Bool) (x y : Outcome) → Holds x → Holds y → Holds (if b then x else y)
either_outcome b x y = if_either Holds b

parsed_either :
    (rest : Bytes) (x y : Outcome) → Holds x → Holds y → Holds (elim rest [ [] ↦ x | c ∷ cs ↦ y ])
parsed_either [] x y p q = p
parsed_either (c ∷ cs) x y p q = q

pub incr_command-IsSound :
    {d : Dict}
    → IsSound d
    → (env : CommandEnv) (argv : List Bytes) → IsSound (incr_command env argv d).db
unfolding incr_command
incr_command-IsSound {d} s env argv =
    let key = get_or argv 1 [] in
    let got = dict_get-IsSound s (env.clock 0) (env.clock 1) key in
    elim (Option-cases (dict_get (env.clock 0) (env.clock 1) d key).0) [
      | inl e ↦ rw (e, incr_command) (incr_from-IsSound got env key none (pos 0))
      | inr (obj, e) ↦
          let a =
            incr_from env key (some obj) (strtoll obj.ptr).0
              (dict_get (env.clock 0) (env.clock 1) d key).1 in
          let b = err (dict_get (env.clock 0) (env.clock 1) d key).1 (reply_error not_an_integer) in
          let parsed : Outcome = elim (strtoll obj.ptr).1 [ [] ↦ a | c ∷ cs ↦ b ] in
          rw (e, incr_command)
            (either_outcome (is_string obj.type) parsed b
              (parsed_either (strtoll obj.ptr).1 a b
                (incr_from-IsSound got env key (some obj) (strtoll obj.ptr).0) got)
              got)
    ]
