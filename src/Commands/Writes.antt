-- ===== src/Commands/Writes.antt =====
-- SET of src/commands.c: what it leaves in the database and what a GET shows of it.
use crimson_cache.Base.{
  ℕ, ◌+◌, ◌≡◌, refl, Bool, true, false, ◌&&◌, ◌||◌, List, [], some, arith, if◌then◌else◌, get_or,
  inl, inr, Bool-cases,
}
use crimson_cache.CString.{Bytes, codes}
use crimson_cache.Number.{snprintf}
use crimson_cache.Dict.Defs.{Dict}
use crimson_cache.Dict.Ops.{dict_add}
use crimson_cache.Dict.Valid.{IsValid, view}
use crimson_cache.Dict.Access.{Becomes, update, is_some}
use crimson_cache.Dict.Add.{granted, dict_add_unlimited}
use crimson_cache.Reply.{reply_error, reply_string}
use crimson_cache.Commands.Keyspace.{
  cmd_ok, cmd_err, Outcome, CommandEnv, text_object, expire_option, store_text, set_command, ok,
  err,
}

-- All memory that a handler asks for is given.
pub record IsAmple (env : CommandEnv) : Type 0 where
  pub object : env.object_granted ≡ true
  pub text : env.text_granted ≡ true
  pub entry : granted env.add_memory ≡ true

-- Whether the object can be made and stored.
abbrev pub has_room : CommandEnv → Bool → Bool
has_room env known = env.object_granted && env.text_granted && (known || granted env.add_memory)

-- The message where there is no room.
abbrev pub refusal : CommandEnv → Bytes
refusal env =
    if env.object_granted && env.text_granted
    then codes "-ERR could not set key\r\n"
    else codes "-ERR out of memory\r\n"

-- What a handler that stores a value does: where there is room all is stored and answered with
-- `reply`, else the answer is the message of an error and the map is kept.
pub record Stores (room : Bool) (now : ℕ) (key text : Bytes) (expire : ℕ) (reply message : Bytes)
    (d : Dict) (o : Outcome) : Type 0 where
  pub result : o.result ≡ (if room then cmd_ok else cmd_err)
  pub answer : o.written ≡ (if room then reply else message)
  pub becomes :
      Becomes o.db
        (if room then update (view d) key (some (text_object text expire now)) else view d)

answered :
    {d : Dict} (now : ℕ) (key text : Bytes) (expire : ℕ) (reply message : Bytes) (r : Bool × Dict)
    → Becomes r.1 (if r.0 then update (view d) key (some (text_object text expire now)) else view d)
    → Stores r.0 now key text expire reply message d (if r.0 then ok r.1 reply else err r.1 message)
answered now key text expire reply message (true, d') b = record {
  result = refl;
  answer = refl;
  becomes = b;
}
answered now key text expire reply message (false, d') b = record {
  result = refl;
  answer = refl;
  becomes = b;
}

module _ {d : Dict} (v : IsValid d) (env : CommandEnv) (place : ℕ) (key text : Bytes) (expire : ℕ)
    (reply : Bytes) where
  abbrev added : Bool × Dict
  added =
      dict_add env.add_memory (env.clock (place + 1)) d key
        (text_object text expire (env.clock place))

  store_text_refused :
      env.object_granted && env.text_granted ≡ false
      → store_text env place key text expire reply d
        ≡ err d (reply_error (codes "ERR out of memory"))
  unfolding store_text
  store_text_refused h = elim (Bool-cases env.object_granted) [
    | inl has ↦ elim (Bool-cases env.text_granted) [
      | inl also ↦ absurd (ground arith)
      | inr lacks ↦ rw (has, lacks)
    ]
    | inr lacks ↦ rw lacks
  ]

  store_text_added :
      env.object_granted && env.text_granted ≡ true
      → store_text env place key text expire reply d ≡ (
          if added.0
          then ok added.1 reply
          else err added.1 (reply_error (codes "ERR could not set key")))
  unfolding store_text
  store_text_added h =
      let object : env.object_granted ≡ true = ground arith in
      let copy : env.text_granted ≡ true = ground arith in rw (object, copy)

  pub store_text_lem :
      (room : Bool)
      → d.max_memory ≡ 0
      → room ≡ has_room env (is_some (view d key))
      → Stores room
          (env.clock (place + 1))
          key
          text
          expire
          reply
          (refusal env)
          d
          (store_text env place key text expire reply d)
  store_text_lem room unlimited e =
      let (done, becomes) =
        dict_add_unlimited v env.add_memory (env.clock (place + 1)) key
          (text_object text expire (env.clock place)) unlimited in
      elim (Bool-cases (env.object_granted && env.text_granted)) [
        | inr lacking ↦
            let refused : room ≡ false = ground arith in
            rw (store_text_refused lacking, refused)
              (record {
                result = refl;
                answer = rw lacking (unfold reply_error snprintf in refl);
                becomes = record { valid = v; reads = λ q. refl };
              })
        | inl copied ↦
            let same : room ≡ added.0 = ground arith in
            let message : reply_error (codes "ERR could not set key") ≡ refusal env =
              rw copied (unfold reply_error snprintf in refl) in
            rw (store_text_added copied, same, message)
              (answered (env.clock (place + 1)) key text expire reply _ added becomes)
      ]

-- With no memory limit, SET stores the value with the expiry that its options ask for and answers
-- "OK" if memory is granted for the object and its text, and the key is there or memory is granted
-- for an entry; else it answers one of the two errors and no key changes.
pub set_command_lem :
    {d : Dict} (v : IsValid d) (env : CommandEnv) (argv : List Bytes) (room : Bool)
    → d.max_memory ≡ 0
    → room ≡ has_room env (is_some (view d (get_or argv 1 [])))
    → Stores room
        (env.clock 2)
        (get_or argv 1 [])
        (get_or argv 2 [])
        (expire_option (env.clock 0) argv)
        (codes "+OK\r\n")
        (refusal env)
        d
        (set_command env argv d)
unfolding set_command
set_command_lem v env argv room unlimited e =
    let reply : reply_string (codes "OK") ≡ codes "+OK\r\n" =
      unfold reply_string snprintf in refl in
    rw⁻¹ reply (
      store_text_lem v env 1 (get_or argv 1 []) (get_or argv 2 [])
        (expire_option (env.clock 0) argv) (reply_string (codes "OK")) room unlimited e)
