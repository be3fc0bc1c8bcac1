-- ===== src/Commands/Expiry.antt =====
-- EXPIRE of src/commands.c, and the TTL that is shown after it.
use crimson_cache.Base.{
  ℕ, ◌+◌, ◌-◌, ◌*◌, ◌/◌, ◌%◌, ◌≤◌, ◌<◌, ◌≡◌, refl, ap, ◌∙◌, false, not, ◌&&◌, List, [], ◌∷◌, some,
  arith, get_or, word, add64, ltb, leb, ◌==◌,
}
use crimson_cache.CString.{Bytes, str_eq_self}
use crimson_cache.Dict.Defs.{CcObj, Dict}
use crimson_cache.Dict.Ops.{dict_get, dict_write, is_expired, touch}
use crimson_cache.Dict.Valid.{IsValid, view}
use crimson_cache.Dict.Access.{Becomes, update, shown, dict_get_lem, dict_write_lem}
use crimson_cache.Number.{pos, to_word, atoll, print, llong_max}
use crimson_cache.Number.RoundTrip.{strtoll-print}
use crimson_cache.Reply.{reply_integer}
use crimson_cache.Commands.Keyspace.{CommandEnv, ok, expire_command, ttl_command, ttl_of}
use crimson_cache.Commands.Reads.{ttl_command_lem}

-- The expiry that EXPIRE writes.
abbrev pub expire_at : CommandEnv → List Bytes → ℕ
expire_at env argv = add64 (env.clock 2) ((to_word (atoll (get_or argv 2 [])) * 1000) % word)

pub expire_command_step :
    (env : CommandEnv) (argv : List Bytes) (d : Dict) (obj : CcObj)
    → (dict_get (env.clock 0) (env.clock 1) d (get_or argv 1 [])).0 ≡ some obj
    → expire_command env argv d
      ≡ ok
          (dict_write
            (dict_get (env.clock 0) (env.clock 1) d (get_or argv 1 [])).1
            (get_or argv 1 [])
            (record obj { expire = expire_at env argv }))
          (reply_integer (pos 1))
unfolding expire_command
expire_command_step env argv d obj found = rw (found, expire_command)

-- EXPIRE of a key that is there and has not expired answers 1 and gives the key the new expiry; its
-- value stays, and no other key changes.
pub expire_command_lem :
    {d : Dict} (v : IsValid d) (env : CommandEnv) (argv : List Bytes) (obj : CcObj)
    → view d (get_or argv 1 []) ≡ some obj
    → is_expired (env.clock 0) obj ≡ false
    → ((expire_command env argv d).written ≡ reply_integer (pos 1))
      × Becomes (expire_command env argv d).db (
          update
            (view d)
            (get_or argv 1 [])
            (some (record obj { expire = expire_at env argv; last_access = env.clock 1 })))
expire_command_lem {d} v env argv obj known live =
    let key = get_or argv 1 [] in
    let (same, b) = dict_get_lem v (env.clock 0) (env.clock 1) key in
    let held = touch (env.clock 1) obj in
    let seen : shown (env.clock 0) (env.clock 1) (view d key) ≡ some held = rw (known, live) refl in
    let stands : view (dict_get (env.clock 0) (env.clock 1) d key).1 key ≡ some held =
      b.reads key ∙ (rw (str_eq_self key) seen) in
    let w =
      dict_write_lem b.valid key (record held { expire = expire_at env argv }) held stands refl in
    rw (expire_command_step env argv d held (same ∙ seen))
      (refl, record { valid = w.valid; reads = λ q. ground (arith, w.reads q, b.reads q) })

ttl_of-shown :
    (obj : CcObj) (t now touched later : ℕ)
    → obj.expire ≡ t
    → now ≤ t
    → later < t
    → ttl_of later (shown now touched (some obj)) ≡ pos ((t - later) / 1000)
unfolding ttl_of is_expired
ttl_of-shown obj t now touched later e early before =
    let live : ltb obj.expire now ≡ false = ground arith in
    let kept : (not (obj.expire == 0) && ltb obj.expire now) ≡ false = ground arith in
    let timed : (obj.expire == 0) ≡ false = ground arith in
    let ahead : leb obj.expire later ≡ false = ground arith in rw (kept, timed, ahead, e)

-- After an EXPIRE by n seconds, and before they have passed, TTL answers the whole seconds that are
-- left, if the time of the expiry fits its 64 bits.
pub expire_command-ttl_command :
    {d : Dict} (v : IsValid d) (env later : CommandEnv) (argv : List Bytes) (ttl : Bytes)
    (obj : CcObj) (n : ℕ)
    → view d (get_or argv 1 []) ≡ some obj
    → is_expired (env.clock 0) obj ≡ false
    → get_or argv 2 [] ≡ print (pos n)
    → n ≤ llong_max
    → env.clock 2 + n * 1000 < word
    → later.clock 0 ≤ env.clock 2 + n * 1000
    → later.clock 2 < env.clock 2 + n * 1000
    → (ttl_command later (ttl ∷ get_or argv 1 [] ∷ []) (expire_command env argv d).db).written
      ≡ reply_integer (pos ((env.clock 2 + n * 1000 - later.clock 2) / 1000))
expire_command-ttl_command {d} v env later argv ttl obj n known live seconds fits small early
      before =
    let key = get_or argv 1 [] in
    let (answer, b) = expire_command_lem v env argv obj known live in
    let value : atoll (get_or argv 2 []) ≡ pos n =
      rw seconds (ap (λ r. r.0) (strtoll-print (pos n) fits)) in
    let at : expire_at env argv ≡ env.clock 2 + n * 1000 =
      rw value (unfold to_word in omega arith) in
    let new = record obj { expire = expire_at env argv; last_access = env.clock 1 } in
    let stands : view (expire_command env argv d).db key ≡ some new =
      b.reads key ∙ (rw (str_eq_self key) refl) in
    ttl_command_lem b.valid later (ttl ∷ key ∷ [])
    ∙ (rw stands (
        ap reply_integer (
          ttl_of-shown new (env.clock 2 + n * 1000) (later.clock 0) (later.clock 1) (later.clock 2)
            at early before)))
