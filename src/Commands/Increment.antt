-- ===== src/Commands/Increment.antt =====
-- INCR of src/commands.c.
use crimson_cache.Base.{
  zero, suc, ◌≢◌, ◌==◌, ◌≡◌, refl, ap, ◌∙◌, true, false, List, [], some, arith, get_or,
}
use crimson_cache.CString.{Bytes}
use crimson_cache.Dict.Defs.{CcObj, Dict, cc_string}
use crimson_cache.Dict.Ops.{dict_get, is_expired, touch}
use crimson_cache.Dict.Valid.{IsValid, view}
use crimson_cache.Dict.Access.{Becomes, update, is_some, shown, dict_get_lem, dict_get-max_memory}
use crimson_cache.Number.{ℤ, increment, strtoll, print, InRange, pos, negsuc, llong_max}
use crimson_cache.Number.RoundTrip.{strtoll-print}
use crimson_cache.Persistence.Format.{is_string}
use crimson_cache.Reply.{reply_integer}
use crimson_cache.Commands.Keyspace.{
  cmd_ok, CommandEnv, text_object, store_text, incr_from, incr_command,
}
use crimson_cache.Commands.Writes.{store_text_lem, IsAmple, has_room}

incr_command_step :
    (env : CommandEnv) (argv : List Bytes) (d : Dict) (old : CcObj) (z : ℤ)
    → (dict_get (env.clock 0) (env.clock 1) d (get_or argv 1 [])).0 ≡ some old
    → is_string old.type ≡ true
    → strtoll old.ptr ≡ (z, [])
    → incr_command env argv d
      ≡ store_text env 2
          (get_or argv 1 [])
          (print (increment z))
          old.expire
          (reply_integer (increment z))
          (dict_get (env.clock 0) (env.clock 1) d (get_or argv 1 [])).1
unfolding incr_command incr_from
incr_command_step env argv d old z found string parsed =
    let key = get_or argv 1 [] in
    let db = (dict_get (env.clock 0) (env.clock 1) d key).1 in
    rw (found, string, parsed, incr_command)
      (ap
        (λ (r : ℤ × Bytes).
          store_text env 2 key (print (increment r.0)) old.expire (reply_integer (increment r.0))
            db)
        parsed)

-- The next integer.
abbrev pub next : ℤ → ℤ
next (pos n) = pos (suc n)
next (negsuc zero) = pos 0
next (negsuc (suc n)) = negsuc n

increment-next : (z : ℤ) → z ≢ pos llong_max → increment z ≡ next z
unfolding increment
increment-next (pos n) h =
    let below : (n == llong_max) ≡ false = ground (arith, h) in rw below (ap pos (omega arith))
increment-next (negsuc zero) h = refl
increment-next (negsuc (suc n)) h = refl

-- With no memory limit and all memory granted, INCR of a key that holds a `long long` in print, not
-- the largest one, which has not expired, answers the integer after it and stores that in print with the expiry of the key; no
-- other key changes.
pub incr_command_lem :
    {d : Dict} (v : IsValid d) (env : CommandEnv) (argv : List Bytes) (old : CcObj) (z : ℤ)
    → d.max_memory ≡ 0
    → IsAmple env
    → view d (get_or argv 1 []) ≡ some old
    → is_expired (env.clock 0) old ≡ false
    → old.type ≡ cc_string
    → old.ptr ≡ print z
    → InRange z
    → z ≢ pos llong_max
    → ((incr_command env argv d).result ≡ cmd_ok)
      × ((incr_command env argv d).written ≡ reply_integer (next z))
      × Becomes (incr_command env argv d).db (
          update
            (view d)
            (get_or argv 1 [])
            (some (text_object (print (next z)) old.expire (env.clock 3))))
incr_command_lem {d} v env argv old z unlimited ample known live text number fits below =
    let key = get_or argv 1 [] in
    let (same, b) = dict_get_lem v (env.clock 0) (env.clock 1) key in
    let held = touch (env.clock 1) old in
    let seen : shown (env.clock 0) (env.clock 1) (view d key) ≡ some held = rw (known, live) refl in
    let parsed : strtoll held.ptr ≡ (z, []) = rw number (strtoll-print z fits) in
    let string : is_string held.type ≡ true = rw text (unfold is_string in refl) in
    let db = (dict_get (env.clock 0) (env.clock 1) d key).1 in
    let kept : db.max_memory ≡ 0 =
      dict_get-max_memory d (env.clock 0) (env.clock 1) key ∙ unlimited in
    let room : true ≡ has_room env (is_some (view db key)) =
      ground (arith, ample.object, ample.text, ample.entry) in
    let s =
      store_text_lem b.valid env 2 key (print (increment z)) held.expire
        (reply_integer (increment z)) true kept room in
    let run = incr_command_step env argv d held z (same ∙ seen) string parsed in
    rw⁻¹ (increment-next z below) (
      rw run (
        s.result,
        s.answer,
        record {
          valid = s.becomes.valid;
          reads = λ q. ground (arith, s.becomes.reads q, b.reads q);
        },
      ))
