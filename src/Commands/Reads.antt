-- ===== src/Commands/Reads.antt =====
-- GET, DEL and TTL of src/commands.c, on the map that the database means.
use crimson_cache.Base.{
  ℕ, ◌+◌, ◌≡◌, refl, ap, Bool, true, false, ◌||◌, List, [], ◌∷◌, Option, none, arith, if◌then◌else◌,
  get_or,
}
use crimson_cache.CString.{Bytes, str_eq}
use crimson_cache.Dict.Defs.{CcObj, Dict}
use crimson_cache.Dict.Ops.{dict_delete}
use crimson_cache.Dict.Valid.{IsValid, view}
use crimson_cache.Dict.Access.{Becomes, update, is_some, shown, dict_get_lem, dict_delete_lem}
use crimson_cache.Number.{pos}
use crimson_cache.Reply.{reply_integer}
use crimson_cache.Commands.Keyspace.{
  CommandEnv, arguments, bulk_of, get_command, del_command, delete_each, ttl_command, ttl_of,
}

-- GET answers the value of a string key that has not expired, and else the null reply.
pub get_command_lem :
    {d : Dict} (v : IsValid d) (env : CommandEnv) (argv : List Bytes)
    → ((get_command env argv d).written
        ≡ bulk_of (shown (env.clock 0) (env.clock 1) (view d (get_or argv 1 []))))
      × Becomes (get_command env argv d).db (
          update
            (view d)
            (get_or argv 1 [])
            (shown (env.clock 0) (env.clock 1) (view d (get_or argv 1 []))))
unfolding get_command
get_command_lem v env argv =
    let (same, b) = dict_get_lem v (env.clock 0) (env.clock 1) (get_or argv 1 []) in
    (ap bulk_of same, b)

pub ttl_command_lem :
    {d : Dict} (v : IsValid d) (env : CommandEnv) (argv : List Bytes)
    → (ttl_command env argv d).written
      ≡ reply_integer
          (ttl_of (env.clock 2) (shown (env.clock 0) (env.clock 1) (view d (get_or argv 1 []))))
unfolding ttl_command
ttl_command_lem v env argv =
    let (same, b) = dict_get_lem v (env.clock 0) (env.clock 1) (get_or argv 1 []) in
    ap (λ (o : Option CcObj). reply_integer (ttl_of (env.clock 2) o)) same

-- Whether a key is among others.
abbrev pub named : Bytes → List Bytes → Bool
named q [] = false
named q (key ∷ keys) = str_eq key q || named q keys

-- How many of the keys are there, each counted once: those behind see the map without it.
abbrev pub present : (Bytes → Option CcObj) → List Bytes → ℕ
present f [] = 0
present f (key ∷ keys) = (if is_some (f key) then 1 else 0) + present (update f key none) keys

present-same :
    (keys : List Bytes) (f g : Bytes → Option CcObj)
    → ((q : Bytes) → f q ≡ g q)
    → present f keys ≡ present g keys
present-same [] f g h = refl
present-same (key ∷ keys) f g h =
    let rest =
      present-same keys (update f key none) (update g key none) (λ q. ground (arith, h q)) in
    rw (h key, rest)

sum_up :
    (f : Bytes → Option CcObj) (key : Bytes) (keys : List Bytes) (found : Bool) (n : ℕ)
    {total m : ℕ}
    → found ≡ is_some (f key)
    → m ≡ present (update f key none) keys
    → total ≡ (if found then n + 1 else n) + m
    → total ≡ n + present f (key ∷ keys)
sum_up f key keys true n e same sum = rw⁻¹ e (omega arith)
sum_up f key keys false n e same sum = rw⁻¹ e (omega arith)

delete_each_lem :
    (keys : List Bytes) (n : ℕ) {d : Dict} (v : IsValid d)
    → ((delete_each keys n d).0 ≡ n + present (view d) keys)
      × Becomes (delete_each keys n d).1 (λ q. if named q keys then none else view d q)
unfolding delete_each
delete_each_lem [] n v = (omega arith, record { valid = v; reads = λ q. refl })
delete_each_lem (key ∷ keys) n {d} v =
    let (found, b) = dict_delete_lem v key in
    let (sum, rest) = delete_each_lem keys (if (dict_delete d key).0 then n + 1 else n) b.valid in
    (
      sum_up (view d) key keys (dict_delete d key).0 n found
          (present-same keys (view (dict_delete d key).1) (update (view d) key none) b.reads) sum,
      record { valid = rest.valid; reads = λ q. ground (arith, rest.reads q, b.reads q) },
    )

-- DEL removes all the keys that it is given and no other, and answers how many of them there were.
pub del_command_lem :
    {d : Dict} (v : IsValid d) (argv : List Bytes)
    → ((del_command argv d).written ≡ reply_integer (pos (present (view d) (arguments argv))))
      × Becomes (del_command argv d).db (λ q. if named q (arguments argv) then none else view d q)
unfolding del_command
del_command_lem {d} v argv =
    let (sum, b) = delete_each_lem (arguments argv) 0 v in
    let deleted : (delete_each (arguments argv) 0 d).0 ≡ present (view d) (arguments argv) =
      omega (arith, sum) in
    (ap (λ (n : ℕ). reply_integer (pos n)) deleted, b)
