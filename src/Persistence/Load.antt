-- ===== src/Persistence/Load.antt =====
-- `load_rdb_from_file` of src/persistence.c, on the bytes of the file.
use crimson_cache.Base.{
  uint64_max, ℕ, zero, suc, ◌+◌, Bool, true, false, ◌&&◌, [], Option, none, some, ltb, ◌==◌,
  if◌then◌else◌, length,
}
use crimson_cache.CString.{Bytes, str_eq}
use crimson_cache.Dict.Defs.{CcObj, Dict, cc_string}
use crimson_cache.Dict.Ops.{AddMemory, dict_add}
use crimson_cache.Persistence.Format.{
  rdb_magic, rdb_version, rdb_set, rdb_end, decode, read, until_nul, ◌>>=◌,
}

-- What the clock shows and the allocations give while one entry is read, and what an overrun of the
-- heap leaves of the dictionary, which may be anything.
pub record LoadStep : Type 0 where
  pub now_test : ℕ
  pub now_value : ℕ
  pub now_add : ℕ
  pub key_granted : Bool
  pub value_granted : Bool
  pub object_granted : Bool
  pub add_memory : AddMemory
  pub overrun_db : Dict → Dict

-- What stands behind the pointer: a text, or nothing that can be said, as `malloc(*len + 1)` wrapped
-- around to `malloc(0)` and the read ran over the heap.
pub data Loaded : Type 0 where
  text : Bytes → Loaded
  overrun : Loaded

unfoldable pub rdb_load_string : Bool → Bytes → Option (Loaded × Bytes)
rdb_load_string granted bs = do
  (len, bs₁) ← read 8 bs
  if granted
      then (if decode len == uint64_max
          then some (overrun, [])
          else (do (str, bs₂) ← read (decode len) bs₁; some (text str, bs₂)))
      else none

-- What the bytes of one entry ask for: nothing, as it has expired, or a key with its value; or the
-- heap was overrun.
pub data Action : Type 0 where
  skip ruin : Action
  store : Bytes → CcObj → Action

-- The value of an expired entry is read over; a command that is not known is not.
unfoldable pub skip_value : LoadStep → Bytes → Option (Action × Bytes)
skip_value env bs = do
  (cmd, bs₁) ← read 1 bs
  if decode cmd == rdb_set
      then (do
        (val, bs₂) ← rdb_load_string env.value_granted bs₁
        elim val [ text str ↦ some (skip, bs₂) | overrun ↦ some (ruin, []) ])
      else some (skip, bs₁)

unfoldable pub load_value : LoadStep → Bytes → ℕ → Bytes → Option (Action × Bytes)
load_value env key expire bs = do
  (cmd, bs₁) ← read 1 bs
  if decode cmd == rdb_set
      then (do
        (val, bs₂) ← rdb_load_string env.value_granted bs₁
        elim val [
          | text str ↦
              if env.object_granted
              then some (
                store (until_nul key) (record {
                  ptr = until_nul str;
                  type = cc_string;
                  expire = expire;
                  size = length str + 1;
                  last_access = env.now_value;
                }),
                bs₂,
              )
              else none
          | overrun ↦ some (ruin, [])
        ])
      else none

-- Behind the key.
unfoldable pub load_typed : LoadStep → Bytes → Bytes → Option (Action × Bytes)
load_typed env key bs₁ = do
  (type, bs₂) ← read 4 bs₁
  (has_expiry, bs₃) ← read 1 bs₂
  if decode has_expiry == 0 then load_value env key 0 bs₃ else (do
    (time, bs₄) ← read 8 bs₃
    if ltb (decode time) env.now_test
        then skip_value env bs₄
        else load_value env key (decode time) bs₄)

unfoldable pub load_entry : LoadStep → Bytes → Option (Action × Bytes)
load_entry env bs = do
  (key, bs₁) ← rdb_load_string env.key_granted bs
  elim key [ text str ↦ load_typed env str bs₁ | overrun ↦ some (ruin, []) ]

-- The state of the loop: whether it goes on, the dictionary, and the rest of the file.
pub record Loading : Type 0 where
  pub going : Bool
  pub db : Dict
  pub rest : Bytes

unfoldable pub apply_action : LoadStep → Dict → Option (Action × Bytes) → Loading
apply_action env d none = record { going = false; db = d; rest = [] }
apply_action env d (some (skip, bs)) = record { going = true; db = d; rest = bs }
apply_action env d (some (ruin, bs)) = record { going = false; db = env.overrun_db d; rest = [] }
apply_action env d (some (store key val, bs)) =
    let (done, d') = dict_add env.add_memory env.now_add d key val in
    record { going = done; db = d'; rest = bs }

-- `for (i = 0; i < entries_count; i++)`, with the number of rounds left.
unfoldable pub load_entries : (ℕ → LoadStep) → ℕ → Bytes → Dict → Loading
load_entries env zero bs d = record { going = true; db = d; rest = bs }
load_entries env (suc n) bs d =
    let s = apply_action (env n) d (load_entry (env n) bs) in
    elim s.going [ true ↦ load_entries env n s.rest s.db | false ↦ s ]

-- The header up to the count of entries.
unfoldable pub load_header : Bytes → Option (ℕ × Bytes)
load_header bs = do
  (magic, bs₁) ← read 4 bs
  if str_eq magic rdb_magic
      then (do
        (version, bs₂) ← read 4 bs₁
        if decode version == rdb_version
            then (do (count, bs₃) ← read 8 bs₂; some (decode count, bs₃))
            else none)
      else none

unfoldable pub ends_well : Bytes → Bool
ends_well bs = elim (read 1 bs) [ none ↦ false | some (marker, rest) ↦ decode marker == rdb_end ]

unfoldable pub finish : Loading → Bool × Dict
finish s = (s.going && ends_well s.rest, s.db)

-- On the bytes of a file that could be opened.
unfoldable pub load_bytes : (ℕ → LoadStep) → Dict → Bytes → Bool × Dict
load_bytes env d bs = elim (load_header bs) [
  | none ↦ (false, d)
  | some (count, rest) ↦ finish (load_entries env count rest d)
]

-- What `fopen` finds.
pub data Opened : Type 0 where
  missing unreadable : Opened
  contents : Bytes → Opened

unfoldable pub load_rdb_from_file : (ℕ → LoadStep) → Dict → Opened → Bool × Dict
load_rdb_from_file env d missing = (true, d)
load_rdb_from_file env d unreadable = (false, d)
load_rdb_from_file env d (contents bs) = load_bytes env d bs
