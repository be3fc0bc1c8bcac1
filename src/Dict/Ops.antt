-- ===== src/Dict/Ops.antt =====
-- The operations of src/dict.c. Each reading of the clock is an argument, and so is the outcome of
-- each allocation. `dict_free`, which only releases memory, is not modelled.
use crimson_cache.Base.{
  ℕ, zero, suc, ◌*◌, ◌%◌, Bool, true, false, not, ◌&&◌, List, [], ◌∷◌, Option, none, some, ltb, leb,
  ◌==◌, if◌then◌else◌, get_or, set, replicate, word, add64, sub64,
}
use crimson_cache.CString.{Bytes}
use crimson_cache.Dict.Hash.{index}
use crimson_cache.Dict.Defs.{CcObj, Chain, Dict, bucket}
use crimson_cache.Dict.Chain.{chain_find, chain_assign, chain_delete}
use crimson_cache.Dict.Lru.{dict_evict_lru_if_needed}

-- `while (size < initial_size) size *= 2`, on fuel
unfoldable pub round_up : ℕ → ℕ → ℕ → Option ℕ
round_up zero size initial_size = none
round_up (suc fuel) size initial_size =
    let rest = round_up fuel ((size * 2) % word) initial_size in
    if ltb size initial_size then rest else some size

-- `calloc(n, sizeof(p))` fails where the size in bytes overflows, and may fail elsewhere.
abbrev pub calloc_table : Bool → ℕ → Bool
calloc_table granted n = granted && ltb (n * 8) word

abbrev pub new_dict : ℕ → Dict
new_dict size = record {
  table = replicate size [];
  size = size;
  used = 0;
  mask = sub64 size 1;
  max_memory = 0;
  used_memory = 0;
}

unfoldable pub dict_of_size : Bool → Option ℕ → Option (Option Dict)
dict_of_size granted none = none
dict_of_size granted (some size) =
    some (if calloc_table granted size then some (new_dict size) else none)

-- The outer `none`: the fuel of the loop ran out. The inner one: NULL.
unfoldable pub dict_create : ℕ → Bool → Bool → ℕ → Option (Option Dict)
unfolding round_up dict_of_size
dict_create fuel dict_granted table_granted initial_size =
    if dict_granted
    then dict_of_size table_granted
        (round_up fuel 1 (if ltb initial_size 4 then 4 else initial_size))
    else some none

-- One bucket of the old table, entry by entry, to the front of its bucket in the new one.
unfoldable pub move_chain : ℕ → Chain → List Chain → List Chain
move_chain mask [] fresh = fresh
move_chain mask (e ∷ c) fresh =
    let idx = index e.key mask in move_chain mask c (set fresh idx (e ∷ get_or fresh idx []))

unfoldable pub move_all : ℕ → List Chain → List Chain → List Chain
unfolding move_chain
move_all mask [] fresh = fresh
move_all mask (c ∷ cs) fresh = move_all mask cs (move_chain mask c fresh)

unfoldable pub dict_resize : Bool → Dict → Dict
unfolding move_all
dict_resize granted d =
    let new_size = (d.size * 2) % word in
    if calloc_table granted new_size
    then record d {
      table = move_all (sub64 new_size 1) d.table (replicate new_size []);
      size = new_size;
      mask = sub64 new_size 1;
    }
    else d

-- What the allocations of one `dict_add` give: the table of a resize, the entry, the copy of the key.
pub record AddMemory : Type 0 where
  pub table_granted : Bool
  pub entry_granted : Bool
  pub key_granted : Bool

-- `val->last_access = current_time_ms()`
abbrev pub touch : ℕ → CcObj → CcObj
touch now val = record val { last_access = now }

unfoldable pub add_update : ℕ → Dict → Bytes → CcObj → CcObj → Dict
add_update now d key val old = record d {
  table = set d.table (index key d.mask) (chain_assign key (touch now val) (bucket d key));
  used_memory = add64 (sub64 d.used_memory old.size) val.size;
}

unfoldable pub add_insert : ℕ → Dict → Bytes → CcObj → Dict
add_insert now d key val = record d {
  table = set d.table (index key d.mask) (record { key = key; val = touch now val } ∷ bucket d key);
  used_memory = add64 d.used_memory val.size;
  used = add64 d.used 1;
}

-- `dict_add` behind the resize
unfoldable pub add_resized : AddMemory → ℕ → Dict → Bytes → CcObj → Bool × Dict
unfolding add_update add_insert
add_resized mem now d key val = elim (chain_find key (bucket d key)) [
  | some old ↦ (true, dict_evict_lru_if_needed (add_update now d key val old))
  | none ↦
      if mem.entry_granted && mem.key_granted
      then (true, dict_evict_lru_if_needed (add_insert now d key val))
      else (false, d)
]

unfoldable pub grow_if_full : AddMemory → Dict → Dict
grow_if_full mem d = if leb d.size d.used then dict_resize mem.table_granted d else d

unfoldable pub dict_add : AddMemory → ℕ → Dict → Bytes → CcObj → Bool × Dict
unfolding add_resized grow_if_full
dict_add mem now d key val = add_resized mem now (grow_if_full mem d) key val

unfoldable pub dict_delete : Dict → Bytes → Bool × Dict
dict_delete d key = elim (chain_find key (bucket d key)) [
  | none ↦ (false, d)
  | some old ↦ (
    true,
    record d {
      table = set d.table (index key d.mask) (chain_delete key (bucket d key));
      used_memory = sub64 d.used_memory old.size;
      used = sub64 d.used 1;
    },
  )
]

-- `expire != 0 && expire < now`
unfoldable pub is_expired : ℕ → CcObj → Bool
is_expired now val = not (val.expire == 0) && ltb val.expire now

-- Writing through the pointer to a value that stands in the dictionary.
unfoldable pub dict_write : Dict → Bytes → CcObj → Dict
dict_write d key val = record d {
  table = set d.table (index key d.mask) (chain_assign key val (bucket d key));
}

-- `now` is read for the test, `later` for the access time.
unfoldable pub dict_get : ℕ → ℕ → Dict → Bytes → Option CcObj × Dict
unfolding is_expired dict_delete dict_write
dict_get now later d key = elim (chain_find key (bucket d key)) [
  | none ↦ (none, d)
  | some val ↦
      if is_expired now val
      then (none, (dict_delete d key).1)
      else (some (touch later val), dict_write d key (touch later val))
]

-- `dict_clear_expired`: what is left of a chain, with the two counters.
pub record Swept : Type 0 where
  pub kept : Chain
  pub used_left : ℕ
  pub memory_left : ℕ

unfoldable pub sweep_chain : ℕ → Chain → ℕ → ℕ → Swept
unfolding is_expired
sweep_chain now [] used memory = record { kept = []; used_left = used; memory_left = memory }
sweep_chain now (e ∷ c) used memory =
    let gone = is_expired now e.val in
    let rest =
      sweep_chain now c (if gone then sub64 used 1 else used)
        (if gone then sub64 memory e.val.size else memory) in
    if gone then rest else record rest { kept = e ∷ rest.kept }

unfoldable pub sweep_table : ℕ → List Chain → Dict → Dict
unfolding sweep_chain
sweep_table now [] d = record d { table = [] }
sweep_table now (c ∷ cs) d =
    let s = sweep_chain now c d.used d.used_memory in
    let rest = sweep_table now cs (record d { used = s.used_left; used_memory = s.memory_left }) in
    record rest { table = s.kept ∷ rest.table }

unfoldable pub dict_clear_expired : ℕ → Dict → Dict
unfolding sweep_table
dict_clear_expired now d = sweep_table now d.table d
