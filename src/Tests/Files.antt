-- ===== src/Tests/Files.antt =====
-- A database saved and loaded again.
use crimson_cache.Base.{
  ◌⊎◌, not, ◌==◌, ℕ, ◌≡◌, refl, true, false, [], ◌∷◌, none, some, arith, inl, subst,
}
use Prim.Native.String.{String}
use mathlib.Core.List.{flatten}
use crimson_cache.CString.{Bytes, codes}
use crimson_cache.Dict.Defs.{DictEntry, Dict}
use crimson_cache.Dict.Hash.{dict_hash}
use crimson_cache.Dict.Chain.{chain_find, weight}
use crimson_cache.Dict.Lru.{dict_evict_lru_if_needed, evict, table_weight}
use crimson_cache.Dict.Ops.{dict_add, add_resized, grow_if_full, add_insert, is_expired}
use crimson_cache.Dict.Valid.{IsValid, view}
use crimson_cache.Dict.Clear.{alive, live_chain}
use crimson_cache.Commands.Keyspace.{text_object}
use crimson_cache.Persistence.Format.{is_string}
use crimson_cache.Persistence.Atomic.{save_rdb-Atomic}
use crimson_cache.Persistence.Save.{fclose, FileSystem, save_rdb_to_file}
use crimson_cache.Persistence.Load.{LoadStep, load_rdb_from_file, contents}
use crimson_cache.Persistence.Written.{sound, file_bytes, live_entries}
use crimson_cache.Persistence.Reload.{AllWritten, save_rdb-load_rdb}
use crimson_cache.Persistence.RoundTrip.{seen}
use crimson_cache.Tests.{given, empty, two_keys, empty_lem, two_keys-IsValid}

abbrev steps : ℕ → LoadStep
steps n = record {
  now_test = 5;
  now_value = 5;
  now_add = 5;
  key_granted = true;
  value_granted = true;
  object_granted = true;
  add_memory = given;
  overrun_db = λ d. d;
}

abbrev entry : String → String → ℕ → ℕ → DictEntry
entry key text expire now = record { key = codes key; val = text_object (codes text) expire now }

abbrev two_keys_stored : Dict
two_keys_stored = record {
  table = [] ∷ [] ∷ (entry "a" "41" 0 3 ∷ []) ∷ (entry "b" "x" 9 4 ∷ []) ∷ [];
  size = 4;
  used = 2;
  mask = 3;
  max_memory = 0;
  used_memory = 5;
}

two_keys-stored : two_keys ≡ two_keys_stored
unfolding dict_add add_resized grow_if_full chain_find dict_hash add_insert dict_evict_lru_if_needed
    evict table_weight weight
two_keys-stored = refl

-- At time 10 the second key has expired.
two_keys-AllWritten : AllWritten steps 10 1 two_keys_stored
unfolding live_entries live_chain is_expired flatten is_string
two_keys-AllWritten = record {
  strings = (tt, (tt, ((refl, tt), ((refl, tt), tt))));
  saves = (
    record {
      key_fits = omega arith;
      key_text = (omega arith, tt);
      ptr_fits = omega arith;
      ptr_text = (omega arith, (omega arith, tt));
      expire_fits = omega arith;
      string = refl;
    },
    tt,
  );
  texts = (refl, tt);
  ready = (
    record {
      can_load = record {
        key_memory = refl;
        value_memory = refl;
        object_memory = refl;
        in_time = inl refl;
      };
      add_room = refl;
    },
    tt,
  );
  lengths = refl;
}

save_rdb-load_rdb_example :
    (bytes : Bytes) × (save_rdb_to_file sound 10 two_keys_stored none ≡ (true, some bytes))
    × ((load_rdb_from_file steps empty (contents bytes)).0 ≡ false)
    × ((q : Bytes)
        → seen (view (load_rdb_from_file steps empty (contents bytes)).1 q)
          ≡ seen (alive 10 (view two_keys_stored q)))
save_rdb-load_rdb_example =
    save_rdb-load_rdb (subst IsValid two_keys-stored two_keys-IsValid) empty_lem refl steps 10 1
      none two_keys-AllWritten

-- The third write fails.
abbrev full_disk : FileSystem
full_disk = record { opens = true; writes = λ n. not (n == 2); lost_after = none; renames = true }

save_rdb-Atomic_example :
    (save_rdb_to_file full_disk 10 two_keys_stored none
      ≡ (true, some (fclose full_disk (file_bytes 10 two_keys_stored))))
    ⊎ (save_rdb_to_file full_disk 10 two_keys_stored none ≡ (false, none))
save_rdb-Atomic_example =
    save_rdb-Atomic full_disk 10 two_keys_stored none two_keys-AllWritten.strings
