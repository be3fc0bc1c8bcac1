-- ===== src/Tests.antt =====
-- Databases and commands for the theorems to be applied to.
mod Keys
mod Files
mod Lines
mod Clients
mod Sessions
mod Replicas
mod Machines
mod Dispatched
mod Processes
mod Threads
use crimson_cache.Base.{ℕ, ◌≡◌, refl, ◌^◌, ◌*◌, Bool, true, false, List, [], ◌∷◌, arith, none}
use crimson_cache.CString.{Bytes, codes}
use crimson_cache.Dict.Defs.{Dict}
use crimson_cache.Dict.Ops.{AddMemory, new_dict, dict_add}
use crimson_cache.Dict.Valid.{IsValid}
use crimson_cache.Dict.Access.{Becomes}
use crimson_cache.Dict.Create.{new_dict_lem}
use crimson_cache.Dict.Add.{dict_add-granted}
use crimson_cache.Commands.Keyspace.{CommandEnv, text_object}

abbrev given : AddMemory
given = record { table_granted = true; entry_granted = true; key_granted = true }

-- A clock that shows 7, and all memory.
abbrev calm : CommandEnv
calm = record { clock = λ n. 7; object_granted = true; text_granted = true; add_memory = given }

abbrev empty : Dict
empty = new_dict 4

empty_lem : Becomes empty (λ _. none)
empty_lem = new_dict_lem 2 4 0 refl (omega arith) (omega arith)

-- A key that stays, and another that expires after time 9.
abbrev one_key : Dict
one_key = (dict_add given 3 empty (codes "a") (text_object (codes "41") 0 3)).1

abbrev two_keys : Dict
two_keys = (dict_add given 4 one_key (codes "b") (text_object (codes "x") 9 4)).1

one_key-IsValid : IsValid one_key
one_key-IsValid =
    (dict_add-granted empty_lem.valid given 3 (codes "a") (text_object (codes "41") 0 3) refl
      refl).1.valid

one_key_unlimited : one_key.max_memory ≡ 0
one_key_unlimited =
    (dict_add-granted empty_lem.valid given 3 (codes "a") (text_object (codes "41") 0 3) refl
      refl).2

two_keys-IsValid : IsValid two_keys
two_keys-IsValid =
    (dict_add-granted one_key-IsValid given 4 (codes "b") (text_object (codes "x") 9 4)
      one_key_unlimited refl).1.valid
