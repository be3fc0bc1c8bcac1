-- ===== src/Tests/Keys.antt =====
-- The theorems on the dictionary and on the commands for keys, at databases of one or two keys.
use crimson_cache.Base.{
  List, ◌+◌, ◌≡◌, refl, ◌^◌, true, ◌||◌, ◌&&◌, ltb, [], ◌∷◌, none, some, arith, if◌then◌else◌, word,
  ◌⊎◌, ◌*◌,
}
use crimson_cache.CString.{Bytes, codes, str_eq}
use crimson_cache.Dict.Defs.{Dict}
use crimson_cache.Dict.Ops.{
  dict_create, dict_add, dict_delete, dict_get, dict_resize, dict_clear_expired, touch, is_expired,
  new_dict, add_insert,
}
use crimson_cache.Dict.Lru.{dict_evict_lru_if_needed, within_limit}
use crimson_cache.Dict.Valid.{IsValid, view}
use crimson_cache.Dict.Access.{Becomes, update, is_some, shown, dict_delete_lem, dict_get_lem}
use crimson_cache.Dict.Create.{IsFresh, dict_create-IsFresh, dict_create_diverges, new_dict_lem}
use crimson_cache.Dict.Resize.{dict_resize_lem}
use crimson_cache.Dict.Insert.{add_insert_lem}
use crimson_cache.Dict.Clear.{alive, dict_clear_expired_lem}
use crimson_cache.Dict.Evict.{Timely, Evictions, dict_evict-Evictions}
use crimson_cache.Dict.Add.{
  granted, dict_add_unlimited, dict_add-IsTrimmed, dict_add-granted, dict_add_lem,
}
use crimson_cache.Commands.Keyspace.{
  text_object, set_command, del_command, incr_command, cmd_ok, expire_option, expire_command,
  ttl_command,
}
use crimson_cache.Commands.Expiry.{expire_at, expire_command_lem, expire_command-ttl_command}
use crimson_cache.Commands.Reads.{named, present, del_command_lem}
use crimson_cache.Commands.Writes.{IsAmple, Stores, set_command_lem}
use crimson_cache.Commands.Increment.{incr_command_lem}
use crimson_cache.Number.{pos, print, print_nat, digits}
use crimson_cache.Reply.{reply_integer}
use crimson_cache.Tests.{
  given, calm, empty, one_key, two_keys, empty_lem, one_key-IsValid, two_keys-IsValid,
  one_key_unlimited,
}

dict_create-IsFresh_example :
    (d : Dict) × (dict_create 64 true true 16 ≡ some (some d)) × IsFresh 16 d
dict_create-IsFresh_example = dict_create-IsFresh 16 (omega arith)

dict_create_diverges_example : dict_create 100 true true (2 ^ 63 + 1) ≡ none
dict_create_diverges_example = dict_create_diverges 100 (2 ^ 63 + 1) true (omega arith)

dict_delete_lem_example :
    ((dict_delete two_keys (codes "a")).0 ≡ is_some (view two_keys (codes "a")))
    × Becomes (dict_delete two_keys (codes "a")).1 (update (view two_keys) (codes "a") none)
dict_delete_lem_example = dict_delete_lem two_keys-IsValid (codes "a")

dict_get_lem_example :
    ((dict_get 11 12 two_keys (codes "b")).0 ≡ shown 11 12 (view two_keys (codes "b")))
    × Becomes
        (dict_get 11 12 two_keys (codes "b")).1
        (update (view two_keys) (codes "b") (shown 11 12 (view two_keys (codes "b"))))
dict_get_lem_example = dict_get_lem two_keys-IsValid 11 12 (codes "b")

dict_resize_lem_example :
    Becomes (dict_resize true two_keys) (view two_keys)
    × ((dict_resize true two_keys).max_memory ≡ two_keys.max_memory)
    × ((dict_resize true two_keys).size
        ≡ (if true && ltb (two_keys.size * 2 * 8) word then two_keys.size * 2 else two_keys.size))
dict_resize_lem_example = dict_resize_lem two_keys-IsValid true

dict_clear_expired_lem_example :
    Becomes (dict_clear_expired 10 two_keys) (λ q. alive 10 (view two_keys q))
    × ((dict_clear_expired 10 two_keys).max_memory ≡ two_keys.max_memory)
dict_clear_expired_lem_example = dict_clear_expired_lem two_keys-IsValid 10

dict_add_unlimited_example :
    ((dict_add given 3 empty (codes "a") (text_object (codes "41") 0 3)).0
      ≡ is_some (view empty (codes "a")) || granted given)
    × Becomes (dict_add given 3 empty (codes "a") (text_object (codes "41") 0 3)).1 (
        if (dict_add given 3 empty (codes "a") (text_object (codes "41") 0 3)).0
        then update (view empty) (codes "a") (some (touch 3 (text_object (codes "41") 0 3)))
        else view empty)
dict_add_unlimited_example =
    dict_add_unlimited empty_lem.valid given 3 (codes "a") (text_object (codes "41") 0 3) refl

set_command_lem_example :
    Stores true 7
      (codes "k")
      (codes "v")
      (expire_option 7 (codes "set" ∷ codes "k" ∷ codes "v" ∷ []))
      (codes "+OK\r\n")
      (codes "-ERR could not set key\r\n")
      empty
      (set_command calm (codes "set" ∷ codes "k" ∷ codes "v" ∷ []) empty)
set_command_lem_example =
    set_command_lem empty_lem.valid calm (codes "set" ∷ codes "k" ∷ codes "v" ∷ []) true refl
      (ground arith)

calm-IsAmple : IsAmple calm
calm-IsAmple = record { object = refl; text = refl; entry = refl }

abbrev set_ten : List Bytes
set_ten = codes "set" ∷ codes "k" ∷ codes "v" ∷ codes "ex" ∷ codes "10" ∷ []

del_command_lem_example :
    ((del_command (codes "del" ∷ codes "a" ∷ codes "a" ∷ []) two_keys).written
      ≡ reply_integer (pos (present (view two_keys) (codes "a" ∷ codes "a" ∷ []))))
    × Becomes
        (del_command (codes "del" ∷ codes "a" ∷ codes "a" ∷ []) two_keys).db
        (λ q. if named q (codes "a" ∷ codes "a" ∷ []) then none else view two_keys q)
del_command_lem_example =
    del_command_lem two_keys-IsValid (codes "del" ∷ codes "a" ∷ codes "a" ∷ [])

one_key-view : view one_key (codes "a") ≡ some (text_object (codes "41") 0 3)
unfolding str_eq
one_key-view =
    (dict_add-granted empty_lem.valid given 3 (codes "a") (text_object (codes "41") 0 3) refl
        refl).1.reads
      (codes "a")

incr_command_lem_example :
    ((incr_command calm (codes "incr" ∷ codes "a" ∷ []) one_key).result ≡ cmd_ok)
    × ((incr_command calm (codes "incr" ∷ codes "a" ∷ []) one_key).written ≡ reply_integer (pos 42))
    × Becomes
        (incr_command calm (codes "incr" ∷ codes "a" ∷ []) one_key).db
        (update (view one_key) (codes "a") (some (text_object (print (pos 42)) 0 7)))
incr_command_lem_example =
    incr_command_lem one_key-IsValid calm (codes "incr" ∷ codes "a" ∷ [])
      (text_object (codes "41") 0 3) (pos 41) one_key_unlimited calm-IsAmple one_key-view
      (unfold is_expired in refl) refl (unfold print print_nat digits in refl) (omega arith)
      (λ e. absurd (ground (arith, e)))

-- An empty database with room for two bytes, and one with more in it than that.
abbrev small : Dict
small = record (new_dict 4) { max_memory = 2 }

small_lem : Becomes small (λ _. none)
small_lem = new_dict_lem 2 4 2 refl (omega arith) (omega arith)

small-Timely : Timely small
small-Timely q val h = absurd (cc (h, small_lem.reads q))

abbrev crowded : Dict
crowded = add_insert 3 small (codes "a") (text_object (codes "41") 0 3)

crowded_lem :
    Becomes crowded (update (view small) (codes "a") (some (text_object (codes "41") 0 3)))
crowded_lem =
    add_insert_lem small_lem.valid 3 (codes "a") (text_object (codes "41") 0 3)
      (small_lem.reads (codes "a"))

crowded-Timely : Timely crowded
crowded-Timely q val h = ground (arith, h, crowded_lem.reads q, small_lem.reads q)

dict_evict-Evictions_example : Evictions crowded (dict_evict_lru_if_needed crowded)
dict_evict-Evictions_example = dict_evict-Evictions crowded_lem.valid crowded-Timely

dict_add-IsTrimmed_example :
    IsValid (dict_add given 3 small (codes "a") (text_object (codes "4") 0 3)).1
    × (within_limit (dict_add given 3 small (codes "a") (text_object (codes "4") 0 3)).1 ≡ true)
    × ((q : Bytes)
        → (view (dict_add given 3 small (codes "a") (text_object (codes "4") 0 3)).1 q
            ≡ update (view small) (codes "a") (some (text_object (codes "4") 0 3)) q)
          ⊎ (view (dict_add given 3 small (codes "a") (text_object (codes "4") 0 3)).1 q ≡ none))
dict_add-IsTrimmed_example =
    dict_add-IsTrimmed small_lem.valid given 3 (codes "a") (text_object (codes "4") 0 3)
      small-Timely (omega arith)
      (ground (
        arith,
        (dict_add_lem small_lem.valid given 3 (codes "a") (text_object (codes "4") 0 3)).answer,
      ))

abbrev expire_args : List Bytes
expire_args = codes "expire" ∷ codes "a" ∷ codes "10" ∷ []

expire_command_lem_example :
    ((expire_command calm expire_args one_key).written ≡ reply_integer (pos 1))
    × Becomes (expire_command calm expire_args one_key).db (
        update (view one_key) (codes "a") (
          some (record (text_object (codes "41") 0 3) {
            expire = expire_at calm expire_args;
            last_access = 7;
          })))
expire_command_lem_example =
    expire_command_lem one_key-IsValid calm expire_args (text_object (codes "41") 0 3) one_key-view
      (unfold is_expired in refl)

expire_command-ttl_command_example :
    (ttl_command calm
      (codes "ttl" ∷ codes "a" ∷ [])
      (expire_command calm expire_args one_key).db).written
    ≡ reply_integer (pos 10)
expire_command-ttl_command_example =
    expire_command-ttl_command one_key-IsValid calm calm expire_args (codes "ttl")
      (text_object (codes "41") 0 3) 10 one_key-view (unfold is_expired in refl)
      (unfold print print_nat digits in refl) (omega arith) (omega arith) (omega arith)
      (omega arith)
