-- ===== src/Persistence/Save.antt =====
-- `save_rdb_to_file` of src/persistence.c. Each `fwrite`, the opening and the renaming succeed or
-- fail as the file system has it; `fclose`, whose result is not looked at, may lose the end of what was
-- written.
use crimson_cache.Base.{
  ℕ, ◌+◌, Bool, true, false, List, [], ◌∷◌, ◌++◌, Option, none, some, leb, ◌==◌, if◌then◌else◌,
  length, take,
}
use crimson_cache.CString.{Bytes}
use crimson_cache.Dict.Defs.{CcObj, DictEntry, Chain, Dict}
use crimson_cache.Dict.Ops.{is_expired}
use crimson_cache.Persistence.Format.{
  rdb_magic, rdb_version, rdb_set, rdb_end, encode, type_code, is_string, ◌>>=◌,
}

pub record FileSystem : Type 0 where
  pub opens : Bool
  pub writes : ℕ → Bool
  pub lost_after : Option ℕ
  pub renames : Bool

-- What stands in the file once `fclose` has flushed it: everything, or, where the flush fails, the
-- first so many bytes.
abbrev pub fclose : FileSystem → Bytes → Bytes
fclose fs bytes = elim fs.lost_after [ none ↦ bytes | some n ↦ take n bytes ]

-- The temporary file: its bytes, and how many calls of `fwrite` there were.
pub record Temp : Type 0 where
  pub bytes : Bytes
  pub calls : ℕ

unfoldable pub fwrite : FileSystem → Bytes → Temp → Option Temp
fwrite fs bs t =
    if fs.writes t.calls then some (record { bytes = t.bytes ++ bs; calls = t.calls + 1 }) else none

unfoldable pub rdb_save_string : FileSystem → Bytes → Temp → Option Temp
rdb_save_string fs str t = do
  t₁ ← fwrite fs (encode 8 (length str)) t
  if leb 1 (length str) then fwrite fs str t₁ else some t₁

-- Behind the type: the flag, and the time if there is one.
unfoldable pub save_expiry : FileSystem → CcObj → Temp → Option Temp
save_expiry fs val t = do
  t₁ ← fwrite fs ((if val.expire == 0 then 0 else 1) ∷ []) t
  if val.expire == 0 then some t₁ else fwrite fs (encode 8 val.expire) t₁

unfoldable pub save_value : FileSystem → CcObj → Temp → Option Temp
save_value fs val t =
    if is_string val.type
    then (do t₁ ← fwrite fs (rdb_set ∷ []) t; rdb_save_string fs val.ptr t₁)
    else some t

unfoldable pub save_entry : FileSystem → DictEntry → Temp → Option Temp
save_entry fs e t = do
  t₁ ← rdb_save_string fs e.key t
  t₂ ← fwrite fs (encode 4 (type_code e.val.type)) t₁
  t₃ ← save_expiry fs e.val t₂
  save_value fs e.val t₃

unfoldable pub save_chain : FileSystem → ℕ → Chain → Temp → Option Temp
save_chain fs now [] t = some t
save_chain fs now (e ∷ c) t =
    if is_expired now e.val
    then save_chain fs now c t
    else (do t₁ ← save_entry fs e t; save_chain fs now c t₁)

unfoldable pub save_table : FileSystem → ℕ → List Chain → Temp → Option Temp
save_table fs now [] t = some t
save_table fs now (c ∷ cs) t = do t₁ ← save_chain fs now c t; save_table fs now cs t₁

-- The whole file, in the order of the calls.
unfoldable pub save_all : FileSystem → ℕ → Dict → Option Temp
save_all fs now db = do
  t₁ ← fwrite fs rdb_magic (record { bytes = []; calls = 0 })
  t₂ ← fwrite fs (encode 4 rdb_version) t₁
  t₃ ← fwrite fs (encode 8 db.used) t₂
  t₄ ← save_table fs now db.table t₃
  fwrite fs (rdb_end ∷ []) t₄

-- The answer, and the file under `filename` afterwards, `old` before.
unfoldable pub save_rdb_to_file : FileSystem → ℕ → Dict → Option Bytes → Bool × Option Bytes
save_rdb_to_file fs now db old =
    if fs.opens
    then elim (save_all fs now db) [
      | none ↦ (false, old)
      | some t ↦ if fs.renames then (true, some (fclose fs t.bytes)) else (false, old)
    ]
    else (false, old)
