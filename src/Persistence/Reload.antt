-- ===== src/Persistence/Reload.antt =====
-- A saved database is loaded again; and what happens where it held expired keys.
use crimson_cache.Base.{
  ℕ, zero, suc, ◌+◌, ◌≤◌, ◌<◌, ◌≡◌, refl, ap, ◌∙◌, Bool, true, List, [], ◌∷◌, ◌++◌, Option, none,
  some, arith, ◌==◌, length, subst, All, word,
}
use mathlib.Core.List.{flatten}
use crimson_cache.CString.{Bytes, str_eq_self}
use crimson_cache.Dict.Defs.{CcObj, Chain, Dict}
use crimson_cache.Dict.Chain.{chain_find, count}
use crimson_cache.Dict.Valid.{IsValid, view}
use crimson_cache.Dict.Access.{Becomes}
use crimson_cache.Dict.Resize.{flatten-view}
use crimson_cache.Dict.Clear.{dict_clear_expired_lem, dict_clear_expired-table, alive}
use crimson_cache.Persistence.Written.{
  sound, file_bytes, live_entries, AllStrings, save_rdb-file_bytes,
}
use crimson_cache.Persistence.Save.{save_rdb_to_file}
use crimson_cache.Persistence.Format.{rdb_magic, rdb_version, rdb_end, encode, read}
use crimson_cache.Persistence.Load.{
  LoadStep, apply_action, load_entry, load_entries, load_header, ends_well, finish, load_bytes,
  load_rdb_from_file, contents, rdb_load_string,
}
use crimson_cache.Persistence.Codec.{
  entries_before, CanSave, read-append, read-encode, decode-encode, decode_one,
}
use crimson_cache.Persistence.RoundTrip.{AllReady, restore, seen, IsText, load_entries-restore}

-- The entries that are written are the map without the expired keys.
live_entries-view :
    {d : Dict} (v : IsValid d) (now : ℕ) (q : Bytes)
    → (chain_find q (live_entries now d.table) ≡ alive now (view d q))
      × (count q (live_entries now d.table) ≤ 1)
unfolding live_entries
live_entries-view {d} v now q =
    let (b, limit) = dict_clear_expired_lem v now in
    let (same, once) = flatten-view b.valid q in
    let table = dict_clear_expired-table v now in
    (
      subst (λ (t : List Chain). chain_find q (flatten t) ≡ alive now (view d q)) table
          (same ∙ b.reads q),
      subst (λ (t : List Chain). count q (flatten t) ≤ 1) table once,
    )

load_header-file :
    (now : ℕ) (d : Dict)
    → d.used < word
    → load_header (file_bytes now d)
      ≡ some (d.used, entries_before (live_entries now d.table) (rdb_end ∷ []))
unfolding load_header file_bytes
load_header-file now d h =
    let body = entries_before (live_entries now d.table) (rdb_end ∷ []) in
    rw (
      read-append rdb_magic (encode 4 rdb_version ++ (encode 8 d.used ++ body)),
      str_eq_self rdb_magic,
      read-encode 4 rdb_version (encode 8 d.used ++ body),
      decode-encode 4 rdb_version (omega arith),
      read-encode 8 d.used body,
      decode-encode 8 d.used h,
    )

-- At the end marker the loop is done, or one more entry cannot be read.
load_entries-end :
    (env : ℕ → LoadStep) (k : ℕ) (d : Dict)
    → finish (load_entries env k (rdb_end ∷ []) d) ≡ (k == 0, d)
unfolding load_entries finish ends_well load_entry rdb_load_string read apply_action
load_entries-end env zero d =
    let marked : ends_well (rdb_end ∷ []) ≡ true = rw (decode_one rdb_end) in
    ap (λ (b : Bool). (b, d)) marked
load_entries-end env (suc k) d = ground arith

find_else-none : (o : Option CcObj) → seen (elim o [ none ↦ none | some val ↦ some val ]) ≡ seen o
find_else-none none = refl
find_else-none (some val) = refl

-- What a save and a load need for every entry that is written.
pub record AllWritten (env : ℕ → LoadStep) (now k : ℕ) (d : Dict) : Type 0 where
  pub strings : All AllStrings d.table
  pub saves : All CanSave (live_entries now d.table)
  pub texts : All IsText (live_entries now d.table)
  pub ready : AllReady env k (live_entries now d.table)
  pub lengths : d.used ≡ length (live_entries now d.table) + k

load_bytes-some :
    (env : ℕ → LoadStep) (d : Dict) (bs rest : Bytes) (n : ℕ)
    → load_header bs ≡ some (n, rest)
    → load_bytes env d bs ≡ finish (load_entries env n rest d)
unfolding load_bytes
load_bytes-some env d bs rest n e = rw (e, load_bytes)

module _ {d d0 : Dict} (v : IsValid d) (empty : Becomes d0 (λ q. none))
    (unlimited : d0.max_memory ≡ 0) (env : ℕ → LoadStep) (now k : ℕ)
    (w : AllWritten env now k d) where
  load_bytes-file :
      load_bytes env d0 (file_bytes now d) ≡ (k == 0, restore env k (live_entries now d.table) d0)
  load_bytes-file =
      let live = live_entries now d.table in
      let (run, valid, reads) =
        load_entries-restore env k live (rdb_end ∷ []) empty unlimited w.saves w.texts w.ready
          (λ q. (live_entries-view v now q).1) in
      load_bytes-some env d0 (file_bytes now d) (entries_before live (rdb_end ∷ [])) d.used
        (load_header-file now d (omega (arith, v.counted)))
      ∙ ap (λ (n : ℕ). finish (load_entries env n (entries_before live (rdb_end ∷ [])) d0))
          w.lengths
      ∙ ap finish run
      ∙ load_entries-end env k (restore env k live d0)

  restored :
      IsValid (restore env k (live_entries now d.table) d0)
      × ((q : Bytes)
          → seen (view (restore env k (live_entries now d.table) d0) q)
            ≡ seen (alive now (view d q)))
  restored =
      let live = live_entries now d.table in
      let (run, valid, reads) =
        load_entries-restore env k live (rdb_end ∷ []) empty unlimited w.saves w.texts w.ready
          (λ q. (live_entries-view v now q).1) in
      (
        valid,
        λ q. reads q ∙ find_else-none (chain_find q live) ∙ ap seen (live_entries-view v now q).0,
      )

-- A valid database whose values are strings is saved where no call fails, to a file from which an
-- empty dictionary is filled where no memory is refused and nothing expires in between: every key
-- that had not expired is found with its value and its time of expiry, and no other key; the answer
-- is true just if every entry that the database counts was written, so if none had expired.
pub save_rdb-load_rdb :
    {d d0 : Dict}
    → IsValid d
    → Becomes d0 (λ q. none)
    → d0.max_memory ≡ 0
    → (env : ℕ → LoadStep) (now k : ℕ) (old : Option Bytes) → AllWritten env now k d
    → (bytes : Bytes) × (save_rdb_to_file sound now d old ≡ (true, some bytes))
      × ((load_rdb_from_file env d0 (contents bytes)).0 ≡ (k == 0))
      × ((q : Bytes)
          → seen (view (load_rdb_from_file env d0 (contents bytes)).1 q)
            ≡ seen (alive now (view d q)))
unfolding load_rdb_from_file
save_rdb-load_rdb {d} {d0} v empty unlimited env now k old w =
    let run = load_bytes-file v empty unlimited env now k w in
    let (valid, reads) = restored v empty unlimited env now k w in
    (
      file_bytes now d,
      save_rdb-file_bytes now d old w.strings,
      ap (λ (r : Bool × Dict). r.0) run,
      λ q. ap (λ (r : Bool × Dict). seen (view r.1 q)) run ∙ reads q,
    )
