-- ===== src/Process/Saving.antt =====
-- The automatic save.
use crimson_cache.Base.{
  ℕ, ◌≡◌, refl, Bool, true, false, Option, some, if◌then◌else◌, All, ◌⊎◌, inl, inr,
}
use crimson_cache.CString.{Bytes}
use crimson_cache.Persistence.Save.{FileSystem, fclose, save_rdb_to_file}
use crimson_cache.Persistence.Written.{AllStrings, file_bytes}
use crimson_cache.Persistence.Atomic.{save_rdb-Atomic}
use crimson_cache.Dispatch.Handlers.{difference}
use crimson_cache.Process.{Process, is_save_due, auto_save_thread}

abbrev pub is_due : ℕ → Process → Bool
is_due now p = is_save_due p.config p.server.changes_since_save (difference now p.last_save)

-- After a save at `now` that left `bytes` in the file.
abbrev pub saved_at : ℕ → Bytes → Process → Process
saved_at now bytes p = record p {
  server = record p.server { dump = some bytes; changes_since_save = 0 };
  last_save = now;
}

module _ (files : FileSystem) (now save_now : ℕ) (p : Process) where
  round_saves :
      (saved : Bool) (dump : Option Bytes)
      → is_due now p ≡ true
      → save_rdb_to_file files save_now p.server.db p.server.dump ≡ (saved, dump)
      → auto_save_thread files now save_now p ≡ (
          if saved
          then record p {
            server = record p.server { dump = dump; changes_since_save = 0 };
            last_save = now;
          }
          else record p { server = record p.server { dump = dump } })
  unfolding auto_save_thread
  round_saves saved dump e f = rw (e, f) refl

  -- What a round with a due save comes to, whichever calls of the save fail.
  round_due :
      All AllStrings p.server.db.table
      → is_due now p ≡ true
      → (auto_save_thread files now save_now p ≡ p)
        ⊎ (auto_save_thread files now save_now p
            ≡ saved_at now (fclose files (file_bytes save_now p.server.db)) p)
  round_due strings due = elim (save_rdb-Atomic files save_now p.server.db p.server.dump strings) [
    | inr failed ↦ inl (round_saves false p.server.dump due failed)
    | inl saved ↦
        inr (round_saves true (some (fclose files (file_bytes save_now p.server.db))) due saved)
  ]
