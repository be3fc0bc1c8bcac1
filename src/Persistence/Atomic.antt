-- ===== src/Persistence/Atomic.antt =====
-- A save changes the file under its name in one step or not at all, whatever calls fail.
use crimson_cache.Base.{
  ℕ, ◌≡◌, refl, Bool, true, false, List, [], ◌∷◌, Option, none, some, arith, leb, ◌==◌, ◌⊎◌,
  if◌then◌else◌, length, inl, inr, Bool-cases, All, ap, subst,
}
use crimson_cache.CString.{Bytes}
use crimson_cache.Dict.Defs.{CcObj, DictEntry, Chain, Dict}
use crimson_cache.Dict.Ops.{is_expired}
use crimson_cache.Persistence.Format.{
  rdb_magic, rdb_version, rdb_set, rdb_end, encode, type_code, is_string, ◌>>=◌,
}
use crimson_cache.Persistence.Save.{
  FileSystem, Temp, fclose, fwrite, rdb_save_string, save_expiry, save_value, save_entry,
  save_chain, save_table, save_all, save_rdb_to_file,
}
use crimson_cache.Persistence.Written.{sound, file_bytes, AllStrings, Writes-all}

-- A step that fails, or goes as it does where no call fails.
abbrev Agrees : Option Temp → Option Temp → Type 0
Agrees o o' = (o ≡ none) ⊎ (o ≡ o')

Agrees-bind :
    (o o' : Option Temp) (k k' : Temp → Option Temp)
    → Agrees o o'
    → ((t : Temp) → Agrees (k t) (k' t))
    → Agrees (o >>= k) (o' >>= k')
Agrees-bind none o' k k' h next = inl refl
Agrees-bind (some t) o' k k' h next = elim h [
  | inl e ↦ absurd (ground arith)
  | inr e ↦ rw⁻¹ e (next t)
]

abbrev ending : FileSystem → Bool → Bool → Option Bytes → Option Temp → Bool × Option Bytes
ending fs opens renames old o =
    if opens
    then elim o [
      | none ↦ (false, old)
      | some t ↦ if renames then (true, some (fclose fs t.bytes)) else (false, old)
    ]
    else (false, old)

-- The end of a save, where what was written is nothing or `bytes`.
ends :
    (fs : FileSystem) (opens renames : Bool) (o : Option Temp) (bytes : Bytes) (old : Option Bytes)
    (r : Temp)
    → r.bytes ≡ bytes
    → Agrees o (some r)
    → (ending fs opens renames old o ≡ (true, some (fclose fs bytes)))
      ⊎ (ending fs opens renames old o ≡ (false, old))
ends fs false renames o bytes old r e h = inr refl
ends fs true renames none bytes old r e h = inr refl
ends fs true false (some t) bytes old r e h = inr refl
ends fs true true (some t) bytes old r e h = elim h [
  | inl gone ↦ absurd (ground arith)
  | inr same ↦
      let read : t.bytes ≡ bytes = ground (arith, same, e) in
      inl (ap (λ (b : Bytes). (true, some (fclose fs b))) read)
]

module _ (fs : FileSystem) where
  Agrees-fwrite : (bs : Bytes) (t : Temp) → Agrees (fwrite fs bs t) (fwrite sound bs t)
  unfolding fwrite
  Agrees-fwrite bs t = elim (Bool-cases (fs.writes t.calls)) [
    | inl e ↦ rw e (inr refl)
    | inr e ↦ rw e (inl refl)
  ]

  -- One write, and what follows it.
  Agrees-write :
      (bs : Bytes) (t : Temp) (k k' : Temp → Option Temp)
      → ((r : Temp) → Agrees (k r) (k' r))
      → Agrees (fwrite fs bs t >>= k) (fwrite sound bs t >>= k')
  Agrees-write bs t k k' next =
      Agrees-bind (fwrite fs bs t) (fwrite sound bs t) k k' (Agrees-fwrite bs t) next

  Agrees-string :
      (s : Bytes) (t : Temp) → Agrees (rdb_save_string fs s t) (rdb_save_string sound s t)
  unfolding rdb_save_string
  Agrees-string s t = Agrees-write (encode 8 (length s)) t _ _ (λ r.
      elim (Bool-cases (leb 1 (length s))) [
        | inl e ↦ rw e (Agrees-fwrite s r)
        | inr e ↦ rw e (inr refl)
      ])

  Agrees-expiry : (val : CcObj) (t : Temp) → Agrees (save_expiry fs val t) (save_expiry sound val t)
  unfolding save_expiry
  Agrees-expiry val t = Agrees-write _ t _ _ (λ r. elim (Bool-cases (val.expire == 0)) [
    | inl e ↦ rw e (inr refl)
    | inr e ↦ rw e (Agrees-fwrite (encode 8 val.expire) r)
  ])

  Agrees-value : (val : CcObj) (t : Temp) → Agrees (save_value fs val t) (save_value sound val t)
  unfolding save_value
  Agrees-value val t = elim (Bool-cases (is_string val.type)) [
    | inl e ↦ rw e (Agrees-write (rdb_set ∷ []) t _ _ (λ r. Agrees-string val.ptr r))
    | inr e ↦ rw e (inr refl)
  ]

  Agrees-entry : (e : DictEntry) (t : Temp) → Agrees (save_entry fs e t) (save_entry sound e t)
  unfolding save_entry
  Agrees-entry e t = Agrees-bind _ _ _ _ (Agrees-string e.key t) λ r.
      Agrees-write (encode 4 (type_code e.val.type)) r _ _
        λ r. Agrees-bind _ _ _ _ (Agrees-expiry e.val r) λ r. Agrees-value e.val r

  Agrees-chain :
      (now : ℕ) (c : Chain) (t : Temp) → Agrees (save_chain fs now c t) (save_chain sound now c t)
  unfolding save_chain
  Agrees-chain now [] t = inr refl
  Agrees-chain now (e ∷ c) t = elim (Bool-cases (is_expired now e.val)) [
    | inl gone ↦ rw gone (Agrees-chain now c t)
    | inr live ↦ rw live (Agrees-bind _ _ _ _ (Agrees-entry e t) (λ r. Agrees-chain now c r))
  ]

  Agrees-table :
      (now : ℕ) (cs : List Chain) (t : Temp)
      → Agrees (save_table fs now cs t) (save_table sound now cs t)
  unfolding save_table
  Agrees-table now [] t = inr refl
  Agrees-table now (c ∷ cs) t =
      Agrees-bind _ _ _ _ (Agrees-chain now c t) (λ r. Agrees-table now cs r)

  Agrees-all : (now : ℕ) (db : Dict) → Agrees (save_all fs now db) (save_all sound now db)
  unfolding save_all
  Agrees-all now db = Agrees-write rdb_magic _ _ _ λ r.
      Agrees-write (encode 4 rdb_version) r _ _ λ r.
        Agrees-write (encode 8 db.used) r _ _
          λ r. Agrees-bind _ _ _ _ (Agrees-table now db.table r) λ r. Agrees-fwrite (rdb_end ∷ []) r

  -- Whichever calls fail, a save of a database of strings answers false and leaves the file under the
  -- name as it was, or it answers true and puts in its place what `fclose` leaves of the whole database:
  -- all of it, or a first part where its flush fails.
  pub save_rdb-Atomic :
      (now : ℕ) (db : Dict) (old : Option Bytes)
      → All AllStrings db.table
      → (save_rdb_to_file fs now db old ≡ (true, some (fclose fs (file_bytes now db))))
        ⊎ (save_rdb_to_file fs now db old ≡ (false, old))
  unfolding save_rdb_to_file
  save_rdb-Atomic now db old a =
      let (r, run, same) = Writes-all now db a in
      ends fs fs.opens fs.renames (save_all fs now db) (file_bytes now db) old r same
        (subst (λ (o : Option Temp). Agrees (save_all fs now db) o) run (Agrees-all now db))
