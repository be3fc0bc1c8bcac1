-- ===== src/Persistence/Written.antt =====
-- The bytes that `save_rdb_to_file` writes where no call fails.
use crimson_cache.Base.{
  ℕ, ◌≡◌, refl, sym, ap, ◌∙◌, true, none, List, [], ◌∷◌, ◌++◌, Option, some, arith, leb, ◌==◌,
  length, inl, inr, Bool-cases, All, map,
}
use crimson_cache.CString.{Bytes}
use crimson_cache.Dict.Defs.{CcObj, DictEntry, Chain, Dict}
use crimson_cache.Dict.Ops.{is_expired}
use crimson_cache.Dict.Clear.{live_chain}
use crimson_cache.Persistence.Format.{
  rdb_magic, rdb_version, rdb_set, rdb_end, encode, type_code, is_string, ◌>>=◌,
}
use crimson_cache.Persistence.Save.{
  FileSystem, Temp, fwrite, rdb_save_string, save_expiry, save_value, save_entry, save_chain,
  save_table, save_all, save_rdb_to_file,
}
use crimson_cache.Persistence.Codec.{string_before, expiry_before, entry_before, entries_before}
use mathlib.Core.List.{append-nil, append_assoc, flatten}

-- No call fails.
abbrev pub sound : FileSystem
sound = record { opens = true; writes = λ n. true; lost_after = none; renames = true }

-- A step that succeeds, and writes what stands before the rest that `f` is given.
abbrev Writes : (Bytes → Bytes) → Temp → Option Temp → Type 0
Writes f t o = (r : Temp) × (o ≡ some r) × ((rest : Bytes) → r.bytes ++ rest ≡ t.bytes ++ f rest)

Writes-none : (t : Temp) → Writes (λ rest. rest) t (some t)
Writes-none t = (t, refl, λ rest. refl)

Writes-fwrite : (bs : Bytes) (t : Temp) → Writes (λ rest. bs ++ rest) t (fwrite sound bs t)
unfolding fwrite
Writes-fwrite bs t = (_, refl, λ rest. append_assoc t.bytes bs rest)

Writes-bind :
    (f g : Bytes → Bytes) (t : Temp) (o : Option Temp) (k : Temp → Option Temp)
    → Writes f t o
    → ((r : Temp) → Writes g r (k r))
    → Writes (λ rest. f (g rest)) t (o >>= k)
Writes-bind f g t o k (r, e, w) next =
    let (r', e', w') = next r in (r', rw e e', λ rest. w' rest ∙ w (g rest))

Writes-string : (s : Bytes) (t : Temp) → Writes (string_before s) t (rdb_save_string sound s t)
unfolding rdb_save_string string_before
Writes-string [] t =
    Writes-bind (λ rest. encode 8 0 ++ rest) (λ rest. rest) t (fwrite sound (encode 8 0) t) _
      (Writes-fwrite (encode 8 0) t) (λ r. Writes-none r)
Writes-string (c ∷ s) t =
    let filled : leb 1 (length (c ∷ s)) ≡ true = ground arith in
    rw filled (
      Writes-bind (λ rest. encode 8 (length (c ∷ s)) ++ rest) (λ rest. (c ∷ s) ++ rest) t
        (fwrite sound (encode 8 (length (c ∷ s))) t) _ (Writes-fwrite (encode 8 (length (c ∷ s))) t)
        (λ r. Writes-fwrite (c ∷ s) r))

Writes-expiry :
    (val : CcObj) (t : Temp) → Writes (expiry_before val.expire) t (save_expiry sound val t)
unfolding save_expiry expiry_before
Writes-expiry val t = elim (Bool-cases (val.expire == 0)) [
  | inl never ↦ rw never (
      Writes-bind (λ rest. 0 ∷ rest) (λ rest. rest) t (fwrite sound (0 ∷ []) t) _
        (Writes-fwrite (0 ∷ []) t) (λ r. Writes-none r))
  | inr timed ↦ rw timed (
      Writes-bind (λ rest. 1 ∷ rest) (λ rest. encode 8 val.expire ++ rest) t
        (fwrite sound (1 ∷ []) t) _ (Writes-fwrite (1 ∷ []) t)
        (λ r. Writes-fwrite (encode 8 val.expire) r))
]

Writes-value :
    (val : CcObj) (t : Temp)
    → is_string val.type ≡ true
    → Writes (λ rest. rdb_set ∷ string_before val.ptr rest) t (save_value sound val t)
unfolding save_value
Writes-value val t text = rw text (
    Writes-bind (λ rest. rdb_set ∷ rest) (string_before val.ptr) t (fwrite sound (rdb_set ∷ []) t) _
      (Writes-fwrite (rdb_set ∷ []) t) (λ r. Writes-string val.ptr r))

Writes-entry :
    (e : DictEntry) (t : Temp)
    → is_string e.val.type ≡ true
    → Writes (entry_before e) t (save_entry sound e t)
unfolding save_entry entry_before
Writes-entry e t text =
    let after_expiry = λ (rest : Bytes). rdb_set ∷ string_before e.val.ptr rest in
    let after_type = λ (rest : Bytes). expiry_before e.val.expire (after_expiry rest) in
    let after_key = λ (rest : Bytes). encode 4 (type_code e.val.type) ++ after_type rest in
    Writes-bind (string_before e.key) after_key t (rdb_save_string sound e.key t) _
      (Writes-string e.key t)
      λ r.
        Writes-bind (λ rest. encode 4 (type_code e.val.type) ++ rest) after_type r
          (fwrite sound (encode 4 (type_code e.val.type)) r) _
          (Writes-fwrite (encode 4 (type_code e.val.type)) r)
          λ r.
            Writes-bind (expiry_before e.val.expire) after_expiry r (save_expiry sound e.val r) _
              (Writes-expiry e.val r) λ r. Writes-value e.val r text

abbrev pub AllStrings : Chain → Type 0
AllStrings c = All (λ e. is_string e.val.type ≡ true) c

Writes-chain :
    (now : ℕ) (c : Chain) (t : Temp)
    → AllStrings c
    → Writes (entries_before (live_chain now c)) t (save_chain sound now c t)
unfolding save_chain live_chain entries_before
Writes-chain now [] t a = Writes-none t
Writes-chain now (e ∷ c) t (text, a) = elim (Bool-cases (is_expired now e.val)) [
  | inl gone ↦ rw gone (Writes-chain now c t a)
  | inr live ↦ rw live (
      Writes-bind (entry_before e) (entries_before (live_chain now c)) t (save_entry sound e t) _
        (Writes-entry e t text) (λ r. Writes-chain now c r a))
]

-- The entries of a table that have not expired, bucket by bucket.
unfoldable pub live_entries : ℕ → List Chain → Chain
live_entries now cs = flatten (map (live_chain now) cs)

pub entries_before-append :
    (a b : Chain) (rest : Bytes)
    → entries_before (a ++ b) rest ≡ entries_before a (entries_before b rest)
unfolding entries_before
entries_before-append [] b rest = refl
entries_before-append (e ∷ a) b rest = ap (entry_before e) (entries_before-append a b rest)

Writes-table :
    (now : ℕ) (cs : List Chain) (t : Temp)
    → All AllStrings cs
    → Writes (entries_before (live_entries now cs)) t (save_table sound now cs t)
unfolding save_table live_entries flatten
Writes-table now [] t a = unfold entries_before in Writes-none t
Writes-table now (c ∷ cs) t (h, a) =
    let (r, run, w) =
      Writes-bind (entries_before (live_chain now c))
        (entries_before (flatten (map (live_chain now) cs))) t (save_chain sound now c t) _
        (Writes-chain now c t h) (λ r. unfold live_entries in Writes-table now cs r a) in
    (
      r,
      run,
      λ rest.
          w rest
          ∙ ap (λ (x : Bytes). t.bytes ++ x)
              (sym (
                entries_before-append (live_chain now c) (flatten (map (live_chain now) cs)) rest)),
    )

-- The file: magic, version, the count of all entries, those that have not expired, the end marker.
unfoldable pub file_bytes : ℕ → Dict → Bytes
file_bytes now db =
    rdb_magic
    ++ (encode 4 rdb_version
        ++ (encode 8 db.used ++ entries_before (live_entries now db.table) (rdb_end ∷ [])))

pub Writes-all :
    (now : ℕ) (db : Dict)
    → All AllStrings db.table
    → (r : Temp) × (save_all sound now db ≡ some r) × (r.bytes ≡ file_bytes now db)
unfolding save_all file_bytes
Writes-all now db a =
    let start : Temp = record { bytes = []; calls = 0 } in
    let end = λ (rest : Bytes). rdb_end ∷ rest in
    let after_used = λ (rest : Bytes). entries_before (live_entries now db.table) (end rest) in
    let after_version = λ (rest : Bytes). encode 8 db.used ++ after_used rest in
    let after_magic = λ (rest : Bytes). encode 4 rdb_version ++ after_version rest in
    let (r, run, w) =
      Writes-bind (λ rest. rdb_magic ++ rest) after_magic start (fwrite sound rdb_magic start) _
        (Writes-fwrite rdb_magic start)
        λ r.
          Writes-bind (λ rest. encode 4 rdb_version ++ rest) after_version r
            (fwrite sound (encode 4 rdb_version) r) _ (Writes-fwrite (encode 4 rdb_version) r)
            λ r.
              Writes-bind (λ rest. encode 8 db.used ++ rest) after_used r
                (fwrite sound (encode 8 db.used) r) _ (Writes-fwrite (encode 8 db.used) r)
                λ r.
                  Writes-bind (entries_before (live_entries now db.table)) end r
                    (save_table sound now db.table r) _ (Writes-table now db.table r a)
                    λ r. Writes-fwrite (rdb_end ∷ []) r in
    (r, run, sym (append-nil r.bytes) ∙ w [])

-- Where no call fails and all values are strings, the file under the name becomes these bytes.
pub save_rdb-file_bytes :
    (now : ℕ) (db : Dict) (old : Option Bytes)
    → All AllStrings db.table
    → save_rdb_to_file sound now db old ≡ (true, some (file_bytes now db))
unfolding save_rdb_to_file
save_rdb-file_bytes now db old a = let (r, run, same) = Writes-all now db a in rw (run, same)
