-- ===== src/Persistence/RoundTrip.antt =====
-- The loop of `load_rdb_from_file` over entries that were saved.
use crimson_cache.Base.{
  ℕ, suc, ◌+◌, ◌≤◌, ◌≡◌, refl, ap, ◌∙◌, true, false, [], ◌∷◌, Option, none, some, arith, length,
  All,
}
use crimson_cache.CString.{Bytes, str_eq_iff}
use crimson_cache.Dict.Defs.{CcObj, DictEntry, Chain, Dict}
use crimson_cache.Dict.Chain.{chain_find, count, chain_find-eq-none}
use crimson_cache.Dict.Ops.{dict_add}
use crimson_cache.Dict.Valid.{IsValid, view}
use crimson_cache.Dict.Access.{Becomes}
use crimson_cache.Dict.Insert.{find_else}
use crimson_cache.Dict.Add.{granted, dict_add-granted}
use crimson_cache.Persistence.Load.{
  LoadStep, Loading, store, apply_action, load_entry, load_entries,
}
use crimson_cache.Persistence.Codec.{entries_before, CanSave, CanLoad, loaded, load-entry_before}

-- A step of the loop that has its memory and reads an entry in time.
pub record IsReady (env : LoadStep) (e : DictEntry) : Type 0 where
  pub can_load : CanLoad env e
  pub add_room : granted env.add_memory ≡ true

-- The steps of the rounds that read the entries, with k rounds behind them.
abbrev pub AllReady : (ℕ → LoadStep) → ℕ → Chain → Type 0
AllReady env k [] = Unit
AllReady env k (e ∷ es) = IsReady (env (length es + k)) e × AllReady env k es

-- The dictionary after the entries were added.
unfoldable pub restore : (ℕ → LoadStep) → ℕ → Chain → Dict → Dict
restore env k [] d = d
restore env k (e ∷ es) d =
    let step = env (length es + k) in
    restore env k es (dict_add step.add_memory step.now_add d e.key (loaded step e.val)).1

-- A value but for the time of its last access.
abbrev pub seen : Option CcObj → Option CcObj
seen none = none
seen (some val) = some (record val { last_access = 0 })

-- The value of a string key as the commands make it.
abbrev pub IsText : DictEntry → Type 0
IsText e = e.val.size ≡ length e.val.ptr + 1

load_entries_on :
    (env : ℕ → LoadStep) (n : ℕ) (bs : Bytes) (d : Dict) (s : Loading)
    → apply_action (env n) d (load_entry (env n) bs) ≡ s
    → s.going ≡ true
    → load_entries env (suc n) bs d ≡ load_entries env n s.rest s.db
unfolding load_entries
load_entries_on env n bs d s e on =
    let go_on : Loading → Loading =
      λ s. elim s.going [ true ↦ load_entries env n s.rest s.db | false ↦ s ] in
    ap go_on e ∙ (rw on refl)

load_entries_step :
    (env : ℕ → LoadStep) (n : ℕ) (bs rest : Bytes) (d : Dict) (key : Bytes) (val : CcObj)
    → load_entry (env n) bs ≡ some (store key val, rest)
    → (dict_add (env n).add_memory (env n).now_add d key val).0 ≡ true
    → load_entries env (suc n) bs d
      ≡ load_entries env n rest (dict_add (env n).add_memory (env n).now_add d key val).1
load_entries_step env n bs rest d key val e done =
    let (ok, d') = dict_add (env n).add_memory (env n).now_add d key val in
    load_entries_on env n bs d (record { going = ok; db = d'; rest = rest })
      (ap (apply_action (env n) d) e ∙ (unfold apply_action in refl)) done

-- The rounds over entries that were written: each is added.
pub load_entries-restore :
    (env : ℕ → LoadStep) (k : ℕ) (es : Chain) (rest : Bytes) {d : Dict} {f : Bytes → Option CcObj}
    → Becomes d f
    → d.max_memory ≡ 0
    → All CanSave es
    → All IsText es
    → AllReady env k es
    → ((q : Bytes) → count q es ≤ 1)
    → (load_entries env (length es + k) (entries_before es rest) d
        ≡ load_entries env k rest (restore env k es d))
      × IsValid (restore env k es d)
      × ((q : Bytes) → seen (view (restore env k es d) q) ≡ seen (find_else q es (f q)))
unfolding restore entries_before
load_entries-restore env k [] rest {d} b nolimit saves texts ready once =
    let none_left : 0 + k ≡ k = omega arith in
    (
      ap (λ (n : ℕ). load_entries env n rest d) none_left,
      b.valid,
      λ q. unfold chain_find in ap seen (b.reads q),
    )
load_entries-restore env k (e ∷ es) rest {d} {f} b nolimit (s, saves) (t, texts) (r, ready) once =
    let n = length es + k in
    let step = env n in
    let more : length (e ∷ es) + k ≡ suc n = omega arith in
    let (done, b', nolimit') =
      dict_add-granted b.valid step.add_memory step.now_add e.key (loaded step e.val) nolimit
        r.add_room in
    let read_back = load-entry_before s r.can_load (entries_before es rest) in
    let (run, v, reads) =
      load_entries-restore env k es rest b' nolimit' saves texts ready
        (λ q. unfold count in omega (arith, once q)) in
    (
      ap (λ (m : ℕ). load_entries env m (entries_before (e ∷ es) rest) d) more
          ∙ load_entries_step env n (entries_before (e ∷ es) rest) (entries_before es rest) d e.key
              (loaded step e.val) read_back done
          ∙ run,
      v,
      λ q.
          reads q
          ∙ (unfold chain_find count in
              ground (
                arith,
                once q,
                chain_find-eq-none q es,
                b.reads q,
                str_eq_iff e.key q,
                s.string,
                t,
              )),
    )
