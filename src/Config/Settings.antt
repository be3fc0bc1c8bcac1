-- ===== src/Config/Settings.antt =====
-- A file of settings, one to a line, is read as the settings in their order.
use crimson_cache.Base.{
  ℕ, zero, suc, ◌+◌, ◌-◌, ◌≤◌, ◌<◌, ◌≡◌, ◌≢◌, refl, sym, ap, ◌∙◌, Bool, true, false, not, ◌||◌,
  List, [], ◌∷◌, ◌++◌, some, arith, ◌==◌, length, length-append, get_or, All,
}
use mathlib.Core.List.{append_assoc}
use crimson_cache.CString.{Bytes, isspace}
use crimson_cache.Tokenizer.{backwards}
use crimson_cache.Persistence.Format.{until_nul}
use crimson_cache.Number.{skip_space}
use crimson_cache.Config.{
  ServerConfig, newline, fgets_all, scan_set, scan_line, is_empty, set_option, load_line,
  load_lines, load_config_from_file,
}

pub record Setting : Type 0 where
  pub key : Bytes
  pub value : Bytes

abbrev pub first_is_space : Bytes → Bool
first_is_space [] = true
first_is_space (c ∷ bs) = isspace c

-- What can be written as a line of the file: a word that does not begin with '#', and a text that
-- does not begin with white space, within the widths of the two conversions and of the buffer.
pub record IsSetting (s : Setting) : Type 0 where
  pub key_bytes : All (λ c. (0 < c) × (isspace c ≡ false)) s.key
  pub value_bytes : All (λ c. (0 < c) × (c ≢ newline)) s.value
  pub key_start : first_is_space s.key ≡ false
  pub value_start : first_is_space s.value ≡ false
  pub no_comment : get_or s.key 0 0 ≢ b'#'
  pub key_width : length s.key ≤ 63
  pub value_width : length s.value ≤ 191
  pub line_width : length s.key + length s.value + 2 ≤ 255

abbrev pub setting_line : Setting → Bytes
setting_line s = s.key ++ (32 ∷ (s.value ++ newline ∷ []))

abbrev pub settings_file : List Setting → Bytes
settings_file [] = []
settings_file (s ∷ ss) = setting_line s ++ settings_file ss

-- The settings one after the other.
abbrev pub apply_settings : List Setting → ServerConfig → ServerConfig
apply_settings [] c = c
apply_settings (s ∷ ss) c = apply_settings ss (set_option s.key s.value c)

fgets_all_goes :
    (left : ℕ) (start : Bytes) (c : ℕ) (bs : Bytes)
    → (c == newline || left == 1) ≡ false
    → fgets_all left start (c ∷ bs) ≡ fgets_all (left - 1) (c ∷ start) bs
unfolding fgets_all
fgets_all_goes left start c bs e = rw (e, fgets_all)

fgets_all_line :
    (left : ℕ) (start line rest : Bytes)
    → All (λ c. c ≢ newline) line
    → length line < left
    → fgets_all left start (line ++ newline ∷ rest)
      ≡ backwards start (line ++ newline ∷ []) ∷ fgets_all 255 [] rest
unfolding fgets_all
fgets_all_line left start [] rest a h = refl
fgets_all_line left start (c ∷ line) rest (x, a) h =
    let goes_on : (c == newline || left == 1) ≡ false = ground arith in
    fgets_all_goes left start c (line ++ newline ∷ rest) goes_on
    ∙ fgets_all_line (left - 1) (c ∷ start) line rest a (omega arith)

scan_set_stops :
    (member : ℕ → Bool) (width : ℕ) (text : Bytes) (c : ℕ) (rest : Bytes)
    → All (λ c. member c ≡ true) text
    → member c ≡ false
    → length text ≤ width
    → scan_set member width (text ++ c ∷ rest) ≡ (text, c ∷ rest)
unfolding scan_set
scan_set_stops member zero [] c rest a stop h = refl
scan_set_stops member (suc width) [] c rest a stop h = rw stop refl
scan_set_stops member zero (x ∷ text) c rest a stop h = absurd (omega arith)
scan_set_stops member (suc width) (x ∷ text) c rest (ok, a) stop h =
    rw (ok, scan_set_stops member width text c rest a stop (omega arith)) refl

skip_space_word :
    (text rest : Bytes) → first_is_space text ≡ false → skip_space (text ++ rest) ≡ text ++ rest
unfolding skip_space
skip_space_word [] rest h = cc
skip_space_word (c ∷ text) rest h = rw h refl

until_nul_self : (text : Bytes) → All (λ c. 0 < c) text → until_nul text ≡ text
unfolding until_nul
until_nul_self [] a = refl
until_nul_self (c ∷ text) (x, a) =
    let some_byte : (c == 0) ≡ false = ground arith in rw (some_byte, until_nul_self text a) refl

All_map {ℓ} : {P Q : ℕ → Type ℓ} → ((c : ℕ) → P c → Q c) → (text : Bytes) → All P text → All Q text
All_map f [] a = a
All_map f (c ∷ text) (x, a) = (f c x, All_map f text a)

skip_space_one : (bs : Bytes) → skip_space (32 ∷ bs) ≡ skip_space bs
unfolding skip_space isspace
skip_space_one bs = refl

no_word-is_empty : (text : Bytes) → first_is_space text ≡ false → is_empty text ≡ false
no_word-is_empty [] e = cc
no_word-is_empty (c ∷ text) e = refl

All-append {ℓ} :
    (P : ℕ → Type ℓ) (text rest : Bytes) → All P text → All P rest → All P (text ++ rest)
All-append P [] rest a b = b
All-append P (c ∷ text) rest (x, a) b = (x, All-append P text rest a b)

regroup :
    (a b rest : Bytes)
    → ((a ++ (32 ∷ (b ++ newline ∷ []))) ++ rest ≡ (a ++ (32 ∷ b)) ++ newline ∷ rest)
      × (a ++ (32 ∷ (b ++ newline ∷ [])) ≡ (a ++ (32 ∷ b)) ++ newline ∷ [])
regroup a b rest = (simp append_assoc, simp append_assoc)

no_space_newline : (c : ℕ) → isspace c ≡ false → c ≢ newline
unfolding isspace
no_space_newline c h = ground arith

-- The line is neither a comment nor empty.
starts_setting :
    (text rest : Bytes)
    → first_is_space text ≡ false
    → All (λ c. (0 < c) × (isspace c ≡ false)) text
    → get_or text 0 0 ≢ b'#'
    → (get_or (text ++ rest) 0 0 == b'#' || get_or (text ++ rest) 0 0 == newline) ≡ false
unfolding isspace
starts_setting [] rest e a h = cc
starts_setting (c ∷ text) rest e ((x, y), a) h = ground arith

module _ (s : Setting) (ok : IsSetting s) where
  key_scanned :
      scan_set (λ c. not (isspace c)) 63 (skip_space (setting_line s))
      ≡ (s.key, 32 ∷ (s.value ++ newline ∷ []))
  unfolding isspace
  key_scanned =
      ap (λ (t : Bytes). scan_set (λ c. not (isspace c)) 63 t)
        (skip_space_word s.key (32 ∷ (s.value ++ newline ∷ [])) ok.key_start)
      ∙ scan_set_stops (λ c. not (isspace c)) 63 s.key 32 (s.value ++ newline ∷ [])
          (All_map (λ c h. ap not h.1) s.key ok.key_bytes) refl ok.key_width

  value_scanned :
      scan_set (λ c. not (c == newline)) 191 (skip_space (32 ∷ (s.value ++ newline ∷ [])))
      ≡ (s.value, newline ∷ [])
  value_scanned =
      ap (λ (t : Bytes). scan_set (λ c. not (c == newline)) 191 t)
        (skip_space_one (s.value ++ newline ∷ [])
          ∙ skip_space_word s.value (newline ∷ []) ok.value_start)
      ∙ scan_set_stops (λ c. not (c == newline)) 191 s.value newline []
          (All_map (λ c h. ground (arith, h.1)) s.value ok.value_bytes) refl ok.value_width

  scan_line_setting : scan_line (setting_line s) ≡ some (s.key, s.value)
  unfolding scan_line
  scan_line_setting =
      rw
        (
          key_scanned,
          value_scanned,
          no_word-is_empty s.key ok.key_start,
          no_word-is_empty s.value ok.value_start,
        )
        refl

  line_bytes : All (λ c. 0 < c) (setting_line s)
  line_bytes =
      All-append (λ c. 0 < c) s.key _ (All_map (λ c h. h.0) s.key ok.key_bytes)
        (
          omega arith,
          All-append (λ c. 0 < c) s.value _ (All_map (λ c h. h.0) s.value ok.value_bytes)
              (omega arith, tt),
        )

  load_line_setting : (c : ServerConfig) → load_line (setting_line s) c ≡ set_option s.key s.value c
  unfolding load_line
  load_line_setting c =
      rw
        (
          starts_setting s.key (32 ∷ (s.value ++ newline ∷ [])) ok.key_start ok.key_bytes
              ok.no_comment,
          until_nul_self (setting_line s) line_bytes,
          scan_line_setting,
        )
        refl

  fgets_all_setting :
      (rest : Bytes)
      → fgets_all 255 [] (setting_line s ++ rest) ≡ setting_line s ∷ fgets_all 255 [] rest
  fgets_all_setting rest =
      let text = s.key ++ (32 ∷ s.value) in
      let (behind, alone) = regroup s.key s.value rest in
      let no_newline : All (λ c. c ≢ newline) text =
        All-append (λ c. c ≢ newline) s.key _
          (All_map (λ c h. no_space_newline c h.1) s.key ok.key_bytes)
          ((λ h. cc), All_map (λ c h. h.1) s.value ok.value_bytes) in
      ap (λ (t : Bytes). fgets_all 255 [] t) behind
      ∙ fgets_all_line 255 [] text rest no_newline
          (omega (arith, length-append s.key (32 ∷ s.value), ok.line_width))
      ∙ ap (λ (t : Bytes). t ∷ fgets_all 255 [] rest) (sym alone)

load_lines_step :
    (line : Bytes) (lines : List Bytes) (c : ServerConfig)
    → load_lines (line ∷ lines) c ≡ load_lines lines (load_line line c)
unfolding load_lines
load_lines_step line lines c = refl

-- A file of settings, each on a line "key value", is loaded as the settings one after the other: the
-- later of two for one key counts.
pub load_config_from_file-settings :
    (ss : List Setting) (c : ServerConfig)
    → All IsSetting ss
    → load_config_from_file (some (settings_file ss)) c ≡ apply_settings ss c
unfolding load_config_from_file
load_config_from_file-settings [] c a = unfold load_lines fgets_all in refl
load_config_from_file-settings (s ∷ ss) c (ok, a) =
    ap (λ (lines : List Bytes). load_lines lines c) (fgets_all_setting s ok (settings_file ss))
    ∙ load_lines_step (setting_line s) (fgets_all 255 [] (settings_file ss)) c
    ∙ ap (λ (x : ServerConfig). load_lines (fgets_all 255 [] (settings_file ss)) x)
        (load_line_setting s ok c)
    ∙ load_config_from_file-settings ss (set_option s.key s.value c) a
