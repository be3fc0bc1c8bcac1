-- ===== src/Config.antt =====
-- src/config.h and src/config.c: the settings of the server, and the file they are read from; and the
-- command line of src/main.c.
pub mod Settings
pub mod Written
use crimson_cache.Base.{
  ℕ, zero, suc, ◌-◌, Bool, true, false, not, ◌&&◌, ◌||◌, List, [], ◌∷◌, Option, none, some, ltb,
  ◌==◌, if◌then◌else◌, length, get_or, take,
}
use crimson_cache.CString.{Bytes, codes, isspace, strcasecmp_eq}
use crimson_cache.Tokenizer.{backwards}
use crimson_cache.Persistence.Format.{until_nul}
use crimson_cache.Number.{ℤ, pos, negsuc, skip_space, strtoll, atoi}

pub data ConcurrencyModel : Type 0 where
  threaded eventloop : ConcurrencyModel

pub record ServerConfig : Type 0 where
  pub port : ℤ
  pub concurrency_model : ConcurrencyModel
  pub max_clients : ℤ
  pub log_file : Bytes
  pub save_after_seconds : ℤ
  pub save_after_changes : ℤ
  pub buffer_size : ℤ
  pub max_events : ℤ

unfoldable pub load_default_config : ServerConfig
load_default_config = record {
  port = pos 6379;
  concurrency_model = threaded;
  max_clients = pos 100;
  log_file = codes "crimsoncache.log";
  save_after_seconds = pos 300;
  save_after_changes = pos 1000;
  buffer_size = pos 1024;
  max_events = pos 64;
}

abbrev pub newline : ℕ
newline = 10

abbrev last_line : Bytes → List Bytes
last_line [] = []
last_line (c ∷ start) = backwards (c ∷ start) [] ∷ []

-- What the calls of `fgets(line, 256, fp)` return one after the other: a line with its newline, or
-- 255 bytes of it. The bytes of the line so far stand in reverse, with the room that is left.
unfoldable pub fgets_all : ℕ → Bytes → Bytes → List Bytes
fgets_all left start [] = last_line start
fgets_all left start (c ∷ bs) = elim (c == newline || left == 1) [
  | true ↦ backwards (c ∷ start) [] ∷ fgets_all 255 [] bs
  | false ↦ fgets_all (left - 1) (c ∷ start) bs
]

-- A conversion of `sscanf` of at most `width` bytes.
unfoldable pub scan_set : (ℕ → Bool) → ℕ → Bytes → Bytes × Bytes
scan_set member zero bs = ([], bs)
scan_set member (suc width) [] = ([], [])
scan_set member (suc width) (c ∷ bs) =
    let (found, rest) = scan_set member width bs in
    if member c then (c ∷ found, rest) else ([], c ∷ bs)

abbrev pub is_empty : Bytes → Bool
is_empty [] = true
is_empty (c ∷ bs) = false

-- `sscanf(line, "%63s %191[^\n]", key, value) == 2`
unfoldable pub scan_line : Bytes → Option (Bytes × Bytes)
scan_line line =
    let (key, rest) = scan_set (λ c. not (isspace c)) 63 (skip_space line) in
    let (value, behind) = scan_set (λ c. not (c == newline)) 191 (skip_space rest) in
    if is_empty key || is_empty value then none else some (key, value)

abbrev model_of : Bytes → ConcurrencyModel
model_of value = if strcasecmp_eq value (codes "eventloop") then eventloop else threaded

unfoldable pub set_option : Bytes → Bytes → ServerConfig → ServerConfig
set_option key value c =
    if strcasecmp_eq key (codes "port")
    then record c { port = atoi value }
    else if strcasecmp_eq key (codes "concurrency")
    then record c { concurrency_model = model_of value }
    else if strcasecmp_eq key (codes "maxClients")
    then record c { max_clients = atoi value }
    else if strcasecmp_eq key (codes "logFile")
    then record c { log_file = take 255 value }
    else if strcasecmp_eq key (codes "saveSeconds")
    then record c { save_after_seconds = atoi value }
    else if strcasecmp_eq key (codes "saveChanges")
    then record c { save_after_changes = atoi value }
    else if strcasecmp_eq key (codes "buffer_size")
    then record c { buffer_size = atoi value }
    else if strcasecmp_eq key (codes "max_events")
    then record c { max_events = atoi value }
    else c

-- One line of the file.
unfoldable pub load_line : Bytes → ServerConfig → ServerConfig
load_line line c =
    if get_or line 0 0 == b'#' || get_or line 0 0 == newline
    then c
    else elim (scan_line (until_nul line)) [ none ↦ c | some (key, value) ↦ set_option key value c ]

unfoldable pub load_lines : List Bytes → ServerConfig → ServerConfig
load_lines [] c = c
load_lines (line ∷ lines) c = load_lines lines (load_line line c)

-- On what `fopen` finds.
unfoldable pub load_config_from_file : Option Bytes → ServerConfig → ServerConfig
load_config_from_file none c = c
load_config_from_file (some bs) c = load_lines (fgets_all 255 [] bs) c

-- The port that the first argument is, if it is one.
unfoldable pub port_argument : Bytes → Option ℤ
port_argument arg =
    let (value, rest) = strtoll arg in
    elim value [
      | negsuc n ↦ none
      | pos n ↦ if is_empty rest && ltb 0 n && ltb n 65536 then some (pos n) else none
    ]

-- The start of `main`: a port, or the path of a file, or the file with the default name.
unfoldable pub configure : Option Bytes → (Bytes → Option Bytes) → ServerConfig
configure none files = load_config_from_file (files (codes "crimsoncache.conf")) load_default_config
configure (some arg) files = elim (port_argument arg) [
  | some port ↦ record load_default_config { port = port }
  | none ↦ load_config_from_file (files arg) load_default_config
]
