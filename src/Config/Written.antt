-- ===== src/Config/Written.antt =====
-- A configuration that is written as a file of settings is read back.
use crimson_cache.Base.{
  ◌%◌, word, ltb, ◌^◌, take-all, ◌-◌, ◌≤◌, ◌<◌, ◌≡◌, refl, ap, ◌∙◌, true, false, List, [], ◌∷◌,
  some, arith, length, All,
}
use crimson_cache.CString.{Bytes, codes, strcasecmp_eq, tolower}
use crimson_cache.Number.{ℤ, pos, negsuc, atoi, print, to_word, int_of, InRange}
use crimson_cache.Number.RoundTrip.{strtoll-print}
use crimson_cache.Config.{
  ServerConfig, ConcurrencyModel, threaded, eventloop, model_of, set_option, load_config_from_file,
}
use crimson_cache.Config.Settings.{
  Setting, IsSetting, settings_file, apply_settings, load_config_from_file-settings,
}

-- A number of the C type `int`.
abbrev pub IsInt : ℤ → Type 0
IsInt (pos n) = n < 2 ^ 31
IsInt (negsuc n) = n < 2 ^ 31

IsInt-InRange : (z : ℤ) → IsInt z → InRange z
IsInt-InRange (pos n) h = omega arith
IsInt-InRange (negsuc n) h = omega arith

int_of-to_word : (z : ℤ) → IsInt z → int_of (to_word z % 2 ^ 32) ≡ z
unfolding to_word
int_of-to_word (pos n) h =
    let same : n % word % 2 ^ 32 ≡ n = omega arith in
    let small : ltb n (2 ^ 31) ≡ true = ground arith in rw (same, small) refl
int_of-to_word (negsuc n) h =
    let same : (word - 1 - n % word) % 2 ^ 32 ≡ 2 ^ 32 - 1 - n = omega arith in
    let large : ltb (2 ^ 32 - 1 - n) (2 ^ 31) ≡ false = ground arith in
    let back : 2 ^ 32 - 1 - (2 ^ 32 - 1 - n) ≡ n = omega arith in rw (same, large) (ap negsuc back)

atoi-print : (z : ℤ) → IsInt z → atoi (print z) ≡ z
unfolding atoi
atoi-print z h =
    let fits : InRange z = IsInt-InRange z h in
    ap (λ (r : ℤ × Bytes). int_of (to_word r.0 % 2 ^ 32)) (strtoll-print z fits)
    ∙ int_of-to_word z h

abbrev pub model_name : ConcurrencyModel → Bytes
model_name threaded = codes "threaded"
model_name eventloop = codes "eventloop"

-- A configuration, one setting to a field.
abbrev pub settings_of : ServerConfig → List Setting
settings_of c =
    record { key = codes "port"; value = print c.port }
    ∷ record { key = codes "concurrency"; value = model_name c.concurrency_model }
    ∷ record { key = codes "maxClients"; value = print c.max_clients }
    ∷ record { key = codes "logFile"; value = c.log_file }
    ∷ record { key = codes "saveSeconds"; value = print c.save_after_seconds }
    ∷ record { key = codes "saveChanges"; value = print c.save_after_changes }
    ∷ record { key = codes "buffer_size"; value = print c.buffer_size }
    ∷ record { key = codes "max_events"; value = print c.max_events }
    ∷ []

pub record AreInts (c : ServerConfig) : Type 0 where
  pub port : IsInt c.port
  pub max_clients : IsInt c.max_clients
  pub save_after_seconds : IsInt c.save_after_seconds
  pub save_after_changes : IsInt c.save_after_changes
  pub buffer_size : IsInt c.buffer_size
  pub max_events : IsInt c.max_events

model_of-name : (m : ConcurrencyModel) → model_of (model_name m) ≡ m
unfolding strcasecmp_eq tolower
model_of-name threaded = refl
model_of-name eventloop = refl

apply_settings-settings_of :
    (c old : ServerConfig)
    → AreInts c
    → length c.log_file ≤ 255
    → apply_settings (settings_of c) old ≡ c
unfolding set_option strcasecmp_eq tolower
apply_settings-settings_of c old h short =
    rw
      (
        atoi-print c.port h.port,
        atoi-print c.max_clients h.max_clients,
        atoi-print c.save_after_seconds h.save_after_seconds,
        atoi-print c.save_after_changes h.save_after_changes,
        atoi-print c.buffer_size h.buffer_size,
        atoi-print c.max_events h.max_events,
        model_of-name c.concurrency_model,
        take-all 255 c.log_file short,
      )
      refl

-- A configuration whose numbers are of type `int`, written with one setting to a line under the names
-- that the parser knows, where each line is within its widths, is loaded as itself, whatever the
-- settings were before.
pub load_config_from_file-settings_of :
    (c old : ServerConfig)
    → AreInts c
    → length c.log_file ≤ 255
    → All IsSetting (settings_of c)
    → load_config_from_file (some (settings_file (settings_of c))) old ≡ c
load_config_from_file-settings_of c old h short lines =
    load_config_from_file-settings (settings_of c) old lines
    ∙ apply_settings-settings_of c old h short
