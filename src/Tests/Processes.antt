-- ===== src/Tests/Processes.antt =====
-- The process from its start, and its parts on small inputs.
use crimson_cache.Base.{All, ◌≡◌, replicate, none, some, arith}
use crimson_cache.CString.{codes, isspace}
use crimson_cache.Dict.Ops.{new_dict}
use crimson_cache.Number.{pos, print, print_nat, digits}
use crimson_cache.Config.{ServerConfig, eventloop, load_default_config, load_config_from_file}
use crimson_cache.Config.Settings.{IsSetting, settings_file}
use crimson_cache.Config.Written.{settings_of, AreInts, load_config_from_file-settings_of}
use crimson_cache.Persistence.Load.{contents}
use crimson_cache.Process.{Machine, Process, booted}
use crimson_cache.Tests.Machines.{machine}

-- The default configuration on another port.
abbrev moved : ServerConfig
moved = record load_default_config { port = pos 7000; concurrency_model = eventloop }

moved-AreInts : AreInts moved
unfolding load_default_config
moved-AreInts = ground arith

moved-AreSettings : All IsSetting (settings_of moved)
unfolding load_default_config isspace print print_nat digits
moved-AreSettings = ground arith

load_config_from_file-settings_of_example :
    load_config_from_file (some (settings_file (settings_of moved))) load_default_config ≡ moved
load_config_from_file-settings_of_example =
    load_config_from_file-settings_of moved load_default_config moved-AreInts
      (unfold load_default_config in omega arith) moved-AreSettings

-- A file that is cut behind its header.
abbrev with_file : Machine
with_file = record machine { opened = contents (codes "CCDB") }

abbrev started : Process
started = booted load_default_config with_file (new_dict 1024) (replicate 100 none)
