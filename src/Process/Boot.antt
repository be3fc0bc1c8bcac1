-- ===== src/Process/Boot.antt =====
-- The process starts well formed, whatever file it loads; and so it stays.
use crimson_cache.Dict.Defs.{Dict}
use crimson_cache.Process.{Process}
