-- ===== src/Gcache/Options.antt =====
-- `Options` and its setters: cache.go.
use gk.Common.{List, [], ◌∷◌}
use gk.Common.Str.{Str}
use gk.Common.Int64.{ℤ}

pub record Options : Type 0 where
  pub address : Str
  pub password : Str
  pub db : ℤ
  pub pool_size : ℤ
  pub min_idle_conns : ℤ
  pub dial_timeout : ℤ
  pub read_timeout : ℤ
  pub write_timeout : ℤ
  pub max_retries : ℤ
  pub cleanup_interval : ℤ

-- The type `Option`.
abbrev pub Setter : Type 0
Setter = Options → Options

unfoldable pub with_address : Str → Setter
with_address x o = record o { address = x }

unfoldable pub with_password : Str → Setter
with_password x o = record o { password = x }

unfoldable pub with_db : ℤ → Setter
with_db x o = record o { db = x }

unfoldable pub with_pool_size : ℤ → Setter
with_pool_size x o = record o { pool_size = x }

unfoldable pub with_min_idle_conns : ℤ → Setter
with_min_idle_conns x o = record o { min_idle_conns = x }

unfoldable pub with_dial_timeout : ℤ → Setter
with_dial_timeout timeout o = record o { dial_timeout = timeout }

unfoldable pub with_read_timeout : ℤ → Setter
with_read_timeout timeout o = record o { read_timeout = timeout }

unfoldable pub with_write_timeout : ℤ → Setter
with_write_timeout timeout o = record o { write_timeout = timeout }

unfoldable pub with_max_retries : ℤ → Setter
with_max_retries x o = record o { max_retries = x }

unfoldable pub with_cleanup_interval : ℤ → Setter
with_cleanup_interval interval o = record o { cleanup_interval = interval }

-- The loop of the constructors over their options.
unfoldable pub apply_options : List Setter → Options → Options
apply_options [] o = o
apply_options (set ∷ sets) o = apply_options sets (set o)
