-- ===== src/Notify/Config/Timing.antt =====
-- notify/config.go: the settings that a run works with, after the defaults.
use weops_inspect.Prelude.{
  ℕ, ◌*◌, ◌≤◌, ◌≡◌, ◌↔◌, inl, inr, Option, arith, Option-cases, pos, ◌≤ℤ◌, ℤ, negsuc, pos_part, Str,
}
use mathlib.Core.Path.{subst}
use weops_inspect.Notify.Config.{
  absent, stat_error, unreadable, garbage, parsed, Config, ConfigFile, LoadResult, failed,
  no_config, loaded, with_defaults, load_at, load, config_path, wrap_int, scale_int, cooldown_of,
}

-- The settings are usable: an interval and a number of runs of at least 1.
abbrev pub IsUsable : Config → Type 0
IsUsable cfg =
    (pos 1 ≤ℤ cfg.trigger.min_interval_minutes) × (pos 1 ≤ℤ cfg.persistence.consecutive_runs)

with_defaults-IsUsable : (cfg : Config) → IsUsable (with_defaults cfg)
unfolding with_defaults
with_defaults-IsUsable cfg = ground arith

abbrev LoadedUsable : LoadResult → Type 0
LoadedUsable (failed e) = Unit
LoadedUsable no_config = Unit
LoadedUsable (loaded cfg) = IsUsable cfg

load_at-usable : (path : Str) (file : ConfigFile) → LoadedUsable (load_at path file)
unfolding load_at
load_at-usable path absent = tt
load_at-usable path stat_error = tt
load_at-usable path (unreadable mode) = tt
load_at-usable path (garbage mode) = tt
load_at-usable path (parsed mode cfg) = with_defaults-IsUsable (record cfg { path = path })

load-usable :
    (env : Str) (home : Option Str) (files : Str → ConfigFile) → LoadedUsable (load env home files)
unfolding load
load-usable env home files = elim (Option-cases (config_path env home)) [
  | inl e ↦ rw (e, LoadedUsable) tt
  | inr (path, e) ↦ rw (e, LoadedUsable) (load_at-usable path (files path))
]

-- Whatever number of runs and interval the file gives, negative ones included, the configuration
-- that Load returns has both at least 1.
pub load-IsUsable :
    (env : Str) (home : Option Str) (files : Str → ConfigFile) (cfg : Config)
    → load env home files ≡ loaded cfg
    → IsUsable cfg
load-IsUsable env home files cfg e = subst (λ r. LoadedUsable r) e (load-usable env home files)

-- A product of two whole numbers comes out of an int64 as it is exactly if it is at most the largest.
scale_int_iff : (n k : ℕ) → (scale_int (pos n) k ≡ pos (n * k)) ↔ (n * k ≤ 9223372036854775807)
unfolding scale_int wrap_int
scale_int_iff n k = (λ e. ground (arith, e), λ h. ground (arith, h))

-- The same for a number of minutes that is at least 1.
minutes_lem :
    (i : ℤ)
    → pos 1 ≤ℤ i
    → (scale_int i 60000000000 ≡ pos (pos_part i * 60000000000)) ↔ (i ≤ℤ pos 153722867)
minutes_lem (pos n) h =
    let lem = scale_int_iff n 60000000000 in
    (λ c. omega (arith, lem.0 c), λ b. lem.1 (omega (arith, b)))
minutes_lem (negsuc n) h = absurd (omega (arith, h))

-- For every configuration that Load returns, whatever the file gives: the cooldown is the interval in
-- nanoseconds exactly if the interval is at most 153722867 minutes (292 years). A longer interval,
-- which Load accepts, overflows an int64 of nanoseconds and gives another cooldown.
pub cooldown_exact :
    (env : Str) (home : Option Str) (files : Str → ConfigFile) (cfg : Config)
    → load env home files ≡ loaded cfg
    → (cooldown_of cfg ≡ pos (pos_part cfg.trigger.min_interval_minutes * 60000000000))
      ↔ (cfg.trigger.min_interval_minutes ≤ℤ pos 153722867)
unfolding cooldown_of
cooldown_exact env home files cfg e =
    minutes_lem cfg.trigger.min_interval_minutes (load-IsUsable env home files cfg e).0
