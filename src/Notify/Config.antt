-- ===== src/Notify/Config.antt =====
-- notify/config.go: the mail configuration, its defaults and its validation.
pub mod Timing
use weops_inspect.Prelude.{
  ℕ, zero, suc, ◌+◌, ◌-◌, ◌*◌, ◌/◌, ◌%◌, ◌^◌, ◌≤◌, ◌<◌, ◌≡◌, refl, sym, ap, ◌∙◌, ◌≢◌, ◌↔◌, ◌⊎◌, inl,
  inr, Bool, true, false, not, ◌&&◌, ◌||◌, Option, none, some, List, [], ◌∷◌, ◌++◌, map, arith, ltb,
  leb, ◌==◌, if◌then◌else◌, ltb→lt, lt→ltb, leb→le, ==_iff, tests, Bool-cases, Option-cases, length,
  length-append, is_empty, filter, any, all, count_if, length-filter, count_if-append, any-append,
  all-append, ℤ, pos, negsuc, pos_part, neg_part, sub_ℕ, ◌≤ℤ◌, ltb_ℤ, leb_ℤ, eqb_ℤ, succ_int, Str,
  codes, str_eq, str_eq_iff, str_eq_refl, str_eq_sym, str_lt, str_lt_irrefl, str_lt_trans,
  str_lt_total, Dict, lookup, insert, lookup-insert, get_or, FloatOps,
}
use weops_inspect.Prelude.Int.{max_int}
use weops_inspect.Notify.Persistence.{Duration}

pub record EmailConfig : Type 0 where
  pub enabled : Bool
  pub smtp_host : Str
  pub smtp_port : ℤ
  pub use_tls : Bool
  pub username : Str
  pub password : Str
  pub sender : Str
  pub recipients : List Str

pub record TriggerConfig : Type 0 where
  pub min_interval_minutes : ℤ
  pub send_recovery : Bool

pub record PersistenceConfig : Type 0 where
  pub consecutive_runs : ℤ

pub record Config : Type 0 where
  pub email : EmailConfig
  pub trigger : TriggerConfig
  pub persistence : PersistenceConfig
  pub path : Str

pub data LoadError : Type 0 where
  no_home stat_failed read_failed parse_failed : LoadError

-- What Load finds: os.Getenv and os.UserHomeDir, then the file at the path, with its permission
-- bits and the Config that json.Unmarshal makes of its text.
pub data ConfigFile : Type 0 where
  absent : ConfigFile
  stat_error : ConfigFile
  unreadable : ℕ → ConfigFile
  garbage : ℕ → ConfigFile
  parsed : ℕ → Config → ConfigFile

-- p := os.Getenv("WEOPS_CONFIG"), else the default path in the home directory, which filepath.Join
-- also cleans; the home directory is taken to be a clean path other than "/".
unfoldable pub config_path : Str → Option Str → Option Str
config_path [] none = none
config_path [] (some home) = some (home ++ codes "/.config/weops/config.json")
config_path (c ∷ p) home = some (c ∷ p)

-- The defaults for what is missing or not positive.
unfoldable pub with_defaults : Config → Config
with_defaults cfg = record cfg {
  trigger = record cfg.trigger {
    min_interval_minutes =
        if leb_ℤ cfg.trigger.min_interval_minutes (pos 0)
        then pos 120
        else cfg.trigger.min_interval_minutes;
  };
  persistence = record {
    consecutive_runs =
        if leb_ℤ cfg.persistence.consecutive_runs (pos 0)
        then pos 2
        else cfg.persistence.consecutive_runs;
  };
}

pub data LoadResult : Type 0 where
  failed : LoadError → LoadResult
  no_config : LoadResult
  loaded : Config → LoadResult

-- The warnings about permissions and a negative count go to stderr and change nothing.
unfoldable pub load_at : Str → ConfigFile → LoadResult
unfolding with_defaults
load_at path absent = no_config
load_at path stat_error = failed stat_failed
load_at path (unreadable mode) = failed read_failed
load_at path (garbage mode) = failed parse_failed
load_at path (parsed mode cfg) = loaded (with_defaults (record cfg { path = path }))

unfoldable pub load : Str → Option Str → (Str → ConfigFile) → LoadResult
unfolding load_at config_path
load env home files = elim (config_path env home) [
  | none ↦ failed no_home
  | some path ↦ load_at path (files path)
]

pub data Missing : Type 0 where
  smtp_host smtp_port sender recipients : Missing

-- The first field that is missing, if the mail is enabled.
unfoldable pub validate : Config → Option Missing
validate cfg =
    if not cfg.email.enabled
    then none
    else if is_empty cfg.email.smtp_host
    then some smtp_host
    else if eqb_ℤ cfg.email.smtp_port (pos 0)
    then some smtp_port
    else if is_empty cfg.email.sender
    then some sender
    else if is_empty cfg.email.recipients
    then some recipients
    else none

-- int64 arithmetic wraps: the integer of the range that is equal to i modulo 2 ^ 64.
unfoldable pub wrap_int : ℤ → ℤ
wrap_int (pos n) =
    let m = n % 18446744073709551616 in
    if leb m max_int then pos m else negsuc (18446744073709551615 - m)
wrap_int (negsuc n) =
    let m = n % 18446744073709551616 in
    if leb m max_int then negsuc m else pos (18446744073709551615 - m)

-- i * k for a positive constant k
unfoldable pub scale_int : ℤ → ℕ → ℤ
unfolding wrap_int
scale_int (pos n) k = wrap_int (pos (n * k))
scale_int (negsuc n) k = wrap_int (negsuc (suc n * k - 1))

-- time.Duration(cfg.Trigger.MinIntervalMinutes) * time.Minute
unfoldable pub cooldown_of : Config → Duration
unfolding scale_int
cooldown_of cfg = scale_int cfg.trigger.min_interval_minutes 60000000000
