-- ===== src/Model/Check.antt =====
-- model/types.go: check results and their summary.
use weops_inspect.Prelude.{ℕ, Str, Bool, true, false}

-- The four constants, and the empty string that a cell has before a check colours it.
pub data CheckStatus : Type 0 where
  unset ok warn unknown notice : CheckStatus

abbrev pub is_ok : CheckStatus → Bool
is_ok ok = true
is_ok _ = false

abbrev pub is_warn : CheckStatus → Bool
is_warn warn = true
is_warn _ = false

abbrev pub is_unknown : CheckStatus → Bool
is_unknown unknown = true
is_unknown _ = false

abbrev pub is_notice : CheckStatus → Bool
is_notice notice = true
is_notice _ = false

pub record CheckResult : Type 0 where
  pub field : Str
  pub value : Str
  pub status : CheckStatus
  pub threshold : Str

pub record CheckSummary : Type 0 where
  pub total : ℕ
  pub ok_count : ℕ
  pub warn_count : ℕ
  pub unknown_count : ℕ

abbrev pub is_unset : CheckStatus → Bool
is_unset unset = true
is_unset _ = false
