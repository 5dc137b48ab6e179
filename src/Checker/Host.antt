-- ===== src/Checker/Host.antt =====
-- CheckHost of checker/rules.go.
use weops_inspect.Prelude.{
  Bool, not, ◌&&◌, List, [], ◌∷◌, ◌++◌, if◌then◌else◌, ltb_ℤ, Str, codes, str_eq, FloatOps,
}
use weops_inspect.Prelude.Strings.{trim_suffix}
use weops_inspect.Decimal.{itoa}
use weops_inspect.Model.{CheckStatus, ok, warn, CheckResult, DiskUsage, HostMetrics}
use weops_inspect.Config.Types.{Thresholds}

unfoldable pub make_result : Str → Str → CheckStatus → Str → CheckResult
make_result field value status threshold = record {
  field = field;
  value = value;
  status = status;
  threshold = threshold;
}

-- Warn where the test holds, and OK elsewhere.
abbrev pub warn_if : Bool → CheckStatus
warn_if b = if b then warn else ok

-- s != expected && s != "N/A"
unfoldable pub unexpected : Str → Str → Bool
unexpected s expected = not (str_eq s expected) && not (str_eq s (codes "N/A"))

module _ {F : Type 0} ⦃fl : FloatOps F⦄ where
  -- "≥ %.0f%%"
  unfoldable pub percent_threshold : F → Str
  percent_threshold x = codes "≥ " ++ fl.format_0 x ++ codes "%"

  -- "%.2f%%"
  unfoldable pub percent_text : F → Str
  percent_text x = fl.format_2 x ++ codes "%"

  -- UsageFloat, or the number that the text holds where it is 0.
  unfoldable pub usage_value : DiskUsage F → F
  unfolding trim_suffix
  usage_value du =
      if fl.eq du.usage_float fl.zero_float
      then (fl.parse_float (trim_suffix (codes "%") du.usage)).0
      else du.usage_float

  unfoldable pub check_usages : Str → F → List (DiskUsage F) → List CheckResult
  unfolding make_result usage_value percent_threshold
  check_usages name limit [] = []
  check_usages name limit (du ∷ dus) =
      make_result (name ++ codes "(" ++ du.mount_point ++ codes ")") du.usage
        (warn_if (fl.ge (usage_value du) limit)) (percent_threshold limit)
      ∷ check_usages name limit dus

  -- loadavg1 > loadavg5 > loadavg15 > cores
  unfoldable pub is_overloaded : HostMetrics F → Bool
  is_overloaded h =
      fl.gt h.load_avg1 h.load_avg5
      && fl.gt h.load_avg5 h.load_avg15
      && fl.gt h.load_avg15 (fl.of_int h.core)

  unfoldable pub load_text : HostMetrics F → Str
  unfolding itoa
  load_text h =
      fl.format_2 h.load_avg1
      ++ codes "/"
      ++ fl.format_2 h.load_avg5
      ++ codes "/"
      ++ fl.format_2 h.load_avg15
      ++ codes " (cores: "
      ++ itoa h.core
      ++ codes ")"

  -- The rules behind the two loops.
  unfoldable pub check_settings : HostMetrics F → Thresholds F → List CheckResult
  unfolding make_result is_overloaded load_text unexpected
  check_settings h t =
      make_result (codes "max_open_files") (itoa h.max_open_files)
        (warn_if (ltb_ℤ h.max_open_files t.max_open_files)) (codes "< " ++ itoa t.max_open_files)
      ∷ make_result (codes "selinux") h.selinux (warn_if (unexpected h.selinux (codes "Disabled")))
          (codes "期望 Disabled")
      ∷ make_result (codes "firewalld") h.firewalld
          (warn_if (unexpected h.firewalld (codes "inactive"))) (codes "期望 inactive")
      ∷ make_result (codes "chronyd") h.chronyd (warn_if (unexpected h.chronyd (codes "active")))
          (codes "期望 active")
      ∷ make_result (codes "load_average") (load_text h) (warn_if (is_overloaded h)) []
      ∷ []

  unfoldable pub check_host : HostMetrics F → Thresholds F → List CheckResult
  unfolding make_result percent_threshold percent_text check_usages check_settings
  check_host h t =
      make_result (codes "cpu_usage") (percent_text h.cpu_usage)
        (warn_if (fl.ge h.cpu_usage t.cpu_usage)) (percent_threshold t.cpu_usage)
      ∷ make_result (codes "mem_usage") (percent_text h.mem_usage)
          (warn_if (fl.ge h.mem_usage t.mem_usage)) (percent_threshold t.mem_usage)
      ∷ (check_usages (codes "disk_usage") t.disk_usage h.disk_usage
          ++ check_usages (codes "inode_usage") t.inode_usage h.inode_usage
          ++ check_settings h t)
