-- ===== src/Notify/Alerts.antt =====
-- notify/alerts.go: the warnings of a report, each with the host that its field stands for.
pub mod Attribution
use weops_inspect.Prelude.{
  ℕ, List, [], ◌∷◌, if◌then◌else◌, count_if, Str, Dict, lookup, insert, get_or,
}
use weops_inspect.Model.{CheckResult, is_warn, is_unknown, HostCheckResult, InspectReport}

pub record AlertItem : Type 0 where
  pub host : Str
  pub field : Str
  pub value : Str
  pub threshold : Str

-- for _, c := range h.Checks { hostByField[c.Field] = h.Metrics.IP }
unfoldable pub add_fields : Str → List CheckResult → Dict Str → Dict Str
add_fields ip [] m = m
add_fields ip (c ∷ cs) m = add_fields ip cs (insert c.field ip m)

module _ {F : Type 0} where
  unfoldable pub add_hosts : List (HostCheckResult F) → Dict Str → Dict Str
  add_hosts [] m = m
  add_hosts (h ∷ hs) m = add_hosts hs (add_fields h.metrics.ip h.checks m)

  -- The map hostByField: a later host overwrites an earlier one.
  unfoldable pub host_by_field : List (HostCheckResult F) → Dict Str
  unfolding add_hosts add_fields
  host_by_field hosts = add_hosts hosts []

-- hostByField[field], "" where the field is missing
unfoldable pub host_of : Dict Str → Str → Str
host_of m field = get_or [] (lookup field m)

unfoldable pub to_item : Dict Str → CheckResult → AlertItem
unfolding host_of
to_item m c = record {
  host = host_of m c.field;
  field = c.field;
  value = c.value;
  threshold = c.threshold;
}

-- The loop over AllChecks.
unfoldable pub collect_warns : Dict Str → List CheckResult → List AlertItem
collect_warns m [] = []
collect_warns m (c ∷ cs) =
    let rest = collect_warns m cs in if is_warn c.status then to_item m c ∷ rest else rest

module _ {F : Type 0} where
  unfoldable pub extract_alerts : InspectReport F → List AlertItem
  extract_alerts report = collect_warns (host_by_field report.hosts) report.all_checks

  unfoldable pub extract_unknowns : InspectReport F → ℕ
  extract_unknowns report = count_if (λ c. is_unknown c.status) report.all_checks
