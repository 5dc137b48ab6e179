-- ===== src/Notify/Alerts/Attribution.antt =====
-- notify/alerts.go: which host an alert names.
use weops_inspect.Prelude.{
  ◌≡◌, refl, ap, ◌∙◌, Bool, true, List, [], ◌∷◌, arith, if◌then◌else◌, any, all, Str, str_eq,
  str_eq_iff, Dict, lookup, insert, lookup-insert,
}
use weops_inspect.Model.{CheckResult, HostCheckResult, InspectReport}
use weops_inspect.Notify.Alerts.{
  AlertItem, add_fields, add_hosts, host_by_field, host_of, to_item, collect_warns, extract_alerts,
}

-- The host has a check of the field.
unfoldable pub has_field : Str → List CheckResult → Bool
has_field f = any (λ c. str_eq c.field f)

host_of-add_fields :
    (ip f : Str) (cs : List CheckResult) (m : Dict Str)
    → host_of (add_fields ip cs m) f ≡ (if has_field f cs then ip else host_of m f)
unfolding add_fields has_field any host_of
host_of-add_fields ip f [] m = refl
host_of-add_fields ip f (c ∷ cs) m =
    ground (arith, host_of-add_fields ip f cs (insert c.field ip m), lookup-insert c.field f ip m)

module _ {F : Type 0} where
  -- The address of the last host that has the field, and "" where none has.
  unfoldable pub last_owner : Str → Str → List (HostCheckResult F) → Str
  last_owner f found [] = found
  last_owner f found (h ∷ hs) =
      last_owner f (if has_field f h.checks then h.metrics.ip else found) hs

  host_of-add_hosts :
      (f : Str) (hs : List (HostCheckResult F)) (m : Dict Str)
      → host_of (add_hosts hs m) f ≡ last_owner f (host_of m f) hs
  unfolding add_hosts last_owner
  host_of-add_hosts f [] m = refl
  host_of-add_hosts f (h ∷ hs) m =
      host_of-add_hosts f hs (add_fields h.metrics.ip h.checks m)
      ∙ ap (λ found. last_owner f found hs) (host_of-add_fields h.metrics.ip f h.checks m)

  named :
      (hs : List (HostCheckResult F)) (f : Str)
      → str_eq (host_of (host_by_field hs) f) (last_owner f [] hs) ≡ true
  unfolding host_by_field host_of lookup
  named hs f = (str_eq_iff _ _).1 (host_of-add_hosts f hs [])

  unfoldable pub all_named : List (HostCheckResult F) → List AlertItem → Bool
  all_named hs = all (λ it. str_eq it.host (last_owner it.field [] hs))

  collect_warns-all_named :
      (hs : List (HostCheckResult F)) (cs : List CheckResult)
      → all_named hs (collect_warns (host_by_field hs) cs) ≡ true
  unfolding all_named all collect_warns to_item
  collect_warns-all_named hs [] = refl
  collect_warns-all_named hs (c ∷ cs) =
      ground (arith, collect_warns-all_named hs cs, named hs c.field)

  -- Every alert names the last host of the report that has a check of its field, whichever host the
  -- warning comes from, and no host where the field belongs to none.
  pub extract_alerts_names_last_owner :
      (report : InspectReport F) → all_named report.hosts (extract_alerts report) ≡ true
  unfolding extract_alerts
  extract_alerts_names_last_owner report = collect_warns-all_named report.hosts report.all_checks
