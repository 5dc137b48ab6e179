-- ===== src/Notify/Demotion/Agree.antt =====
-- notify/notify.go: the report after demotePending, as ExtractAlerts and Summarize read it.
use weops_inspect.Prelude.{
  ◌≡◌, refl, sym, ap, ◌∙◌, Bool, false, not, List, [], ◌∷◌, map, arith, length, filter-true, filter,
  count_if, Str, Dict, lookup, insert, get_or,
}
use weops_inspect.Model.{
  ok, warn, unknown, notice, unset, CheckResult, CheckSummary, is_warn, HostCheckResult,
  InspectReport,
}
use weops_inspect.Checker.Summary.{summarize, tally, summarize_from, count_status, no_checks}
use weops_inspect.Notify.Alerts.{
  add_fields, add_hosts, host_by_field, host_of, to_item, collect_warns, extract_alerts,
}
use weops_inspect.Notify.Persistence.{key_of}
use weops_inspect.Notify.Demotion.{
  recount, recount_from, recompute_summary, demote_check, demote_host, demote_all, demote_pending,
}

recount-eq-tally : (c : _) (s : CheckSummary) → recount c s ≡ tally c s
unfolding recount tally
recount-eq-tally ok s = refl
recount-eq-tally warn s = refl
recount-eq-tally unknown s = refl
recount-eq-tally notice s = refl
recount-eq-tally unset s = refl

recount_from-eq-summarize_from :
    (s : CheckSummary) (rs : List CheckResult) → recount_from s rs ≡ summarize_from s rs
unfolding recount_from summarize_from
recount_from-eq-summarize_from s [] = refl
recount_from-eq-summarize_from s (r ∷ rs) =
    rw (recount-eq-tally r.status s) (recount_from-eq-summarize_from (tally r.status s) rs)

-- recomputeSummary gives the same summary as Summarize, of any results.
pub recompute_summary-eq-summarize : (rs : List CheckResult) → recompute_summary rs ≡ summarize rs
unfolding recompute_summary summarize
recompute_summary-eq-summarize rs = recount_from-eq-summarize_from no_checks rs

module _ (keys : Dict Bool) where
  -- The key is held back.
  abbrev pub is_held : Str → Bool
  is_held k = get_or false (lookup k keys)

  field-demote_check : (host : Str) (c : CheckResult) → (demote_check keys host c).field ≡ c.field
  unfolding demote_check
  field-demote_check host c = ground arith

  add_fields-demote :
      (ip : Str) (cs : List CheckResult) (m : Dict Str)
      → add_fields ip (map (demote_check keys ip) cs) m ≡ add_fields ip cs m
  unfolding add_fields
  add_fields-demote ip [] m = refl
  add_fields-demote ip (c ∷ cs) m =
      rw (field-demote_check ip c) (add_fields-demote ip cs (insert c.field ip m))

  pub collect_warns-demote :
      (m : Dict Str) (cs : List CheckResult)
      → collect_warns m (map (λ c. demote_check keys (host_of m c.field) c) cs)
        ≡ filter (λ it. not (is_held (key_of it))) (collect_warns m cs)
  unfolding collect_warns filter demote_check to_item
  collect_warns-demote m [] = refl
  collect_warns-demote m (c ∷ cs) = ground (arith, collect_warns-demote m cs)

module _ {F : Type 0} (keys : Dict Bool) where
  add_hosts-demote :
      (hosts : List (HostCheckResult F)) (m : Dict Str)
      → add_hosts (map (demote_host keys) hosts) m ≡ add_hosts hosts m
  unfolding add_hosts demote_host
  add_hosts-demote [] m = refl
  add_hosts-demote (h ∷ hs) m =
      add_hosts-demote hs
        (add_fields h.metrics.ip (map (demote_check keys h.metrics.ip) h.checks) m)
      ∙ ap (add_hosts hs) (add_fields-demote keys h.metrics.ip h.checks m)

  host_by_field-demote :
      (hosts : List (HostCheckResult F))
      → host_by_field (map (demote_host keys) hosts) ≡ host_by_field hosts
  unfolding host_by_field
  host_by_field-demote hosts = add_hosts-demote hosts []

  extract_alerts-demote_all :
      (report : InspectReport F)
      → extract_alerts (demote_all report keys)
        ≡ filter (λ it. not (is_held keys (key_of it))) (extract_alerts report)
  unfolding extract_alerts demote_all
  extract_alerts-demote_all report =
      collect_warns-demote keys (host_by_field (map (demote_host keys) report.hosts))
        report.all_checks
      ∙ ap (λ m. filter (λ it. not (is_held keys (key_of it))) (collect_warns m report.all_checks))
          (host_by_field-demote report.hosts)

  summary-demote_all :
      (report : InspectReport F)
      → (demote_all report keys).summary ≡ summarize (demote_all report keys).all_checks
  unfolding demote_all
  summary-demote_all report = recompute_summary-eq-summarize _

module _ {F : Type 0} where
  -- ExtractAlerts of the demoted report gives, in order, the alerts that are not held back.
  pub extract_alerts-demote :
      (keys : Dict Bool) (report : InspectReport F)
      → extract_alerts (demote_pending report keys)
        ≡ filter (λ it. not (is_held keys (key_of it))) (extract_alerts report)
  extract_alerts-demote [] report =
      unfold demote_pending lookup in sym (filter-true (extract_alerts report))
  extract_alerts-demote (k ∷ keys) report =
      unfold demote_pending in extract_alerts-demote_all (k ∷ keys) report

  -- A report whose summary counts its checks is demoted to one whose summary does.
  pub summary-demote :
      (keys : Dict Bool) (report : InspectReport F)
      → report.summary ≡ summarize report.all_checks
      → (demote_pending report keys).summary ≡ summarize (demote_pending report keys).all_checks
  summary-demote [] report h = unfold demote_pending in h
  summary-demote (k ∷ keys) report h = unfold demote_pending in summary-demote_all (k ∷ keys) report

length-collect_warns :
    (m : Dict Str) (cs : List CheckResult) → length (collect_warns m cs) ≡ count_status is_warn cs
unfolding collect_warns count_status count_if
length-collect_warns m [] = refl
length-collect_warns m (c ∷ cs) = ground (arith, length-collect_warns m cs)

-- There are as many alerts as warnings among the checks.
pub length-extract_alerts :
    {F : Type 0} (report : InspectReport F)
    → length (extract_alerts report) ≡ count_status is_warn report.all_checks
unfolding extract_alerts
length-extract_alerts report = length-collect_warns (host_by_field report.hosts) report.all_checks
