-- ===== src/Notify/Demotion.antt =====
-- demotePending and recomputeSummary of notify/notify.go.
pub mod Agree
use weops_inspect.Prelude.{
  ℕ, zero, suc, ◌+◌, ◌-◌, ◌*◌, ◌/◌, ◌%◌, ◌^◌, ◌≤◌, ◌<◌, ◌≡◌, refl, sym, ap, ◌∙◌, ◌≢◌, ◌↔◌, ◌⊎◌, inl,
  inr, Bool, true, false, not, ◌&&◌, ◌||◌, Option, none, some, List, [], ◌∷◌, ◌++◌, map, arith, ltb,
  leb, ◌==◌, if◌then◌else◌, ltb→lt, lt→ltb, leb→le, ==_iff, tests, Bool-cases, Option-cases, length,
  length-append, filter, any, all, take, drop, replicate, is_empty, count_if, length-filter,
  count_if-append, any-append, all-append, ℤ, pos, negsuc, pos_part, neg_part, sub_ℕ, ◌≤ℤ◌, ltb_ℤ,
  leb_ℤ, eqb_ℤ, succ_int, Str, codes, str_eq, str_eq_iff, str_eq_refl, str_eq_sym, str_lt,
  str_lt_irrefl, str_lt_trans, str_lt_total, Dict, lookup, insert, lookup-insert, get_or, FloatOps,
}
use weops_inspect.Model.{
  CheckStatus, ok, warn, unknown, notice, CheckResult, CheckSummary, is_warn, HostCheckResult,
  InspectReport,
}
use weops_inspect.Notify.Alerts.{host_by_field, host_of}
use weops_inspect.Notify.Persistence.{pending_key}

unfoldable pub recount : CheckStatus → CheckSummary → CheckSummary
recount ok s = record s { ok_count = s.ok_count + 1; total = s.total + 1 }
recount warn s = record s { warn_count = s.warn_count + 1; total = s.total + 1 }
recount unknown s = record s { unknown_count = s.unknown_count + 1; total = s.total + 1 }
recount _ s = s

unfoldable pub recount_from : CheckSummary → List CheckResult → CheckSummary
unfolding recount
recount_from s [] = s
recount_from s (r ∷ rs) = recount_from (recount r.status s) rs

unfoldable pub recompute_summary : List CheckResult → CheckSummary
unfolding recount_from
recompute_summary =
    recount_from (record { total = 0; ok_count = 0; warn_count = 0; unknown_count = 0 })

-- One check: a warning under a pending key becomes a notice.
unfoldable pub demote_check : Dict Bool → Str → CheckResult → CheckResult
demote_check keys host c =
    if is_warn c.status
    then (if get_or false (lookup (pending_key host c.field) keys)
        then record c { status = notice }
        else c)
    else c

module _ {F : Type 0} where
  unfoldable pub demote_host : Dict Bool → HostCheckResult F → HostCheckResult F
  unfolding demote_check
  demote_host keys h = record h { checks = map (demote_check keys h.metrics.ip) h.checks }

  -- What follows the early return.
  unfoldable pub demote_all : InspectReport F → Dict Bool → InspectReport F
  unfolding demote_host demote_check recompute_summary
  demote_all report keys =
      let hosts = map (demote_host keys) report.hosts in
      let by_field = host_by_field hosts in
      let checks = map (λ c. demote_check keys (host_of by_field c.field) c) report.all_checks in
      record report { hosts = hosts; all_checks = checks; summary = recompute_summary checks }

  unfoldable pub demote_pending : InspectReport F → Dict Bool → InspectReport F
  unfolding demote_all
  demote_pending report keys = if is_empty keys then report else demote_all report keys
