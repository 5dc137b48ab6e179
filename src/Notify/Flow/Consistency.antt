-- ===== src/Notify/Flow/Consistency.antt =====
-- notify/notify.go: the report after Prepare, and the alerts that Prepare passes on.
use weops_inspect.Prelude.{
  ◌≡◌, refl, sym, ap, ◌∙◌, Bool, true, not, ◌&&◌, List, [], ◌∷◌, arith, length, filter, any, all, ℤ,
  Str, str_eq_refl, Dict,
}
use weops_inspect.Model.{InspectReport}
use weops_inspect.Checker.Summary.{summarize, summarize_counts}
use weops_inspect.Notify.Alerts.{AlertItem, extract_alerts}
use weops_inspect.Notify.Persistence.{Time, PendingItem, key_of, apply_persistence}
use weops_inspect.Notify.Persistence.Gate.{has_key, confirmed, apply_persistence-Gated}
use weops_inspect.Notify.State.{Disk, load_state}
use weops_inspect.Notify.Config.{Config}
use weops_inspect.Notify.Demotion.Agree.{
  is_held, extract_alerts-demote, summary-demote, length-extract_alerts,
}
use weops_inspect.Notify.Flow.{World, confirm, prepare_enabled}

-- Every item of the first list has its key in the second.
abbrev covered : List AlertItem → List AlertItem → Bool
covered xs whole = all (λ it. has_key (key_of it) whole) xs

covered-cons :
    (xs whole : List AlertItem) (y : AlertItem)
    → covered xs whole ≡ true
    → covered xs (y ∷ whole) ≡ true
unfolding all has_key any
covered-cons [] whole y h = refl
covered-cons (x ∷ xs) whole y h = ground (arith, covered-cons xs whole y)

covered_head :
    (x : AlertItem) (xs : List AlertItem)
    → covered xs (x ∷ xs) ≡ true
    → covered (x ∷ xs) (x ∷ xs) ≡ true
unfolding all has_key any
covered_head x xs h = ground (arith, str_eq_refl (key_of x))

covered_self : (xs : List AlertItem) → covered xs xs ≡ true
covered_self [] = unfold all in refl
covered_self (x ∷ xs) = covered_head x xs (covered-cons xs xs x (covered_self xs))

module _ (held conf : Str → Bool) (whole : List AlertItem)
    (kept : (k : Str) → held k ≡ (has_key k whole && not (conf k))) where
  filter_held :
      (xs : List AlertItem)
      → covered xs whole ≡ true
      → filter (λ it. not (held (key_of it))) xs ≡ filter (λ it. conf (key_of it)) xs
  unfolding filter all
  filter_held [] h = refl
  filter_held (x ∷ xs) h = ground (arith, kept (key_of x), filter_held xs)

-- The alerts that are not held back by a pass are the ones that pass.
filter-apply_persistence :
    (items : List AlertItem) (prev : Dict PendingItem) (n : ℤ) (now : Time)
    → let res = apply_persistence items prev n now in
      filter (λ it. not (is_held res.pending_keys (key_of it))) items ≡ res.filtered
filter-apply_persistence items prev n now =
    let gate = apply_persistence-Gated items prev n now in
    filter_held (is_held (apply_persistence items prev n now).pending_keys) (confirmed prev n now)
      items gate.held items (covered_self items)
    ∙ sym gate.passed

module _ {F : Type 0} (w : World) (cfg : Config) (d : Disk) (report : InspectReport F) where
  -- The warnings of the report as the enabled part of Prepare leaves it are exactly the alerts
  -- that passed the confirmation, in the same order.
  pub extract_alerts-prepare :
      extract_alerts (prepare_enabled w cfg d report).1
      ≡ (prepare_enabled w cfg d report).0.filtered
  unfolding prepare_enabled
  extract_alerts-prepare =
      extract_alerts-demote (confirm w cfg d report).pending_keys report
      ∙ (unfold confirm in
          filter-apply_persistence (extract_alerts report) (load_state d.state_file).0.pending
            cfg.persistence.consecutive_runs w.now)

  -- If the summary of the report counts its checks before the enabled part of Prepare, then it
  -- does after it, and its Warn count is the number of alerts that passed the confirmation.
  pub summary-prepare :
      report.summary ≡ summarize report.all_checks
      → ((prepare_enabled w cfg d report).1.summary
          ≡ summarize (prepare_enabled w cfg d report).1.all_checks)
        × ((prepare_enabled w cfg d report).1.summary.warn_count
            ≡ length (prepare_enabled w cfg d report).0.filtered)
  summary-prepare h =
      let after = (prepare_enabled w cfg d report).1 in
      let same : after.summary ≡ summarize after.all_checks =
        unfold prepare_enabled in summary-demote (confirm w cfg d report).pending_keys report h in
      (
        same,
        ap (λ s. s.warn_count) same
            ∙ (summarize_counts after.all_checks).1
            ∙ sym (length-extract_alerts after)
            ∙ ap length extract_alerts-prepare,
      )
