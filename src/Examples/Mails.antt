-- ===== src/Examples/Mails.antt =====
-- Runs that mail and that stay silent.
use weops_inspect.Prelude.{
  ℕ, Str, none, ◌*◌, ◌≡◌, ◌↔◌, refl, true, false, not, ◌&&◌, ◌||◌, some, [], ◌∷◌, arith, length,
  any, is_empty, pos, negsuc, ◌≤ℤ◌, leb_ℤ, codes, str_eq, lookup, insert,
}
use weops_inspect.Model.{InspectReport}
use weops_inspect.Checker.Summary.{summarize}
use weops_inspect.Notify.Alerts.{host_by_field, to_item, collect_warns, extract_alerts}
use weops_inspect.Notify.Alerts.Attribution.{all_named, extract_alerts_names_last_owner}
use weops_inspect.Notify.Persistence.{
  apply_persistence, walk, visit, observe, pending_key, sub_time, update_recovery_streak,
}
use weops_inspect.Notify.Signature.{signature, signature_key, normalize_field_for_signature}
use weops_inspect.Notify.State.{State, Disk, cold_start, load_state, save_state}
use weops_inspect.Notify.State.Atomic.{Atomic, all_ok, save_state-Atomic}
use weops_inspect.Notify.Trigger.{is_alert, is_recovery}
use weops_inspect.Notify.Config.{
  ConfigFile, parsed, loaded, load, load_at, with_defaults, config_path, cooldown_of, scale_int,
  wrap_int,
}
use weops_inspect.Notify.Config.Timing.{cooldown_exact}
use weops_inspect.Notify.Flow.{
  PrepContext, Event, silent, chosen, dispatch, prepare_enabled, is_active, confirm, process,
}
use weops_inspect.Notify.Flow.Consistency.{extract_alerts-prepare, summary-prepare}
use weops_inspect.Notify.Flow.Decisions.{
  was_alert, same_signature, cooled_down, chosen_lem, Written, action_of, dispatch-Written,
}
use weops_inspect.Notify.Flow.Quiet.{SameMail, dispatch_quiet}
use weops_inspect.Notify.Flow.Recovery.{
  Inspection, streak_of, disk_after, clean_runs, event_at, recovery_after_clean_runs,
}
use weops_inspect.Inspect.Run.{Outcome, Files, run}
use weops_inspect.Examples.{
  report, clean_report, all_calls, world_at, config, disk_with, after_alert,
}

-- The alert that is sent by the second run that sees it.
abbrev seen_before : State
seen_before = record cold_start { pending = after_alert.pending }

abbrev here : PrepContext
here = (prepare_enabled (world_at 7 true) config (disk_with seen_before) report).0

abbrev there : InspectReport ℕ
there = (prepare_enabled (world_at 7 true) config (disk_with seen_before) report).1

extract_alerts-prepare_example : extract_alerts there ≡ here.filtered
extract_alerts-prepare_example =
    extract_alerts-prepare (world_at 7 true) config (disk_with seen_before) report

summary-prepare_example :
    (there.summary ≡ summarize there.all_checks) × (there.summary.warn_count ≡ length here.filtered)
summary-prepare_example =
    summary-prepare (world_at 7 true) config (disk_with seen_before) report refl

chosen_lem_example :
    (is_alert (chosen (world_at 7 true) here config) ≡ (
      not (is_empty here.filtered)
      && (not (was_alert here)
          || not (same_signature (world_at 7 true) here)
          || cooled_down here config)))
    × (is_recovery (chosen (world_at 7 true) here config) ≡ (
        true
        && was_alert here
        && is_empty here.filtered
        && here.raw_warns_empty
        && leb_ℤ (pos 2) here.new_streak))
chosen_lem_example = chosen_lem (world_at 7 true) here config

abbrev sent_run : Disk × Event
sent_run = dispatch (world_at 7 true) here config there (codes "/r.html") (disk_with seen_before)

dispatch-Written_example :
    Written (world_at 7 true) here (disk_with seen_before) sent_run.1 sent_run.0
dispatch-Written_example =
    dispatch-Written (world_at 7 true) here config there (codes "/r.html") (disk_with seen_before)

save_state-Atomic_example :
    Atomic
      (record all_calls { rename_ok = false })
      seen_before
      (disk_with after_alert)
      (save_state (record all_calls { rename_ok = false }) seen_before (disk_with after_alert)).0
      (save_state (record all_calls { rename_ok = false }) seen_before (disk_with after_alert)).1
save_state-Atomic_example =
    save_state-Atomic (record all_calls { rename_ok = false }) seen_before (disk_with after_alert)

-- A run seven nanoseconds after the alert was mailed.
abbrev soon : PrepContext
soon = (prepare_enabled (world_at 7 true) config (disk_with after_alert) report).0

abbrev soon_report : InspectReport ℕ
soon_report = (prepare_enabled (world_at 7 true) config (disk_with after_alert) report).1

abbrev soon_run : Disk × Event
soon_run =
    dispatch (world_at 7 true) soon config soon_report (codes "/r.html") (disk_with after_alert)

soon_quiet :
    (was_alert soon ≡ true)
    × (is_empty soon.filtered ≡ false)
    × (same_signature (world_at 7 true) soon ≡ true)
    × (cooled_down soon config ≡ false)
unfolding str_eq prepare_enabled confirm apply_persistence walk extract_alerts collect_warns visit
    observe lookup pending_key to_item host_by_field insert sub_time signature signature_key
    normalize_field_for_signature cooldown_of scale_int wrap_int any
soon_quiet = (refl, refl, refl, refl)

dispatch_quiet_example :
    (soon_run.1 ≡ silent)
    × SameMail
        (load_state soon_run.0.state_file).0
        (load_state (disk_with after_alert).state_file).0
dispatch_quiet_example =
    dispatch_quiet (world_at 7 true) config (disk_with after_alert) report (codes "/r.html")
      soon_quiet.0 soon_quiet.1 soon_quiet.2 soon_quiet.3

abbrev clean_at : ℕ → Inspection ℕ
clean_at t = record { world = world_at t true; report = clean_report; html_path = [] }

config_active : is_active config ≡ true
unfolding is_active
config_active = refl

-- An alert was mailed, and then a clean run counted.
abbrev alerted : Disk
alerted = disk_with after_alert

no_streak : streak_of alerted ≤ℤ pos 0
unfolding streak_of load_state
no_streak = omega arith

recovers : is_recovery (action_of (event_at config alerted (clean_at 7 ∷ []) (clean_at 9))) ≡ true
unfolding event_at process str_eq disk_after confirm apply_persistence walk extract_alerts
    collect_warns update_recovery_streak
recovers = refl

recovery_after_clean_runs_example : pos 2 ≤ℤ pos (clean_runs (clean_at 9 ∷ clean_at 7 ∷ []))
unfolding all_ok
recovery_after_clean_runs_example =
    recovery_after_clean_runs config alerted config_active (clean_at 7 ∷ []) (clean_at 9) no_streak
      (refl, (λ m. refl), tt) recovers

names_last_owner_example : all_named report.hosts (extract_alerts report) ≡ true
names_last_owner_example = extract_alerts_names_last_owner report

-- A file that gives an interval of -5 minutes, which Load replaces.
abbrev config_file : Str → ConfigFile
config_file path = parsed 384 (record config {
  trigger = record { min_interval_minutes = negsuc 4; send_recovery = true };
  path = [];
})

file_loads : load (codes "/c.json") none config_file ≡ loaded config
unfolding load load_at with_defaults config_path
file_loads = refl

cooldown_exact_example : (cooldown_of config ≡ pos (120 * 60000000000)) ↔ (pos 120 ≤ℤ pos 153722867)
cooldown_exact_example = cooldown_exact (codes "/c.json") none config_file config file_loads

-- The second run that sees the alert, with one report on disk from before.
abbrev reported_run : Disk × Files ℕ × Outcome
reported_run =
    run (world_at 7 true) (some config) (λ _. some (codes "/r.html")) report
      ((codes "/old.html", clean_report) ∷ []) (disk_with seen_before)
