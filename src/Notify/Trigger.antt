-- ===== src/Notify/Trigger.antt =====
-- notify/trigger.go: the decision matrix.
use weops_inspect.Prelude.{
  ℕ, Bool, true, false, not, ◌&&◌, Option, ltb, if◌then◌else◌, leb_ℤ, Str, str_eq, get_or,
}
use weops_inspect.Notify.Persistence.{Time, Duration, sub_time, status_alert}
use weops_inspect.Notify.State.{State, cold_start}

pub data Action : Type 0 where
  action_none send_alert send_recovery : Action

unfoldable pub decide : Time → Option State → ℕ → Str → Duration → Action
decide now prev warn_count sig_now cooldown =
    let p = get_or cold_start prev in
    let has_alerts = ltb 0 warn_count in
    let was_alert = str_eq p.last_status status_alert in
    if not has_alerts && not was_alert
    then action_none
    else if not has_alerts && was_alert
    then send_recovery
    else if has_alerts && not was_alert
    then send_alert
    else if not (str_eq sig_now p.last_signature)
    then send_alert
    else if leb_ℤ cooldown (sub_time now p.last_sent_at)
    then send_alert
    else action_none

abbrev pub is_alert : Action → Bool
is_alert send_alert = true
is_alert _ = false

abbrev pub is_recovery : Action → Bool
is_recovery send_recovery = true
is_recovery _ = false
