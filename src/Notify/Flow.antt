-- ===== src/Notify/Flow.antt =====
-- notify/notify.go: a run prepares the report before it is rendered, and then decides on a mail and
-- saves the state.
pub mod Consistency
pub mod Decisions
pub mod Recovery
pub mod Quiet
use weops_inspect.Prelude.{
  ℕ, zero, suc, ◌+◌, ◌-◌, ◌*◌, ◌/◌, ◌%◌, ◌^◌, ◌≤◌, ◌<◌, ◌≡◌, refl, sym, ap, ◌∙◌, ◌≢◌, ◌↔◌, ◌⊎◌, inl,
  inr, Bool, true, false, not, ◌&&◌, ◌||◌, Option, none, some, List, [], ◌∷◌, ◌++◌, map, arith, ltb,
  leb, ◌==◌, if◌then◌else◌, ltb→lt, lt→ltb, leb→le, ==_iff, tests, Bool-cases, Option-cases, length,
  length-append, filter, any, all, take, drop, replicate, is_empty, count_if, length-filter,
  count_if-append, any-append, all-append, ℤ, pos, negsuc, pos_part, neg_part, sub_ℕ, ◌≤ℤ◌, ltb_ℤ,
  leb_ℤ, eqb_ℤ, succ_int, Str, codes, str_eq, str_eq_iff, str_eq_refl, str_eq_sym, str_lt,
  str_lt_irrefl, str_lt_trans, str_lt_total, Dict, lookup, insert, lookup-insert, get_or, FloatOps,
}
use weops_inspect.Model.{
  CheckStatus, ok, warn, unknown, notice, unset, CheckResult, CheckSummary, is_warn,
  HostCheckResult, InspectReport,
}
use weops_inspect.Notify.Alerts.{AlertItem, host_by_field, host_of, extract_alerts}
use weops_inspect.Notify.Persistence.{
  Time, PendingItem, pending_key, status_alert, status_ok, PersistenceResult, apply_persistence,
  update_recovery_streak,
}
use weops_inspect.Notify.State.{State, Disk, SaveCalls, load_state, save_state}
use weops_inspect.Notify.Trigger.{Action, action_none, send_alert, send_recovery, decide}
use weops_inspect.Notify.Config.{Config, cooldown_of, validate}
use weops_inspect.Notify.Signature.{signature}
use weops_inspect.Notify.Demotion.{demote_pending}
use weops_inspect.Notify.HtmlFrag.{extract_body_fragment}
use weops_inspect.Notify.Email.{
  Mail, build_alert_subject, build_alert_body, build_recovery_subject, build_recovery_body,
}

-- A run's surroundings: the clock, sha256, reading the HTML report, sending, and saving.
pub record World : Type 0 where
  pub now : Time
  pub hex_sha256 : Str → Str
  pub read_file : Str → Option Str
  pub send : Mail → Bool
  pub calls : SaveCalls

unfoldable pub fragment_html : Option (Str × Str) → Str
fragment_html none = []
fragment_html (some (body, style)) =
    if is_empty style then body else codes "<style>" ++ style ++ codes "</style>" ++ 10 ∷ body

unfoldable pub file_html : Option Str → Str
unfolding fragment_html
file_html none = []
file_html (some raw) = fragment_html (extract_body_fragment raw)

unfoldable pub load_html_body : World → Str → Str
unfolding file_html
load_html_body w html_path = if is_empty html_path then [] else file_html (w.read_file html_path)

pub record PrepContext : Type 0 where
  pub prev : State
  pub filtered : List AlertItem
  pub next_pending : Dict PendingItem
  pub new_streak : ℤ
  pub raw_warns_empty : Bool
  pub now : Time

-- Validate passes and the mail is enabled.
unfoldable pub is_active : Config → Bool
unfolding validate
is_active cfg = cfg.email.enabled && elim (validate cfg) [ none ↦ true | some _ ↦ false ]

module _ {F : Type 0} where
  -- The call of ApplyPersistence, on the alerts of the report and the pending map of the state file.
  unfoldable pub confirm : World → Config → Disk → InspectReport F → PersistenceResult
  unfolding load_state
  confirm w cfg d report =
      apply_persistence (extract_alerts report) (load_state d.state_file).0.pending
        cfg.persistence.consecutive_runs w.now

  -- The part behind the two guards: the context, and the report as it was changed.
  unfoldable pub prepare_enabled :
      World → Config → Disk → InspectReport F → PrepContext × InspectReport F
  unfolding load_state
  prepare_enabled w cfg d report =
      let prev = (load_state d.state_file).0 in
      let raw_warns_empty = is_empty (extract_alerts report) in
      let res = confirm w cfg d report in
      (
        record {
          prev = prev;
          filtered = res.filtered;
          next_pending = res.next_pending;
          new_streak = update_recovery_streak prev.recovery_streak prev.last_status raw_warns_empty;
          raw_warns_empty = raw_warns_empty;
          now = w.now;
        },
        demote_pending report res.pending_keys,
      )

pub data Event : Type 0 where
  silent : Event
  sent : Action → Mail → Event
  send_failed : Action → Mail → Event

-- `case prev is alert && nothing passed`, or the decision matrix.
unfoldable pub proposed : World → PrepContext → Config → Action
unfolding signature decide cooldown_of
proposed w ctx cfg =
    if str_eq ctx.prev.last_status status_alert && is_empty ctx.filtered
    then (if ctx.raw_warns_empty && leb_ℤ cfg.persistence.consecutive_runs ctx.new_streak
        then send_recovery
        else action_none)
    else decide ctx.now (some ctx.prev) (length ctx.filtered) (signature w.hex_sha256 ctx.filtered)
        (cooldown_of cfg)

-- send_recovery = false turns a recovery into no action.
unfoldable pub allowed : Bool → Action → Action
allowed recoveries send_recovery = if recoveries then send_recovery else action_none
allowed recoveries send_alert = send_alert
allowed recoveries action_none = action_none

unfoldable pub chosen : World → PrepContext → Config → Action
unfolding proposed allowed
chosen w ctx cfg = allowed cfg.trigger.send_recovery (proposed w ctx cfg)

unfoldable pub suppressed_state : PrepContext → State
suppressed_state ctx = record ctx.prev {
  pending = ctx.next_pending;
  recovery_streak = ctx.new_streak;
}

unfoldable pub alert_state : World → PrepContext → State
unfolding signature
alert_state w ctx = record {
  last_sent_at = ctx.now;
  last_signature = signature w.hex_sha256 ctx.filtered;
  last_status = status_alert;
  pending = ctx.next_pending;
  recovery_streak = pos 0;
}

unfoldable pub recovery_state : PrepContext → State
recovery_state ctx = record {
  last_sent_at = ctx.now;
  last_signature = [];
  last_status = status_ok;
  pending = ctx.next_pending;
  recovery_streak = pos 0;
}

-- Send, and save only if the mail was sent. Errors of SaveState are ignored.
unfoldable pub deliver : World → Action → Mail → State → Disk → Disk × Event
deliver w action mail next d =
    if w.send mail
    then ((save_state w.calls next d).0, sent action mail)
    else (d, send_failed action mail)

module _ {F : Type 0} where
  unfoldable pub perform :
      World → PrepContext → InspectReport F → Str → Disk → Action → Disk × Event
  unfolding deliver suppressed_state alert_state recovery_state save_state
  perform w ctx report html_path d action_none =
      ((save_state w.calls (suppressed_state ctx) d).0, silent)
  perform w ctx report html_path d send_alert =
      deliver w send_alert
        (record {
          subject = build_alert_subject report.summary;
          body = build_alert_body report ctx.filtered;
          html_body = load_html_body w html_path;
          attachment_path = html_path;
        })
        (alert_state w ctx) d
  perform w ctx report html_path d send_recovery =
      deliver w send_recovery
        (record {
          subject = build_recovery_subject report.summary;
          body = build_recovery_body report;
          html_body = load_html_body w html_path;
          attachment_path = html_path;
        })
        (recovery_state ctx) d

  unfoldable pub dispatch :
      World → PrepContext → Config → InspectReport F → Str → Disk → Disk × Event
  unfolding perform chosen
  dispatch w ctx cfg report html_path d = perform w ctx report html_path d (chosen w ctx cfg)

  -- Prepare returns nil for a nil, disabled or invalid configuration, and Dispatch returns at nil.
  unfoldable pub prepare :
      World
      → Option Config
      → Disk
      → InspectReport F
      → Option (PrepContext × Config) × InspectReport F
  unfolding is_active prepare_enabled
  prepare w none d report = (none, report)
  prepare w (some cfg) d report =
      let (ctx, report') = prepare_enabled w cfg d report in
      if is_active cfg then (some (ctx, cfg), report') else (none, report)

  unfoldable pub dispatch_if :
      World → Option (PrepContext × Config) → InspectReport F → Str → Disk → Disk × Event
  unfolding dispatch
  dispatch_if w none report html_path d = (d, silent)
  dispatch_if w (some (ctx, cfg)) report html_path d = dispatch w ctx cfg report html_path d

  unfoldable pub process :
      World → Option Config → InspectReport F → Str → Disk → InspectReport F × (Disk × Event)
  unfolding prepare dispatch_if
  process w cfg report html_path d =
      let (ctx, report') = prepare w cfg d report in
      (report', dispatch_if w ctx report' html_path d)
