-- ===== src/Notify/Flow/Recovery.antt =====
-- notify/notify.go: recovery mails over a history of runs.
use weops_inspect.Prelude.{
  ℕ, suc, ◌≡◌, sym, ap, ◌∙◌, Bool, true, some, List, [], ◌∷◌, arith, if◌then◌else◌, is_empty, ℤ,
  pos, ◌≤ℤ◌, Str,
}
use weops_inspect.Model.{InspectReport}
use weops_inspect.Notify.Alerts.{extract_alerts}
use weops_inspect.Notify.Persistence.{update_recovery_streak}
use weops_inspect.Notify.State.{State, Disk, encoded, holding, load_state, save_state}
use weops_inspect.Notify.State.Atomic.{all_ok, state_file-save_state}
use weops_inspect.Notify.Trigger.{Action, action_none, send_alert, send_recovery, is_recovery}
use weops_inspect.Notify.Config.{Config}
use weops_inspect.Notify.Email.{Mail}
use weops_inspect.Notify.Flow.{
  World, PrepContext, Event, is_active, prepare_enabled, chosen, suppressed_state, alert_state,
  recovery_state, deliver, perform, dispatch, process,
}
use weops_inspect.Notify.Flow.Decisions.{chosen_lem, action_of, action_of-dispatch}

-- One run of the program: its surroundings, what it collected, and where it wrote the report.
pub record Inspection (F : Type 0) : Type 0 where
  pub world : World
  pub report : InspectReport F
  pub html_path : Str

unfoldable pub streak_of : Disk → ℤ
streak_of d = (load_state d.state_file).0.recovery_streak

module _ {F : Type 0} where
  -- The report has no warning, before any confirmation.
  abbrev pub is_clean : Inspection F → Bool
  is_clean r = is_empty (extract_alerts r.report)

  -- In how many of the newest runs there was none, without a gap.
  unfoldable pub clean_runs : List (Inspection F) → ℕ
  clean_runs [] = 0
  clean_runs (r ∷ rs) = let rest = clean_runs rs in if is_clean r then suc rest else 0

  -- In every run the mails are sent and the state is saved.
  abbrev pub AllWritten : List (Inspection F) → Type 0
  AllWritten [] = Unit
  AllWritten (r ∷ rs) =
      (all_ok r.world.calls ≡ true) × ((m : Mail) → r.world.send m ≡ true) × AllWritten rs

  -- The disk after a history of runs, the newest first.
  unfoldable pub disk_after : Config → Disk → List (Inspection F) → Disk
  disk_after cfg d [] = d
  disk_after cfg d (r ∷ rs) =
      (process r.world (some cfg) r.report r.html_path (disk_after cfg d rs)).1.0

  -- What the newest run mails.
  unfoldable pub event_at : Config → Disk → List (Inspection F) → Inspection F → Event
  event_at cfg d rs r = (process r.world (some cfg) r.report r.html_path (disk_after cfg d rs)).1.1

  process_active :
      (cfg : Config) (d : Disk) (r : Inspection F)
      → is_active cfg ≡ true
      → (process r.world (some cfg) r.report r.html_path d).1
        ≡ dispatch r.world
            (prepare_enabled r.world cfg d r.report).0
            cfg
            (prepare_enabled r.world cfg d r.report).1
            r.html_path
            d
  unfolding process
  process_active cfg d r h = rw h

-- The streak that a run hands on is at most one more than the old one, and 0 after a warning.
update_recovery_streak-le :
    (s : ℤ) (status : Str) (clean : Bool) (c : ℕ)
    → s ≤ℤ pos c
    → update_recovery_streak s status clean ≤ℤ pos (if clean then suc c else 0)
unfolding update_recovery_streak
update_recovery_streak-le s status clean c h = ground arith

-- The streak on disk after the chosen action, where the mail is sent and the state is saved.
written_streak : PrepContext → Action → ℤ
written_streak ctx action_none = ctx.new_streak
written_streak ctx _ = pos 0

written_streak-le :
    (ctx : PrepContext) (a : Action) (c : ℕ)
    → ctx.new_streak ≤ℤ pos c
    → written_streak ctx a ≤ℤ pos c
unfolding written_streak
written_streak-le ctx action_none c h = h
written_streak-le ctx send_alert c h = omega arith
written_streak-le ctx send_recovery c h = omega arith

streak-saved :
    (s : State) (d : Disk) → d.state_file ≡ holding (encoded s) → streak_of d ≡ s.recovery_streak
unfolding streak_of load_state
streak-saved s d e = rw e

streak-deliver :
    (w : World) (a : Action) (m : Mail) (next : State) (d : Disk)
    → all_ok w.calls ≡ true
    → w.send m ≡ true
    → streak_of (deliver w a m next d).0 ≡ next.recovery_streak
unfolding deliver
streak-deliver w a m next d ok sends =
    rw sends (
      streak-saved next (save_state w.calls next d).0
        (state_file-save_state w.calls next d ∙ rw ok))

module _ {F : Type 0} where
  streak-perform :
      (w : World) (ctx : PrepContext) (report : InspectReport F) (html_path : Str) (d : Disk)
      (a : Action)
      → all_ok w.calls ≡ true
      → ((m : Mail) → w.send m ≡ true)
      → streak_of (perform w ctx report html_path d a).0 ≡ written_streak ctx a
  unfolding written_streak perform suppressed_state alert_state recovery_state
  streak-perform w ctx report html_path d action_none ok sends =
      streak-saved (suppressed_state ctx) (save_state w.calls (suppressed_state ctx) d).0
        (state_file-save_state w.calls (suppressed_state ctx) d ∙ rw ok)
  streak-perform w ctx report html_path d send_alert ok sends =
      streak-deliver w send_alert _ (alert_state w ctx) d ok (sends _)
  streak-perform w ctx report html_path d send_recovery ok sends =
      streak-deliver w send_recovery _ (recovery_state ctx) d ok (sends _)

  new_streak-le :
      (cfg : Config) (d : Disk) (rs : List (Inspection F)) (r : Inspection F)
      → streak_of d ≤ℤ pos (clean_runs rs)
      → (prepare_enabled r.world cfg d r.report).0.new_streak ≤ℤ pos (clean_runs (r ∷ rs))
  unfolding prepare_enabled clean_runs streak_of
  new_streak-le cfg d rs r h =
      update_recovery_streak-le (load_state d.state_file).0.recovery_streak
        (load_state d.state_file).0.last_status (is_clean r) (clean_runs rs) h

module _ {F : Type 0} (cfg : Config) (d : Disk) (active : is_active cfg ≡ true) where
  disk_after-cons :
      (rs : List (Inspection F)) (r : Inspection F)
      → let (ctx, report) = prepare_enabled r.world cfg (disk_after cfg d rs) r.report in
        disk_after cfg d (r ∷ rs)
        ≡ (dispatch r.world ctx cfg report r.html_path (disk_after cfg d rs)).0
  disk_after-cons rs r =
      unfold disk_after in ap (λ p. p.0) (process_active cfg (disk_after cfg d rs) r active)

  streak-disk_after-cons :
      (rs : List (Inspection F)) (r : Inspection F)
      → all_ok r.world.calls ≡ true
      → ((m : Mail) → r.world.send m ≡ true)
      → let ctx = (prepare_enabled r.world cfg (disk_after cfg d rs) r.report).0 in
        streak_of (disk_after cfg d (r ∷ rs)) ≡ written_streak ctx (chosen r.world ctx cfg)
  unfolding dispatch
  streak-disk_after-cons rs r ok sends =
      let old = disk_after cfg d rs in
      let (ctx, report) = prepare_enabled r.world cfg old r.report in
      ap streak_of (disk_after-cons rs r)
      ∙ streak-perform r.world ctx report r.html_path old (chosen r.world ctx cfg) ok sends

  streak-disk_after :
      (rs : List (Inspection F))
      → streak_of d ≤ℤ pos 0
      → AllWritten rs
      → streak_of (disk_after cfg d rs) ≤ℤ pos (clean_runs rs)
  streak-disk_after [] start h = unfold clean_runs disk_after in start
  streak-disk_after (r ∷ rs) start h =
      let old = disk_after cfg d rs in
      let ctx = (prepare_enabled r.world cfg old r.report).0 in
      rw (streak-disk_after-cons rs r h.0 h.1) (
        written_streak-le ctx (chosen r.world ctx cfg) (clean_runs (r ∷ rs))
          (new_streak-le cfg old rs r (streak-disk_after rs start h.2)))

  action_of-event_at :
      (rs : List (Inspection F)) (r : Inspection F)
      → action_of (event_at cfg d rs r)
        ≡ chosen r.world (prepare_enabled r.world cfg (disk_after cfg d rs) r.report).0 cfg
  unfolding event_at
  action_of-event_at rs r =
      let old = disk_after cfg d rs in
      ap (λ p. action_of p.1) (process_active cfg old r active)
      ∙ action_of-dispatch r.world (prepare_enabled r.world cfg old r.report).0 cfg
          (prepare_enabled r.world cfg old r.report).1 r.html_path old

  -- With mails switched on and configured, and from a disk with no recovery streak, through any
  -- history of runs in which the mails are sent and the state is saved: a run that mails a
  -- recovery, or tries to, ends at least N runs in a row that had no warning at all, not even one
  -- that waits for confirmation.
  pub recovery_after_clean_runs :
      (rs : List (Inspection F)) (r : Inspection F)
      → streak_of d ≤ℤ pos 0
      → AllWritten rs
      → is_recovery (action_of (event_at cfg d rs r)) ≡ true
      → cfg.persistence.consecutive_runs ≤ℤ pos (clean_runs (r ∷ rs))
  recovery_after_clean_runs rs r start h e =
      let old = disk_after cfg d rs in
      let ctx = (prepare_enabled r.world cfg old r.report).0 in
      let c : is_recovery (chosen r.world ctx cfg) ≡ true =
        ap is_recovery (sym (action_of-event_at rs r)) ∙ e in
      ground (
        arith,
        c,
        (chosen_lem r.world ctx cfg).1,
        new_streak-le cfg old rs r (streak-disk_after rs start h),
      )
