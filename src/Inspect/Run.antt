-- ===== src/Inspect/Run.antt =====
-- main.go, from the report on: Prepare, writing the report to files, and Dispatch. output.Write is a
-- function that returns the path of the HTML file, or nothing where it fails; the report that it was
-- given is kept beside the path, so that what was written can be told from what was mailed.
use weops_inspect.Prelude.{◌≡◌, true, false, Option, none, some, List, [], ◌∷◌, is_empty, Str}
use weops_inspect.Model.{InspectReport}
use weops_inspect.Notify.Alerts.{extract_alerts}
use weops_inspect.Notify.State.{State, Disk}
use weops_inspect.Notify.Trigger.{Action, action_none, send_alert, send_recovery}
use weops_inspect.Notify.Config.{Config}
use weops_inspect.Notify.Email.{
  Mail, build_alert_subject, build_alert_body, build_recovery_subject, build_recovery_body,
}
use weops_inspect.Notify.Flow.{
  World, PrepContext, Event, silent, sent, send_failed, prepare, dispatch_if,
}

-- How a run ends: with what became of the mail, or with exit code 1 because the report could not be
-- written.
pub data Outcome : Type 0 where
  reported : Event → Outcome
  not_written : Outcome

-- The reports that output.Write has put on disk, each under the path of its HTML file, the latest
-- first.
abbrev pub Files : Type 0 → Type 0
Files F = List (Str × InspectReport F)

module _ {F : Type 0} where
  unfoldable pub store_report : Option Str → InspectReport F → Files F → Option Str × Files F
  store_report none rendered files = (none, files)
  store_report (some html_path) rendered files = (some html_path, (html_path, rendered) ∷ files)

  -- The call of output.Write: its answer, and what it leaves on disk.
  unfoldable pub write_report :
      (InspectReport F → Option Str) → InspectReport F → Files F → Option Str × Files F
  unfolding store_report
  write_report write rendered files = store_report (write rendered) rendered files

  -- What follows output.Write, by its answer.
  unfoldable pub finish :
      World → Option (PrepContext × Config) → InspectReport F → Option Str → Disk → Disk × Outcome
  unfolding dispatch_if
  finish w ctx rendered none d = (d, not_written)
  finish w ctx rendered (some html_path) d =
      let (after, event) = dispatch_if w ctx rendered html_path d in (after, reported event)

  unfoldable pub run :
      World
      → Option Config
      → (InspectReport F → Option Str)
      → InspectReport F
      → Files F
      → Disk
      → Disk × Files F × Outcome
  unfolding prepare write_report finish
  run w cfg write report files d =
      let (ctx, rendered) = prepare w cfg d report in
      let (html_path, files') = write_report write rendered files in
      let (after, outcome) = finish w ctx rendered html_path d in (after, files', outcome)

module _ {F : Type 0} (html_path : Str) (report : InspectReport F) where
  -- What a mail tells of a report, by its action: an alert has its counts in the subject and exactly
  -- its warnings in the body, of which there is one at least, and a recovery is built from it and it
  -- has no warning. Both carry the file of the report.
  unfoldable pub TellsBy : Action → Mail → Type 0
  TellsBy action_none m = ⊥
  TellsBy send_alert m =
      (is_empty (extract_alerts report) ≡ false)
      × (m.subject ≡ build_alert_subject report.summary)
      × (m.body ≡ build_alert_body report (extract_alerts report))
      × (m.attachment_path ≡ html_path)
  TellsBy send_recovery m =
      (is_empty (extract_alerts report) ≡ true)
      × (m.subject ≡ build_recovery_subject report.summary)
      × (m.body ≡ build_recovery_body report)
      × (m.attachment_path ≡ html_path)

  unfoldable pub Tells : Event → Type 0
  unfolding TellsBy
  Tells silent = Unit
  Tells (sent a m) = TellsBy a m
  Tells (send_failed a m) = TellsBy a m

module _ {F : Type 0} where
  -- The latest report on disk is the only new one, and the event tells of it.
  unfoldable pub TellsLatest : Files F → Event → Files F → Type 0
  unfolding Tells
  TellsLatest before event [] = ⊥
  TellsLatest before event ((html_path, rendered) ∷ files) =
      (files ≡ before) × Tells html_path rendered event

  -- The same of a run that mails, and nothing new on disk for one that ends before.
  unfoldable pub OutcomeTells : Files F → Files F → Outcome → Type 0
  unfolding TellsLatest
  OutcomeTells before after (reported event) = TellsLatest before event after
  OutcomeTells before after not_written = after ≡ before
