-- ===== src/Notify/Flow/Quiet.antt =====
-- notify/notify.go: runs within the cooldown.
use weops_inspect.Prelude.{◌≡◌, refl, Bool, true, false, arith, if◌then◌else◌, is_empty, Str}
use weops_inspect.Model.{InspectReport}
use weops_inspect.Notify.State.{State, Disk, encoded, holding, load_state}
use weops_inspect.Notify.State.Atomic.{all_ok, state_file-save_state}
use weops_inspect.Notify.Trigger.{
  Action, action_none, send_alert, send_recovery, is_alert, is_recovery,
}
use weops_inspect.Notify.Config.{Config}
use weops_inspect.Notify.Flow.{
  World, PrepContext, silent, chosen, suppressed_state, perform, prepare_enabled, dispatch,
}
use weops_inspect.Notify.Flow.Decisions.{was_alert, same_signature, cooled_down, chosen_lem}

action_cases : (a : Action) → is_alert a ≡ false → is_recovery a ≡ false → a ≡ action_none
action_cases action_none h g = refl
action_cases send_alert h g = cc
action_cases send_recovery h g = cc

chosen_quiet :
    (w : World) (ctx : PrepContext) (cfg : Config)
    → was_alert ctx ≡ true
    → is_empty ctx.filtered ≡ false
    → same_signature w ctx ≡ true
    → cooled_down ctx cfg ≡ false
    → chosen w ctx cfg ≡ action_none
chosen_quiet w ctx cfg a f s c =
    let table = chosen_lem w ctx cfg in
    action_cases (chosen w ctx cfg) (ground (arith, table.0)) (ground (arith, table.1))

-- What was mailed last, and when.
abbrev pub SameMail : State → State → Type 0
SameMail s t =
    (s.last_sent_at ≡ t.last_sent_at)
    × (s.last_signature ≡ t.last_signature)
    × (s.last_status ≡ t.last_status)

loaded_same :
    (b : Bool) (d : Disk) (d' : Disk) (s : State)
    → SameMail s (load_state d.state_file).0
    → d'.state_file ≡ (if b then holding (encoded s) else d.state_file)
    → SameMail (load_state d'.state_file).0 (load_state d.state_file).0
unfolding load_state
loaded_same true d d' s h e = rw e h
loaded_same false d d' s h e = rw e (refl, refl, refl)

module _ {F : Type 0} (w : World) (d : Disk) (report : InspectReport F) (html_path : Str)
    (ctx : PrepContext) (cfg : Config) where
  -- The run chooses no mail.
  perform_none : chosen w ctx cfg ≡ action_none → (dispatch w ctx cfg report html_path d).1 ≡ silent
  unfolding dispatch perform
  perform_none e = rw e

  quiet_state :
      chosen w ctx cfg ≡ action_none
      → (dispatch w ctx cfg report html_path d).0.state_file
        ≡ (if all_ok w.calls then holding (encoded (suppressed_state ctx)) else d.state_file)
  unfolding dispatch perform
  quiet_state e = rw e (state_file-save_state w.calls (suppressed_state ctx) d)

module _ {F : Type 0} (w : World) (cfg : Config) (d : Disk) (report : InspectReport F)
    (html_path : Str) where
  abbrev here : PrepContext
  here = (prepare_enabled w cfg d report).0

  same_mail : SameMail (suppressed_state here) (load_state d.state_file).0
  unfolding suppressed_state prepare_enabled
  same_mail = (refl, refl, refl)

  -- After an alert was mailed, a run in which something passes, with the signature that was mailed
  -- and before the cooldown is over, mails nothing, and the next run reads the same last signature,
  -- status and sending time, whether or not the state could be saved.
  pub dispatch_quiet :
      was_alert here ≡ true
      → is_empty here.filtered ≡ false
      → same_signature w here ≡ true
      → cooled_down here cfg ≡ false
      → ((dispatch w here cfg (prepare_enabled w cfg d report).1 html_path d).1 ≡ silent)
        × SameMail
            (load_state
              (dispatch w here cfg (prepare_enabled w cfg d report).1 html_path d).0.state_file).0
            (load_state d.state_file).0
  dispatch_quiet a f s c =
      let e = chosen_quiet w here cfg a f s c in
      (
        perform_none w d (prepare_enabled w cfg d report).1 html_path here cfg e,
        loaded_same (all_ok w.calls) d
            (dispatch w here cfg (prepare_enabled w cfg d report).1 html_path d).0
            (suppressed_state here) same_mail
            (quiet_state w d (prepare_enabled w cfg d report).1 html_path here cfg e),
      )
