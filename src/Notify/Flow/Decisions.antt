-- ===== src/Notify/Flow/Decisions.antt =====
-- notify/notify.go: the choice of a mail in Dispatch, and the state that it writes.
use weops_inspect.Prelude.{
  ◌≡◌, refl, inl, inr, Bool, not, ◌&&◌, ◌||◌, List, [], ◌∷◌, arith, ltb, if◌then◌else◌, Bool-cases,
  length, is_empty, leb_ℤ, pos, Str, codes, str_eq,
}
use weops_inspect.Model.{InspectReport}
use weops_inspect.Notify.Persistence.{sub_time, status_alert}
use weops_inspect.Notify.State.{State, Disk, encoded, holding}
use weops_inspect.Notify.State.Atomic.{all_ok, state_file-save_state}
use weops_inspect.Notify.Trigger.{
  Action, action_none, send_alert, send_recovery, decide, is_alert, is_recovery,
}
use weops_inspect.Notify.Config.{Config, cooldown_of}
use weops_inspect.Notify.Signature.{signature}
use weops_inspect.Notify.Email.{Mail}
use weops_inspect.Notify.Flow.{
  World, PrepContext, Event, silent, sent, send_failed, chosen, suppressed_state, alert_state,
  recovery_state, deliver, perform, dispatch,
}

-- The previous run left the status alert.
abbrev pub was_alert : PrepContext → Bool
was_alert ctx = str_eq ctx.prev.last_status status_alert

-- The signature is the one that was mailed last.
abbrev pub same_signature : World → PrepContext → Bool
same_signature w ctx = str_eq (signature w.hex_sha256 ctx.filtered) ctx.prev.last_signature

-- The cooldown is over.
abbrev pub cooled_down : PrepContext → Config → Bool
cooled_down ctx cfg = leb_ℤ (cooldown_of cfg) (sub_time ctx.now ctx.prev.last_sent_at)

length_pos {ℓ} : {A : Type ℓ} (xs : List A) → ltb 0 (length xs) ≡ not (is_empty xs)
length_pos [] = refl
length_pos (x ∷ xs) = ground arith

-- Dispatch chooses an alert exactly if something passed the confirmation and the last status was
-- not alert, or the signature is new, or the cooldown is over. It chooses a recovery exactly if
-- recoveries are on, the last status was alert, nothing passed, there was no warning even before
-- the confirmation, and the streak of such runs has reached N.
pub chosen_lem :
    (w : World) (ctx : PrepContext) (cfg : Config)
    → (is_alert (chosen w ctx cfg) ≡ (
        not (is_empty ctx.filtered)
        && (not (was_alert ctx) || not (same_signature w ctx) || cooled_down ctx cfg)))
      × (is_recovery (chosen w ctx cfg) ≡ (
          cfg.trigger.send_recovery
          && was_alert ctx
          && is_empty ctx.filtered
          && ctx.raw_warns_empty
          && leb_ℤ cfg.persistence.consecutive_runs ctx.new_streak))
unfolding chosen decide
chosen_lem w ctx cfg = ground (arith, length_pos ctx.filtered)

-- What an event says of the state file, field by field. Each write takes place if all calls of
-- SaveState succeed, and else the file is as it was. A silent run keeps what was mailed last and moves
-- the pending map and the streak; an alert or a recovery that was sent records its time, signature and
-- status, with the new pending map and a streak of 0; a mail that failed leaves the whole disk alone.
unfoldable pub Written : World → PrepContext → Disk → Event → Disk → Type 0
Written w ctx d silent d' = d'.state_file ≡ (
    if all_ok w.calls
    then holding (
        encoded (record {
          last_sent_at = ctx.prev.last_sent_at;
          last_signature = ctx.prev.last_signature;
          last_status = ctx.prev.last_status;
          pending = ctx.next_pending;
          recovery_streak = ctx.new_streak;
        }))
    else d.state_file)
Written w ctx d (sent send_alert m) d' = d'.state_file ≡ (
    if all_ok w.calls
    then holding (
        encoded (record {
          last_sent_at = ctx.now;
          last_signature = signature w.hex_sha256 ctx.filtered;
          last_status = codes "alert";
          pending = ctx.next_pending;
          recovery_streak = pos 0;
        }))
    else d.state_file)
Written w ctx d (sent send_recovery m) d' = d'.state_file ≡ (
    if all_ok w.calls
    then holding (
        encoded (record {
          last_sent_at = ctx.now;
          last_signature = [];
          last_status = codes "ok";
          pending = ctx.next_pending;
          recovery_streak = pos 0;
        }))
    else d.state_file)
Written w ctx d (sent action_none m) d' = ⊥
Written w ctx d (send_failed a m) d' = d' ≡ d

deliver-alert :
    (w : World) (ctx : PrepContext) (m : Mail) (d : Disk)
    → let r = deliver w send_alert m (alert_state w ctx) d in Written w ctx d r.1 r.0
unfolding deliver Written alert_state
deliver-alert w ctx m d = elim (Bool-cases (w.send m)) [
  | inl s ↦ rw s (state_file-save_state w.calls (alert_state w ctx) d)
  | inr s ↦ rw s refl
]

deliver-recovery :
    (w : World) (ctx : PrepContext) (m : Mail) (d : Disk)
    → let r = deliver w send_recovery m (recovery_state ctx) d in Written w ctx d r.1 r.0
unfolding deliver Written recovery_state
deliver-recovery w ctx m d = elim (Bool-cases (w.send m)) [
  | inl s ↦ rw s (state_file-save_state w.calls (recovery_state ctx) d)
  | inr s ↦ rw s refl
]

module _ {F : Type 0} where
  perform-Written :
      (w : World) (ctx : PrepContext) (report : InspectReport F) (html_path : Str) (d : Disk)
      (a : Action)
      → let r = perform w ctx report html_path d a in Written w ctx d r.1 r.0
  perform-Written w ctx report html_path d action_none =
      unfold perform Written suppressed_state in
      state_file-save_state w.calls (suppressed_state ctx) d
  perform-Written w ctx report html_path d send_alert = unfold perform in deliver-alert w ctx _ d
  perform-Written w ctx report html_path d send_recovery =
      unfold perform in deliver-recovery w ctx _ d

  -- After Dispatch the state file holds, if all calls of SaveState succeed: after a silent run, the
  -- time, signature and status of the previous state with the new pending map and recovery streak;
  -- after an alert that was sent, the time of the run, the signature of what passed, the status alert,
  -- the new pending map and a streak of 0; after a recovery that was sent, the same with an empty
  -- signature and the status ok. Where a call fails it is as it was; and after a mail that could not
  -- be sent the whole disk is as it was.
  pub dispatch-Written :
      (w : World) (ctx : PrepContext) (cfg : Config) (report : InspectReport F) (html_path : Str)
      (d : Disk)
      → let r = dispatch w ctx cfg report html_path d in Written w ctx d r.1 r.0
  unfolding dispatch
  dispatch-Written w ctx cfg report html_path d =
      perform-Written w ctx report html_path d (chosen w ctx cfg)

-- The action of a mail, sent or not.
abbrev pub action_of : Event → Action
action_of silent = action_none
action_of (sent a m) = a
action_of (send_failed a m) = a

action_of-deliver :
    (w : World) (a : Action) (m : Mail) (next : State) (d : Disk)
    → action_of (deliver w a m next d).1 ≡ a
unfolding deliver
action_of-deliver w a m next d = ground arith

module _ {F : Type 0} where
  action_of-perform :
      (w : World) (ctx : PrepContext) (report : InspectReport F) (html_path : Str) (d : Disk)
      (a : Action)
      → action_of (perform w ctx report html_path d a).1 ≡ a
  action_of-perform w ctx report html_path d action_none = unfold perform in refl
  action_of-perform w ctx report html_path d send_alert =
      unfold perform in action_of-deliver w send_alert _ _ d
  action_of-perform w ctx report html_path d send_recovery =
      unfold perform in action_of-deliver w send_recovery _ _ d

  -- The mail that is sent, or that fails, is the one that was chosen.
  pub action_of-dispatch :
      (w : World) (ctx : PrepContext) (cfg : Config) (report : InspectReport F) (html_path : Str)
      (d : Disk)
      → action_of (dispatch w ctx cfg report html_path d).1 ≡ chosen w ctx cfg
  unfolding dispatch
  action_of-dispatch w ctx cfg report html_path d =
      action_of-perform w ctx report html_path d (chosen w ctx cfg)
