-- ===== src/Lock/Exclusion.antt =====
-- lock/lock.go and main.go: instances that start and end in any order.
use weops_inspect.Prelude.{
  ◌+◌, ℕ, ◌≡◌, refl, sym, ap, ◌∙◌, Bool, true, false, not, ◌&&◌, Option, none, some, List, [], ◌∷◌,
  ◌++◌, arith, ltb, if◌then◌else◌, any, count_if, count_if-append,
}
use weops_inspect.Collector.Probe.{Failure}
use weops_inspect.Lock.{
  Start, run_locked, run_unlocked, exit_busy, Surroundings, launch, acquire, start_after, flock_of,
  flocked,
}

-- The instances that run, each with whether it holds the lock, and the lock of the kernel.
pub record World : Type 0 where
  pub held : Bool
  pub running : List Bool

abbrev pub idle : World
idle = record { held = false; running = [] }

-- An instance starts, and runs, or exits at once.
unfoldable pub started : Start → World → World
started run_locked w = record { held = true; running = true ∷ w.running }
started run_unlocked w = record w { running = false ∷ w.running }
started exit_busy w = w

-- One step: an instance starts in some surroundings; or one of those that run ends, and the kernel takes
-- back the lock that it holds.
pub data Step : World → World → Type 0 where
  start : (s : Surroundings) (w : World) → Step w (started (launch s w.held) w)
  end :
      (before after : List Bool) (holds held : Bool)
      → Step
          (record { held = held; running = before ++ holds ∷ after })
          (record { held = held && not holds; running = before ++ after })

-- What is reached from an idle machine.
pub data Reachable : World → Type 0 where
  reach_idle : Reachable idle
  reach_step : (v w : World) → Reachable v → Step v w → Reachable w

abbrev no_failure : Option Failure → Bool
no_failure none = true
no_failure (some e) = false

-- Nothing but the lock itself can keep the instance from it.
unfoldable pub is_sound : Surroundings → Bool
is_sound s =
    s.has_config_path
    && no_failure s.mkdir_error
    && no_failure s.open_error
    && no_failure s.flock_fault

abbrev holders : World → ℕ
holders w = count_if (λ holds. holds) w.running

abbrev one_holder : Bool → ℕ
one_holder b = if b then 1 else 0

abbrev is_locked : Start → Bool
is_locked run_locked = true
is_locked _ = false

locked_if_free :
    (c : Bool) (m o : Option Failure) (f : Option Failure) (held : Bool)
    → is_locked (if c then start_after (acquire m o (flock_of f held)) else run_unlocked) ≡ true
    → held ≡ false
unfolding start_after acquire flock_of flocked
locked_if_free false m o f held e = ground (arith, e)
locked_if_free true (some m) o f held e = ground (arith, e)
locked_if_free true none (some o) f held e = ground (arith, e)
locked_if_free true none none (some f) held e = ground (arith, e)
locked_if_free true none none none true e = ground (arith, e)
locked_if_free true none none none false e = refl

started-holders :
    (r : Start) (w : World)
    → (is_locked r ≡ true → w.held ≡ false)
    → holders w ≡ one_holder w.held
    → holders (started r w) ≡ one_holder (started r w).held
unfolding started count_if
started-holders run_locked w free h = rw (h, free refl) refl
started-holders run_unlocked w free h = h
started-holders exit_busy w free h = h

ended-holders :
    (before after : List Bool) (holds held : Bool)
    → count_if (λ b. b) (before ++ holds ∷ after) ≡ one_holder held
    → count_if (λ b. b) (before ++ after) ≡ one_holder (held && not holds)
unfolding count_if
ended-holders before after holds held h = ground (
  arith,
  h,
  count_if-append (λ b. b) before (holds ∷ after),
  count_if-append (λ b. b) before after,
)

Step-holders :
    (v w : World) → Step v w → holders v ≡ one_holder v.held → holders w ≡ one_holder w.held
Step-holders _ _ (start s v) h =
    started-holders (launch s v.held) v
      (λ e.
        locked_if_free s.has_config_path s.mkdir_error s.open_error s.flock_fault v.held
          (unfold launch in e))
      h
Step-holders _ _ (end before after holds held) h = ended-holders before after holds held h

Reachable-holders : (w : World) → Reachable w → holders w ≡ one_holder w.held
Reachable-holders _ reach_idle = unfold count_if in refl
Reachable-holders _ (reach_step v w r s) = Step-holders v w s (Reachable-holders v r)

any-count : (bs : List Bool) → any (λ b. b) bs ≡ ltb 0 (count_if (λ b. b) bs)
unfolding any count_if
any-count [] = refl
any-count (b ∷ bs) = ground (arith, any-count bs)

sound-launch :
    (c : Bool) (m o f : Option Failure) (held : Bool)
    → (c && no_failure m && no_failure o && no_failure f) ≡ true
    → (if c then start_after (acquire m o (flock_of f held)) else run_unlocked)
      ≡ (if held then exit_busy else run_locked)
unfolding start_after acquire flock_of flocked
sound-launch false m o f held e = ground (arith, e)
sound-launch true (some m) o f held e = ground (arith, e)
sound-launch true none (some o) f held e = ground (arith, e)
sound-launch true none none (some f) held e = ground (arith, e)
sound-launch true none none none true e = refl
sound-launch true none none none false e = refl

held-any : (w : World) → Reachable w → w.held ≡ any (λ holds. holds) w.running
held-any w r = held_test w.held (Reachable-holders w r) ∙ sym (any-count w.running)
  where
    held_test : (b : Bool) → holders w ≡ one_holder b → b ≡ ltb 0 (holders w)
    held_test true e = rw e refl
    held_test false e = rw e refl

sound-start :
    (s : Surroundings) (held : Bool)
    → is_sound s ≡ true
    → launch s held ≡ (if held then exit_busy else run_locked)
sound-start s held h =
    unfold launch in
    sound-launch s.has_config_path s.mkdir_error s.open_error s.flock_fault held
      (unfold is_sound in h)

-- An instance that starts where the path, the directory, the file and flock give no error of their own,
-- after any starts and ends of other instances: it exits as busy where one of those that run holds the
-- lock, and else it runs with the lock.
pub launch-exclusive :
    (w : World) (s : Surroundings)
    → Reachable w
    → is_sound s ≡ true
    → launch s w.held ≡ (if any (λ holds. holds) w.running then exit_busy else run_locked)
launch-exclusive w s r h =
    sound-start s w.held h ∙ ap (λ b. if b then exit_busy else run_locked) (held-any w r)

-- How many of the starts that led here had surroundings that are not sound.
unfoldable pub unsound : {w : World} → Reachable w → ℕ
unfolding is_sound
unsound reach_idle = 0
unsound (reach_step _ _ r (start s v)) = (if is_sound s then 0 else 1) + unsound r
unsound (reach_step _ _ r (end before after holds held)) = unsound r
