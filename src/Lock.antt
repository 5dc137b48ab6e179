-- ===== src/Lock.antt =====
-- lock/lock.go and the start of main.go: one instance at a time.
use weops_inspect.Prelude.{
  ℕ, zero, suc, ◌+◌, ◌-◌, ◌*◌, ◌/◌, ◌%◌, ◌^◌, ◌≤◌, ◌<◌, ◌≡◌, refl, sym, ap, ◌∙◌, ◌≢◌, ◌↔◌, ◌⊎◌, inl,
  inr, Bool, true, false, not, ◌&&◌, ◌||◌, Option, none, some, List, [], ◌∷◌, ◌++◌, map, arith, ltb,
  leb, ◌==◌, if◌then◌else◌, ltb→lt, lt→ltb, leb→le, ==_iff, tests, Bool-cases, Option-cases, length,
  length-append, filter, any, all, take, drop, replicate, is_empty, filter-true, count_if,
  length-filter, count_if-append, any-append, all-append, ℤ, pos, negsuc, pos_part, neg_part, sub_ℕ,
  ◌≤ℤ◌, ltb_ℤ, leb_ℤ, eqb_ℤ, succ_int, Str, codes, str_eq, str_eq_iff, str_eq_refl, str_eq_sym,
  str_lt, str_lt_irrefl, str_lt_trans, str_lt_total, Dict, lookup, insert, lookup-insert, get_or,
  FloatOps,
}
pub mod Exclusion
use weops_inspect.Collector.Probe.{Failure, plain}

-- What Acquire returns as its error.
pub data LockError : Type 0 where
  busy : LockError
  unavailable : Failure → LockError

-- flock(LOCK_EX | LOCK_NB): the lock, EWOULDBLOCK, or another error.
pub data FlockResult : Type 0 where
  granted : FlockResult
  would_block : FlockResult
  flock_error : Failure → FlockResult

unfoldable pub flocked : FlockResult → Option LockError
flocked granted = none
flocked would_block = some busy
flocked (flock_error e) = some (unavailable (plain (codes "flock: " ++ e.text)))

-- Acquire, on what MkdirAll, OpenFile and flock return: none where the lock is held from now on.
unfoldable pub acquire : Option Failure → Option Failure → FlockResult → Option LockError
unfolding flocked
acquire (some e) opened flock = some (unavailable (plain (codes "ensure lock dir: " ++ e.text)))
acquire none (some e) flock = some (unavailable (plain (codes "open lock file: " ++ e.text)))
acquire none none flock = flocked flock

-- What main does then.
pub data Start : Type 0 where
  run_locked : Start
  run_unlocked : Start
  exit_busy : Start

unfoldable pub start_after : Option LockError → Start
start_after none = run_locked
start_after (some busy) = exit_busy
start_after (some (unavailable e)) = run_unlocked

-- The surroundings of an instance: whether ConfigPath has a path, and the errors of MkdirAll, of OpenFile
-- and of flock for another reason than the lock.
pub record Surroundings : Type 0 where
  pub has_config_path : Bool
  pub mkdir_error : Option Failure
  pub open_error : Option Failure
  pub flock_fault : Option Failure

-- The kernel keeps at most one holder of the lock.
unfoldable pub flock_of : Option Failure → Bool → FlockResult
flock_of (some e) held = flock_error e
flock_of none true = would_block
flock_of none false = granted

-- The start of main, while the lock is held or not.
unfoldable pub launch : Surroundings → Bool → Start
unfolding start_after acquire flock_of
launch s held =
    if s.has_config_path
    then start_after (acquire s.mkdir_error s.open_error (flock_of s.flock_fault held))
    else run_unlocked

lock_tests :
    (acquire none none would_block ≡ some busy)
    × (acquire none (some (plain (codes "denied"))) granted
        ≡ some (unavailable (plain (codes "open lock file: denied"))))
unfolding acquire flocked
lock_tests = (refl, refl)
