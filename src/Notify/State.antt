-- ===== src/Notify/State.antt =====
-- notify/state.go: the state between runs, its reading and its writing.
pub mod Atomic
use weops_inspect.Prelude.{
  ℕ, zero, suc, ◌+◌, ◌-◌, ◌*◌, ◌/◌, ◌%◌, ◌^◌, ◌≤◌, ◌<◌, ◌≡◌, refl, sym, ap, ◌∙◌, ◌≢◌, ◌↔◌, ◌⊎◌, inl,
  inr, Bool, true, false, not, ◌&&◌, ◌||◌, Option, none, some, List, [], ◌∷◌, ◌++◌, map, arith, ltb,
  leb, ◌==◌, if◌then◌else◌, ltb→lt, lt→ltb, leb→le, ==_iff, tests, Bool-cases, Option-cases, length,
  length-append, filter, any, all, count_if, length-filter, count_if-append, any-append, all-append,
  ℤ, pos, negsuc, pos_part, neg_part, sub_ℕ, ◌≤ℤ◌, ltb_ℤ, leb_ℤ, eqb_ℤ, succ_int, Str, codes,
  str_eq, str_eq_iff, str_eq_refl, str_eq_sym, str_lt, str_lt_irrefl, str_lt_trans, str_lt_total,
  Dict, lookup, insert, lookup-insert, get_or, FloatOps,
}
use weops_inspect.Notify.Persistence.{Time, PendingItem}

pub record State : Type 0 where
  pub last_sent_at : Time
  pub last_signature : Str
  pub last_status : Str
  pub pending : Dict PendingItem
  pub recovery_streak : ℤ

abbrev pub cold_start : State
cold_start = record {
  last_sent_at = 0;
  last_signature = [];
  last_status = [];
  pending = [];
  recovery_streak = pos 0;
}

-- The text of a file, by what json.Unmarshal makes of it: MarshalIndent of a state, or no state.
pub data FileText : Type 0 where
  encoded : State → FileText
  garbage : FileText

-- What os.ReadFile finds at the path of the state file.
pub data StateFile : Type 0 where
  missing : StateFile
  unreadable : StateFile
  holding : FileText → StateFile

-- The directory of the state file: the file, and the temporary files left in it.
pub record Disk : Type 0 where
  pub state_file : StateFile
  pub temps : List FileText

pub data LoadWarning : Type 0 where
  read_failed parse_failed : LoadWarning

-- The state, and the warning that goes to stderr.
unfoldable pub load_state : StateFile → State × Option LoadWarning
load_state missing = (cold_start, none)
load_state unreadable = (cold_start, some read_failed)
load_state (holding garbage) = (cold_start, some parse_failed)
load_state (holding (encoded s)) = (s, none)

pub data SaveError : Type 0 where
  mkdir_failed marshal_failed create_failed write_failed chmod_failed close_failed rename_failed :
      SaveError

-- Which of the calls of one SaveState succeed.
pub record SaveCalls : Type 0 where
  pub mkdir_ok : Bool
  pub marshal_ok : Bool
  pub create_ok : Bool
  pub write_ok : Bool
  pub chmod_ok : Bool
  pub close_ok : Bool
  pub rename_ok : Bool
  pub remove_ok : Bool

-- os.Remove(tmpPath), whose error is ignored
unfoldable pub discard : SaveCalls → FileText → Disk → Disk
discard calls text d = if calls.remove_ok then d else record d { temps = text ∷ d.temps }

unfoldable pub save_state : SaveCalls → State → Disk → Disk × Option SaveError
unfolding discard
save_state calls s d =
    if not calls.mkdir_ok
    then (d, some mkdir_failed)
    else if not calls.marshal_ok
    then (d, some marshal_failed)
    else if not calls.create_ok
    then (d, some create_failed)
    else if not calls.write_ok
    then (discard calls garbage d, some write_failed)
    else if not calls.chmod_ok
    then (discard calls (encoded s) d, some chmod_failed)
    else if not calls.close_ok
    then (discard calls (encoded s) d, some close_failed)
    else if not calls.rename_ok
    then (discard calls (encoded s) d, some rename_failed)
    else (record d { state_file = holding (encoded s) }, none)
