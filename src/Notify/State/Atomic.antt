-- ===== src/Notify/State/Atomic.antt =====
-- notify/state.go: what SaveState leaves on disk.
use weops_inspect.Prelude.{◌≡◌, ◌⊎◌, Bool, false, ◌&&◌, Option, none, some, arith, if◌then◌else◌}
use weops_inspect.Notify.State.{
  State, encoded, holding, Disk, SaveCalls, SaveError, load_state, save_state,
}

-- What SaveState may leave behind: with no error exactly the new state is read back, without a
-- warning, and no temporary file stays; with an error the state file is as it was, and a temporary
-- file stays only if removing it failed too.
abbrev pub Atomic : SaveCalls → State → Disk → Disk → Option SaveError → Type 0
Atomic calls s d d' none = (load_state d'.state_file ≡ (s, none)) × (d'.temps ≡ d.temps)
Atomic calls s d d' (some e) =
    (d'.state_file ≡ d.state_file) × ((d'.temps ≡ d.temps) ⊎ (calls.remove_ok ≡ false))

-- Whichever of its calls fail, SaveState leaves the new state, read back without a warning, and no
-- temporary file if it returns no error; if it returns an error, the state file is as it was, and
-- no temporary file stays unless removing it failed.
pub save_state-Atomic :
    (calls : SaveCalls) (s : State) (d : Disk)
    → Atomic calls s d (save_state calls s d).0 (save_state calls s d).1
unfolding save_state load_state
save_state-Atomic calls s d = ground arith

-- The calls before os.Remove all succeed.
unfoldable pub all_ok : SaveCalls → Bool
all_ok c =
    c.mkdir_ok && c.marshal_ok && c.create_ok && c.write_ok && c.chmod_ok && c.close_ok
    && c.rename_ok

-- The state file after a save: the new state if every call succeeds, and else what it was.
pub state_file-save_state :
    (calls : SaveCalls) (s : State) (d : Disk)
    → (save_state calls s d).0.state_file
      ≡ (if all_ok calls then holding (encoded s) else d.state_file)
unfolding save_state all_ok
state_file-save_state calls s d = ground arith
