-- ===== src/Firmware/Store.antt =====
-- `JsonStateStore`: the state file, its backup and the temporary file, `load` and `save`.
-- A file that does not hold a JSON document, such as one that was cut short, is `damaged`. `sync` has
-- no effect on what the files hold.
pub mod Crashes
pub mod Faults
pub mod Tests
use myaqi_iot_platform.Prelude.{
  ℕ, zero, suc, Bool, true, false, ◌&&◌, ◌||◌, not, Option, none, some, is_some, List, [], ◌∷◌,
  if◌then◌else◌,
}
use myaqi_iot_platform.Python.Json.{Json}
use myaqi_iot_platform.Firmware.State.{State, default_state, state_json, read_state}

pub data Content : Type 0 where
  damaged : Content
  document : Json → Content

pub record Files : Type 0 where
  pub primary : Option Content
  pub backup : Option Content
  pub temporary : Option Content

-- `_read`; `none` is an OSError or a ValueError.
unfoldable pub read : Option Content → Option State
read none = none
read (some damaged) = none
read (some (document v)) = read_state v

abbrev pub or_else : Option State → Option State → Option State
or_else none b = b
or_else (some s) b = some s

abbrev pub exists : Files → Bool
exists f = is_some f.primary || is_some f.backup || is_some f.temporary

-- The value after the loop of `load`
abbrev pub fresh_state : Bool → Option State
fresh_state true = none
fresh_state false = some default_state

-- `none` is the ValueError for files none of which is valid.
unfoldable pub load : Files → Option State
load f =
    or_else (read f.primary)
      (or_else (read f.backup) (or_else (read f.temporary) (fresh_state (exists f))))

-- The effects of `save` on the files, in their order
abbrev pub open_temporary : Files → Files
open_temporary f = record f { temporary = some damaged }

abbrev pub write_temporary : State → Files → Files
write_temporary s f = record f { temporary = some (document (state_json s)) }

abbrev pub remove_backup : Files → Files
remove_backup f = record f { backup = none }

-- `os.rename` moves a file that exists; to a name in use it fails on FAT, and replaces on POSIX.
abbrev pub can_rename : Bool → Option Content → Option Content → Bool
can_rename replaces source target = is_some source && (replaces || not (is_some target))

abbrev pub keep_primary : Files → Files
keep_primary f = record f { primary = none; backup = f.primary }

abbrev pub promote : Files → Files
promote f = record f { primary = f.temporary; temporary = none }

abbrev pub restore_backup : Files → Files
restore_backup f = record f { primary = f.backup; backup = none }

-- The calls that fail, beside the renames that cannot work
pub record FaultPlan : Type 0 where
  pub replaces : Bool
  pub open_fails : Bool
  pub write_fails : Bool
  pub remove_fails : Bool
  pub keep_fails : Bool
  pub promote_fails : Bool
  pub restore_fails : Bool

abbrev pub after_remove : FaultPlan → Files → Files
after_remove p f = if p.remove_fails then f else remove_backup f

abbrev pub after_keep : FaultPlan → Files → Files
after_keep p f =
    if p.keep_fails
    then f
    else if can_rename p.replaces f.primary f.backup
    then keep_primary f
    else f

abbrev pub after_restore : FaultPlan → Files → Files
after_restore p f =
    if p.restore_fails
    then f
    else if can_rename p.replaces f.backup f.primary
    then restore_backup f
    else f

-- The last rename, and its `except` branch; `false` says that the OSError is raised.
abbrev pub after_promote : FaultPlan → Files → Bool × Files
after_promote p f =
    if not p.promote_fails && can_rename p.replaces f.temporary f.primary
    then (true, promote f)
    else (false, after_restore p f)

unfoldable pub save : FaultPlan → State → Files → Bool × Files
save p s f =
    if p.open_fails
    then (false, f)
    else if p.write_fails
    then (false, open_temporary f)
    else after_promote p (after_keep p (after_remove p (write_temporary s f)))

-- The files when the power fails after the first `k` effects of a `save` without faults
unfoldable pub save_until : ℕ → State → Files → Files
save_until zero s f = f
save_until (suc zero) s f = open_temporary f
save_until (suc (suc zero)) s f = write_temporary s f
save_until (suc (suc (suc zero))) s f = remove_backup (write_temporary s f)
save_until (suc (suc (suc (suc zero)))) s f =
    let g = remove_backup (write_temporary s f) in if is_some g.primary then keep_primary g else g
save_until (suc (suc (suc (suc (suc _))))) s f =
    let g = remove_backup (write_temporary s f) in
    promote (if is_some g.primary then keep_primary g else g)
