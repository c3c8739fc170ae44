-- ===== src/Firmware/Store/Tests.antt =====
-- Saves on files that hold a state, and on a device's first start.
use myaqi_iot_platform.Prelude.{◌≡◌, refl, ◌⊎◌, true, false, none, some}
use myaqi_iot_platform.Firmware.State.{State, default_state, state_json}
use myaqi_iot_platform.Firmware.State.Valid.{IsState}
use myaqi_iot_platform.Firmware.State.Tests.{sample_state, sample_state-IsState}
use myaqi_iot_platform.Firmware.Store.{Files, FaultPlan, document, load, save, save_until}
use myaqi_iot_platform.Firmware.Store.Crashes.{
  read-written, kept_state, load-save_until, load-first_save_cut, load-only_copy_cut,
}
use myaqi_iot_platform.Firmware.Store.Faults.{load-save, load-save_raised}

abbrev pub fresh_files : Files
fresh_files = record { primary = none; backup = none; temporary = none }

abbrev pub sample_files : Files
sample_files = record fresh_files { primary = some (document (state_json sample_state)) }

abbrev pub no_faults : FaultPlan
no_faults = record {
  replaces = false;
  open_fails = false;
  write_fails = false;
  remove_fails = false;
  keep_fails = false;
  promote_fails = false;
  restore_fails = false;
}

abbrev pub write_fault : FaultPlan
write_fault = record no_faults { write_fails = true }

abbrev advanced : State
advanced = record sample_state { upload_attempts = 5 }

advanced-IsState : IsState advanced
advanced-IsState = record {
  starts = sample_state-IsState.starts;
  ascends = sample_state-IsState.ascends;
  status = sample_state-IsState.status;
  acknowledged = sample_state-IsState.acknowledged;
}

sample_kept : kept_state sample_files ≡ some sample_state
sample_kept = rw (read-written sample_state sample_state-IsState)

load-save_until_example :
    (load (save_until 3 advanced sample_files) ≡ some sample_state)
    ⊎ (load (save_until 3 advanced sample_files) ≡ some advanced)
load-save_until_example =
    load-save_until 3 sample_state advanced sample_files sample_kept advanced-IsState

load-first_save_cut_example : load (save_until 1 default_state fresh_files) ≡ none
load-first_save_cut_example = load-first_save_cut default_state fresh_files refl refl

load-only_copy_cut_example :
    (load (save_until 2 sample_state fresh_files) ≡ some sample_state)
    × (load (save_until 1 advanced (save_until 2 sample_state fresh_files)) ≡ none)
load-only_copy_cut_example =
    load-only_copy_cut sample_state advanced fresh_files sample_state-IsState refl refl

load-save_example : load (save no_faults advanced sample_files).1 ≡ some advanced
unfolding save
load-save_example = load-save no_faults advanced sample_files advanced-IsState refl

load-save_raised_example : load (save write_fault advanced sample_files).1 ≡ some sample_state
unfolding save
load-save_raised_example =
    load-save_raised write_fault sample_state advanced sample_files
      (read-written sample_state sample_state-IsState) refl refl
