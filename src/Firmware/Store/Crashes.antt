-- ===== src/Firmware/Store/Crashes.antt =====
-- A power failure in the midst of `save`.
use myaqi_iot_platform.Prelude.{
  ℕ, zero, suc, ◌≡◌, refl, inl, inr, ◌⊎◌, Option, none, some, arith, Option-cases,
}
use myaqi_iot_platform.Firmware.State.{State, state_json}
use myaqi_iot_platform.Firmware.State.Valid.{IsState}
use myaqi_iot_platform.Firmware.State.RoundTrip.{read_state-state_json}
use myaqi_iot_platform.Firmware.Store.{damaged, document, Files, read, or_else, load, save_until}

-- The state that the primary and the backup hold: the primary's, or else the backup's.
abbrev pub kept_state : Files → Option State
kept_state f = or_else (read f.primary) (read f.backup)

pub read-none : read none ≡ none
unfolding read
read-none = refl

pub read-damaged : read (some damaged) ≡ none
unfolding read
read-damaged = refl

-- What was written in full is read.
pub read-written : (s : State) → IsState s → read (some (document (state_json s))) ≡ some s
unfolding read
read-written s h = read_state-state_json s h

-- If the primary or the backup holds a state, and the new one is a state that `_read` accepts, a
-- power failure after any number of the effects of `save` leaves files from which `load` gets that state or the one being saved.
pub load-save_until :
    (k : ℕ) (old new : State) (f : Files)
    → kept_state f ≡ some old
    → IsState new
    → (load (save_until k new f) ≡ some old) ⊎ (load (save_until k new f) ≡ some new)
unfolding load save_until
load-save_until zero old new f h v = inl (ground arith)
load-save_until (suc zero) old new f h v = inl (ground arith)
load-save_until (suc (suc zero)) old new f h v = inl (ground arith)
load-save_until (suc (suc (suc zero))) old new f h v = elim (Option-cases (read f.primary)) [
  | inl p ↦ inr (rw (p, read-none, read-written new v))
  | inr (s, p) ↦ inl (rw p (ground (arith, p)))
]
load-save_until (suc (suc (suc (suc zero)))) old new f h v = elim (Option-cases f.primary) [
  | inl p ↦ inr (rw (p, read-none) (rw (read-written new v)))
  | inr (c, p) ↦ elim (Option-cases (read (some c))) [
    | inl q ↦ inr (rw p (rw (read-none, q) (rw (read-written new v))))
    | inr (s, q) ↦ inl (rw p (rw (read-none, q) (rw (p, q) at h)))
  ]
]
load-save_until (suc (suc (suc (suc (suc k))))) old new f h v = inr (elim (Option-cases f.primary) [
  | inl p ↦ rw p (rw (read-written new v))
  | inr (c, p) ↦ rw p (rw (read-written new v))
])

-- On a device that has no state file yet, a power failure right after the temporary file has been
-- opened leaves files that `load` refuses: the device does not start again from the default state.
pub load-first_save_cut :
    (s : State) (f : Files) → f.primary ≡ none → f.backup ≡ none → load (save_until 1 s f) ≡ none
unfolding load save_until
load-first_save_cut s f p q = rw (p, q) (rw (read-none, read-damaged))

-- A state that only the temporary file holds, as after a first `save` that was cut short before its
-- last rename, is loaded; but the next `save` opens that file first, and a power failure then
-- leaves no state to load.
pub load-only_copy_cut :
    (old new : State) (f : Files)
    → IsState old
    → f.primary ≡ none
    → f.backup ≡ none
    → let g = save_until 2 old f in (load g ≡ some old) × (load (save_until 1 new g) ≡ none)
unfolding load save_until
load-only_copy_cut old new f v p q =
    (rw (p, q) (rw (read-none, read-written old v)), rw (p, q) (rw (read-none, read-damaged)))
