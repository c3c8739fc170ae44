-- ===== src/Firmware/Store/Faults.antt =====
-- File system calls that fail in the midst of `save`.
use myaqi_iot_platform.Prelude.{◌≡◌, true, false, ◌&&◌, some, arith}
use myaqi_iot_platform.Firmware.State.{State}
use myaqi_iot_platform.Firmware.State.Valid.{IsState}
use myaqi_iot_platform.Firmware.Store.{Files, FaultPlan, read, load, save}
use myaqi_iot_platform.Firmware.Store.Crashes.{read-none, read-damaged, read-written}

-- A `save` of a state that `_read` accepts has stored it when it returns, whatever calls failed on
-- the way.
pub load-save :
    (plan : FaultPlan) (s : State) (f : Files)
    → IsState s
    → (save plan s f).0 ≡ true
    → load (save plan s f).1 ≡ some s
unfolding load save
load-save plan s f v h = ground (arith, read-written s v)

-- If the primary holds a state, a `save` that raises an OSError loses nothing: `load` gives that
-- state as before. The old backup must be gone where a rename replaces its target.
pub load-save_raised :
    (plan : FaultPlan) (old new : State) (f : Files)
    → read f.primary ≡ some old
    → (plan.replaces && plan.remove_fails) ≡ false
    → (save plan new f).0 ≡ false
    → load (save plan new f).1 ≡ some old
unfolding load save
load-save_raised plan old new f found env h = ground (arith, read-none, read-damaged)
