-- ===== src/Backend/Ingestion/Devices.antt =====
-- The table of devices under `session.get(Device, …)` and the changes to a row.
use myaqi_iot_platform.Prelude.{◌≡◌, refl, inl, inr, false, some, List, [], ◌∷◌, Bool-cases, arith}
use myaqi_iot_platform.Python.Text.{Text, text_eq, text_eq_self, text_eq→eq}
use myaqi_iot_platform.Backend.Models.{Device}
use myaqi_iot_platform.Backend.Ingestion.{get_device, put_device}

pub get_device-id : (i : Text) (ds : List Device) (d : Device) → get_device i ds ≡ some d → d.id ≡ i
unfolding get_device
get_device-id i [] d h = cc
get_device-id i (e ∷ ds) d h = elim (Bool-cases (text_eq e.id i)) [
  | inl p ↦ let q : e ≡ d = (ground (arith, p)) in rw (← q) (text_eq→eq e.id i p)
  | inr p ↦ get_device-id i ds d (ground (arith, p))
]

pub get_device-put_device :
    (d old : Device) (ds : List Device)
    → get_device d.id ds ≡ some old
    → get_device d.id (put_device d ds) ≡ some d
unfolding get_device put_device
get_device-put_device d old [] h = absurd (cc)
get_device-put_device d old (e ∷ ds) h = elim (Bool-cases (text_eq e.id d.id)) [
  | inl p ↦ rw p (rw (text_eq_self d.id))
  | inr p ↦ rw p (rw p (get_device-put_device d old ds (rw p at h)))
]

pub get_device-put_device_other :
    (other : Text) (d : Device) (ds : List Device)
    → text_eq d.id other ≡ false
    → get_device other (put_device d ds) ≡ get_device other ds
unfolding get_device put_device
get_device-put_device_other other d [] h = refl
get_device-put_device_other other d (e ∷ ds) h = elim (Bool-cases (text_eq e.id d.id)) [
  | inl p ↦ let same : e.id ≡ d.id = text_eq→eq e.id d.id p in rw p (rw (h, same, h))
  | inr p ↦ rw (p, get_device-put_device_other other d ds h)
]

pub get_put_found :
    (id : Text) (d old : Device) (ds : List Device)
    → d.id ≡ id
    → get_device id ds ≡ some old
    → get_device id (put_device d ds) ≡ some d
get_put_found id d old ds same h = rw (← same) (get_device-put_device d old ds (rw same h))
