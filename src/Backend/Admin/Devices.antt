-- ===== src/Backend/Admin/Devices.antt =====
-- `provision_device` and the table of devices.
use myaqi_iot_platform.Prelude.{
  ℕ, ◌≡◌, refl, inl, inr, true, false, Option, none, some, List, Option-cases,
}
use myaqi_iot_platform.Python.Text.{Text, Bytes, text_eq, text_eq_self}
use myaqi_iot_platform.Backend.Models.{Device, Database}
use myaqi_iot_platform.Backend.Ingestion.{get_device}
use myaqi_iot_platform.Backend.Ingestion.Devices.{
  get_device-id, get_device-put_device_other, get_put_found,
}
use myaqi_iot_platform.Backend.Admin.{
  Provisioned, default_device, renamed, provisioned, provision_device,
}

-- The key version of a device, and of one that is not there yet
abbrev pub version_of : Option Device → ℕ
version_of none = 1
version_of (some d) = d.key_version

-- What `provision_device` has done for one id: its device is active, it has the name given, and the
-- secret answered is the one for its key version; a device that was there keeps that version.
pub record IsProvisioned (sha256 : Bytes → Bytes) (master_key id name : Text) (old : List Device)
    (p : Provisioned) (db : Database) : Type 0 where
  pub device : Device
  pub found : get_device id db.devices ≡ some device
  pub active : device.active ≡ true
  pub named : device.display_name ≡ name
  pub answered : p ≡ provisioned sha256 master_key device
  pub version : device.key_version ≡ version_of (get_device id old)

-- A device is there afterwards, active, under the name given, and with the secret of its key
-- version: that of the device that was there, or 1. No other device has changed.
pub provision_device-IsProvisioned :
    (sha256 : Bytes → Bytes) (master_key : Text) (now : ℕ) (id name : Text) (db : Database)
    (other : Text)
    → text_eq id other ≡ false
    → let (p, after) = provision_device sha256 master_key now id name db in
      IsProvisioned sha256 master_key id name db.devices p after
      × (get_device other after.devices ≡ get_device other db.devices)
unfolding provision_device get_device
provision_device-IsProvisioned sha256 master_key now id name db other h =
    elim (Option-cases (get_device id db.devices)) [
      | inl p ↦
          rw (p, provision_device)
            (
              record {
                device = default_device now id name;
                found = rw (text_eq_self id);
                active = refl;
                named = refl;
                answered = refl;
                version = rw p refl;
              },
              rw h,
            )
      | inr (d, p) ↦
          let same : d.id ≡ id = get_device-id id db.devices d p in
          rw (p, provision_device)
            (
              record {
                device = renamed now name d;
                found = get_put_found id (renamed now name d) d db.devices same p;
                active = refl;
                named = refl;
                answered = refl;
                version = rw p refl;
              },
              get_device-put_device_other other (renamed now name d) db.devices (rw same h),
            )
    ]
