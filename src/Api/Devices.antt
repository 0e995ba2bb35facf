-- ===== src/Api/Devices.antt =====
-- api-service/internal/device/service.go and the rest of its repository.go over gorm, which is a
-- parameter.
pub mod Service
pub mod Moves
use climate_control.Prelude.{
  String, Bool, true, false, not, ◌&&◌, ◌||◌, Option, none, some, List, [], ◌∷◌, ◌==◌, string_eq,
  nat_eq, is_some, map, if◌then◌else◌,
}
use climate_control.Prelude.Dict.{Dict, lookup, insert}
use climate_control.Prelude.Result.{Result, ok, err, ◌>>=◌, wrap_err}
use climate_control.Cache.{Uuid}
use climate_control.Api.{
  DbError, record_not_found, unique_violation, failed, device_assigned, device_unassigned,
  ServiceState, publish, set_db,
}
use climate_control.Api.Rooms.{RoomModel, RoomTables, get_room}
use climate_control.Api.Conflict.{
  DeviceModel, Sensor, Actuator, DeviceWithCapabilities, ConflictQueries,
  has_capability_conflict_after_removal,
}

pub data DeviceError (E : Type 0) : Type 0 where
  not_found name_taken hw_id_taken already_owned room_not_found : DeviceError E
  invalid_sensor duplicate_sensor invalid_actuator duplicate_actuator capability_conflict :
      DeviceError E
  database : DbError E → DeviceError E

-- The calls of gorm.
pub record DeviceTables (D E : Type 0) : Type 0 where
  pub find_device : Uuid → Uuid → D → Result (DbError E) DeviceModel
  pub find_by_hw_id : String → D → Result (DbError E) DeviceModel
  pub find_sensors : List Uuid → D → Result (DbError E) (List Sensor)
  pub find_actuators : List Uuid → D → Result (DbError E) (List Actuator)
  pub insert_device : DeviceModel → D → Result (DbError E) (DeviceModel × D)
  pub insert_sensor : Uuid → String → D → Result (DbError E) D
  pub insert_actuator : Uuid → String → D → Result (DbError E) D
  pub save_device : DeviceModel → D → Result (DbError E) D
  pub delete_device : Uuid → D → Result (DbError E) D

pub record CreateInput : Type 0 where
  pub name : String
  pub hw_id : String
  pub device_type : String
  pub sensor_types : List String
  pub actuator_types : List String

pub record UpdateInput : Type 0 where
  pub name : String
  pub room_id : Option Uuid

module _ {E : Type 0} where
  abbrev pub device_not_found_error : DbError E → DeviceError E
  device_not_found_error record_not_found = not_found
  device_not_found_error e = database e

  abbrev pub device_name_taken_error : DbError E → DeviceError E
  device_name_taken_error unique_violation = name_taken
  device_name_taken_error e = database e

-- m[k] = append(m[k], x) for each x, and the slice of a key, empty for a missing one
unfoldable pub group_by_device : {T : Type 0} → (T → Uuid) → List T → Uuid → List T
group_by_device device_of [] id = []
group_by_device device_of (x ∷ xs) id =
    let rest = group_by_device device_of xs id in if device_of x == id then x ∷ rest else rest

unfoldable pub with_sensors_and_actuators :
    List Sensor → List Actuator → DeviceModel → DeviceWithCapabilities
with_sensors_and_actuators sensors actuators dev = record {
  device = dev;
  sensors = group_by_device (λ s. s.device_id) sensors dev.id;
  actuators = group_by_device (λ a. a.device_id) actuators dev.id;
}

unfoldable pub valid_sensor_type : String → Bool
valid_sensor_type s = s == "temperature" || s == "humidity" || s == "air_quality"

unfoldable pub valid_actuator_type : String → Bool
valid_actuator_type s = s == "heater" || s == "humidifier"

-- One of the loops over the types of a new device.
unfoldable pub check_types :
    {E : Type 0}
    → (String → Bool)
    → DeviceError E
    → DeviceError E
    → Dict String Bool
    → List String
    → Result {0, 0} (DeviceError E) Unit
check_types valid invalid duplicate seen [] = ok tt
check_types valid invalid duplicate seen (t ∷ ts) =
    let rest = check_types valid invalid duplicate (insert t true seen) ts in
    if not (valid t) then err invalid else if is_some (lookup t seen) then err duplicate else rest

module _ {D E : Type 0} (db : DeviceTables D E) where
  unfoldable pub attach_capabilities :
      List DeviceModel → D → Result (DeviceError E) (List DeviceWithCapabilities)
  attach_capabilities [] d = ok []
  attach_capabilities (dev ∷ devs) d = do
    let ids = map (λ v. v.id) (dev ∷ devs)
    sensors ← wrap_err database (db.find_sensors ids d)
    actuators ← wrap_err database (db.find_actuators ids d)
    ok (map (with_sensors_and_actuators sensors actuators) (dev ∷ devs))

  -- &devs[0] of the one device; the slice has one element, so that the index does not panic
  unfoldable pub get_device : Uuid → Uuid → D → Result (DeviceError E) DeviceWithCapabilities
  get_device id user_id d = do
    dev ← wrap_err device_not_found_error (db.find_device id user_id d)
    sensors ← wrap_err database (db.find_sensors (dev.id ∷ []) d)
    actuators ← wrap_err database (db.find_actuators (dev.id ∷ []) d)
    ok (with_sensors_and_actuators sensors actuators dev)

  unfoldable pub check_hw_id_availability : String → Uuid → D → Result {0, 0} (DeviceError E) Unit
  check_hw_id_availability hw_id user_id d = elim (db.find_by_hw_id hw_id d) [
    | err record_not_found ↦ ok tt
    | err unique_violation ↦ err (database unique_violation)
    | err (failed e) ↦ err (database (failed e))
    | ok dev ↦ if dev.user_id == user_id then err already_owned else err hw_id_taken
  ]

  unfoldable pub insert_all :
      (String → D → Result (DbError E) D) → List String → D → Result (DbError E) D
  insert_all insert [] d = ok d
  insert_all insert (t ∷ ts) d = insert t d >>= λ d'. insert_all insert ts d'

  -- One transaction.
  unfoldable pub insert_device :
      DeviceModel → List String → List String → D → Result (DeviceError E) (DeviceModel × D)
  insert_device dev sensor_types actuator_types d = do
    (new, d1) ← wrap_err device_name_taken_error (db.insert_device dev d)
    d2 ← wrap_err database (insert_all (db.insert_sensor new.id) sensor_types d1)
    d3 ← wrap_err database (insert_all (db.insert_actuator new.id) actuator_types d2)
    ok (new, d3)
