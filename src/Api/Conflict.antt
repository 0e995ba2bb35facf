-- ===== src/Api/Conflict.antt =====
-- api-service/internal/device/repository.go: the tests whether a room can do without a device. The
-- two capability queries are SQL over the devices, sensors and actuators of a room: here they are
-- written out over a room's devices, which a parameter lists. The other queries are parameters.
pub mod Safe
use climate_control.Prelude.{
  String, Bool, true, false, not, ◌&&◌, ◌||◌, Option, none, some, List, [], ◌∷◌, ◌==◌, string_eq,
  nat_eq, any, is_some, if◌then◌else◌,
}
use climate_control.Prelude.Result.{Result, ok, err, ◌>>=◌}
use climate_control.Cache.{Uuid}
use climate_control.Api.{DbError, record_not_found, unique_violation, failed}
use climate_control.Api.Rooms.{DesiredState}
use climate_control.Schedule.{SchedulePeriod}

-- models/device.go, sensor.go and actuator.go, without the timestamps.
pub record DeviceModel : Type 0 where
  pub id : Uuid
  pub user_id : Uuid
  pub room_id : Option Uuid
  pub name : String
  pub hw_id : String
  pub device_type : String

pub record Sensor : Type 0 where
  pub id : Uuid
  pub device_id : Uuid
  pub measurement_type : String

pub record Actuator : Type 0 where
  pub id : Uuid
  pub device_id : Uuid
  pub actuator_type : String

pub record DeviceWithCapabilities : Type 0 where
  pub device : DeviceModel
  pub sensors : List Sensor
  pub actuators : List Actuator

-- The rows that the tests read: the devices of a room with their sensors and actuators, its desired
-- state, and the periods of its active schedules.
pub record ConflictQueries (R D E : Type 0) : Type 0 where
  pub devices_of_room : Uuid → D → Result (DbError E) (List DeviceWithCapabilities)
  pub desired_state_of_room : Uuid → D → Result (DbError E) (DesiredState R)
  pub active_periods : Uuid → D → Result (DbError E) (List (SchedulePeriod R))

-- The EXISTS of the queries: another device than the one that leaves.
unfoldable pub has_sensor : String → Uuid → List DeviceWithCapabilities → Bool
has_sensor typ id devices =
    any (λ d. not (d.device.id == id) && any (λ s. s.measurement_type == typ) d.sensors) devices

unfoldable pub has_actuator : String → Uuid → List DeviceWithCapabilities → Bool
has_actuator typ id devices =
    any (λ d. not (d.device.id == id) && any (λ a. a.actuator_type == typ) d.actuators) devices

module _ {R D E : Type 0} (q : ConflictQueries R D E) where
  unfoldable pub has_temperature_capability_after_removal :
      Uuid → Uuid → D → Result (DbError E) Bool
  has_temperature_capability_after_removal room_id device_id d = do
    devices ← q.devices_of_room room_id d
    ok (has_sensor "temperature" device_id devices && has_actuator "heater" device_id devices)

  unfoldable pub has_humidity_capability_after_removal : Uuid → Uuid → D → Result (DbError E) Bool
  has_humidity_capability_after_removal room_id device_id d = do
    devices ← q.devices_of_room room_id d
    ok (has_sensor "humidity" device_id devices && has_actuator "humidifier" device_id devices)

  -- One of the two targets is set and cannot be reached.
  unfoldable pub unreachable : Bool → Bool → Option R → Option R → Bool
  unreachable has_temp has_hum target_temp target_hum =
      if not has_temp && is_some target_temp then true else not has_hum && is_some target_hum

  unfoldable pub desired_state_has_conflict : Uuid → Bool → Bool → D → Result (DbError E) Bool
  desired_state_has_conflict room_id has_temp has_hum d = elim (q.desired_state_of_room room_id d) [
    | ok ds ↦ ok (unreachable has_temp has_hum ds.target_temp ds.target_hum)
    | err record_not_found ↦ ok false
    | err unique_violation ↦ err unique_violation
    | err (failed e) ↦ err (failed e)
  ]

  unfoldable pub active_schedule_periods_have_conflict :
      Uuid → Bool → Bool → D → Result (DbError E) Bool
  active_schedule_periods_have_conflict room_id has_temp has_hum d = do
    periods ← q.active_periods room_id d
    ok (any (λ p. unreachable has_temp has_hum p.target_temp p.target_hum) periods)

  unfoldable pub has_capability_conflict_after_removal : Uuid → Uuid → D → Result (DbError E) Bool
  has_capability_conflict_after_removal room_id device_id d = do
    has_temp ← has_temperature_capability_after_removal room_id device_id d
    has_hum ← has_humidity_capability_after_removal room_id device_id d
    if has_temp && has_hum then ok false else do
      conflict ← desired_state_has_conflict room_id has_temp has_hum d
      if conflict then ok true else active_schedule_periods_have_conflict room_id has_temp has_hum d
