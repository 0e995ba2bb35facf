-- ===== src/Appdb.antt =====
-- device-service/internal/appdb/repository.go: the rows that the queries return, and the queries. A
-- query runs in PostgreSQL, so `Queries` takes each one's result as it stands when it runs: the rows,
-- or `none` for an error. Logging and debug output are left out.
pub mod ParseTime
pub mod Assembly
pub mod Days
pub mod Actuators
pub mod Reload
pub mod Warm
use climate_control.Prelude.{ℕ, String, Bool, Option, List}
use climate_control.Prelude.Int.{ℤ}
use climate_control.Time.{Instant, Location}
use climate_control.Cache.{Uuid}

pub record RoomRow (R : Type 0) : Type 0 where
  pub id : Uuid
  pub user_id : Uuid
  pub deadband_temp : R
  pub deadband_hum : R
  pub timezone : String

pub record DesiredStateRow (R : Type 0) : Type 0 where
  pub room_id : Uuid
  pub mode : String
  pub manual_active : Bool
  pub target_temp : Option R
  pub target_hum : Option R
  pub manual_override_until : Option Instant

pub record ActivePeriodRow (R : Type 0) : Type 0 where
  pub id : Uuid
  pub room_id : Uuid
  pub days_of_week : List ℤ
  pub start_time : String
  pub end_time : String
  pub mode : String
  pub target_temp : Option R
  pub target_hum : Option R

pub record DeviceRow : Type 0 where
  pub id : Uuid
  pub hw_id : String
  pub room_id : Option Uuid

pub record SensorRow : Type 0 where
  pub id : Uuid
  pub device_id : Uuid
  pub measurement_type : String

pub record ActuatorRow : Type 0 where
  pub id : Uuid
  pub device_id : Uuid
  pub actuator_type : String

-- What the database answers, and the zone data of the host for `time.LoadLocation`.
pub record Queries (R : Type 0) : Type 0 where
  pub room_row : Uuid → Option (RoomRow R)
  pub desired_state_row : Uuid → Option (DesiredStateRow R)
  pub active_period_rows : Uuid → Option (List (ActivePeriodRow R))
  pub device_rows : Uuid → Option (List DeviceRow)
  pub sensor_rows : List Uuid → Option (List SensorRow)
  pub actuator_rows : List Uuid → Option (List ActuatorRow)
  pub device_row : String → Option DeviceRow
  pub load_location : String → Option Location

-- Where a load failed.
pub data LoadError : Type 0 where
  fetch_room fetch_desired_state fetch_active_periods fetch_devices : LoadError
  fetch_room_ids fetch_rooms : LoadError
  fetch_device fetch_sensors fetch_actuators : LoadError
  build_room_cache : LoadError
