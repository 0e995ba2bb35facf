-- ===== src/Simulator/Config.antt =====
-- simulator-service/internal/config/config.go: the types of the configuration, raw as they stand in
-- the YAML files and resolved. Parts.antt resolves what a room is made of, Resolve.antt the
-- simulation, Validate.antt tests it and Load.antt is `Load`.
pub mod Parts
pub mod Resolve
pub mod Validate
pub mod Load
pub mod Overrides
pub mod Exclusive
pub mod Prefixes
pub mod Timing
use climate_control.Prelude.{
  ℕ, String, Bool, true, false, not, Option, none, some, List, [], ◌∷◌, ◌==◌, string_eq, map,
  if◌then◌else◌,
}
use climate_control.Prelude.Int.{ℤ}
use climate_control.Prelude.Dict.{Dict, lookup, insert}
use climate_control.Prelude.Result.{Result, ok, err, ◌>>=◌, or_err}
use climate_control.Float.{Float64, ◌⊗◌, ◌⊘◌, float}
use climate_control.Simulator.{MeasurementConfig, ActuatorConfig}

-- The resolved types.
pub record SensorConfig (R : Type 0) : Type 0 where
  pub typ : String
  pub noise : R
  pub offset : R

pub record SimulatedDevice (R : Type 0) : Type 0 where
  pub name_prefix : String
  pub count : ℤ
  pub sensors : List (SensorConfig R)
  pub actuators : List (ActuatorConfig R)

pub record ResolvedDesiredState (R : Type 0) : Type 0 where
  pub target_temp : Option R
  pub target_hum : Option R

pub record ResolvedPeriod (R : Type 0) : Type 0 where
  pub days_of_week : List ℤ
  pub start_time : String
  pub end_time : String
  pub mode : String
  pub target_temp : Option R
  pub target_hum : Option R

pub record ResolvedSchedule (R : Type 0) : Type 0 where
  pub name : String
  pub periods : List (ResolvedPeriod R)

pub record SimulatedRoom (R : Type 0) : Type 0 where
  pub name_prefix : String
  pub count : ℤ
  pub typ : String
  pub noisy : Bool
  pub measurements : Dict String (MeasurementConfig R)
  pub devices : List (SimulatedDevice R)
  pub desired_state : Option (ResolvedDesiredState R)
  pub schedule : Option (ResolvedSchedule R)

pub record UserGroup (R : Type 0) : Type 0 where
  pub count : ℤ
  pub interactive : Bool
  pub rooms : List (SimulatedRoom R)

pub record Simulation (R : Type 0) : Type 0 where
  pub name : String
  pub time_scale : R
  pub min_publish_interval_ms : ℤ
  pub user_groups : List (UserGroup R)

-- The raw types.
pub record RawMeasurementConfig (R : Type 0) : Type 0 where
  pub base : R
  pub noise : R
  pub thermal_mass_scale : R
  pub conductance_scale : R

pub record RawRoomTemplate (R : Type 0) : Type 0 where
  pub id : String
  pub measurements : Dict String (RawMeasurementConfig R)

pub record RawSensorConfig (R : Type 0) : Type 0 where
  pub typ : String
  pub noise : R
  pub offset : R

pub record RawActuatorConfig (R : Type 0) : Type 0 where
  pub typ : String
  pub rate_scale : R

pub record RawDeviceTemplate (R : Type 0) : Type 0 where
  pub id : String
  pub sensors : List (RawSensorConfig R)
  pub actuators : List (RawActuatorConfig R)

pub record RawDesiredStateTemplate (R : Type 0) : Type 0 where
  pub id : String
  pub target_temp : Option R
  pub target_hum : Option R

pub record RawPeriodTemplate (R : Type 0) : Type 0 where
  pub days_of_week : List ℤ
  pub start_time : String
  pub end_time : String
  pub mode : String
  pub target_temp : Option R
  pub target_hum : Option R

pub record RawScheduleTemplate (R : Type 0) : Type 0 where
  pub id : String
  pub name : String
  pub periods : List (RawPeriodTemplate R)

pub record RawDevice (R : Type 0) : Type 0 where
  pub template : String
  pub name_prefix : String
  pub count : ℤ
  pub rate_scale : Option R

pub record RawRoom (R : Type 0) : Type 0 where
  pub template : String
  pub name_prefix : String
  pub count : ℤ
  pub typ : String
  pub noisy : Bool
  pub thermal_mass_scale : Option R
  pub conductance_scale : Option R
  pub devices : List (RawDevice R)
  pub desired_state_ref : String
  pub target_temp : Option R
  pub target_hum : Option R
  pub schedule_ref : String

pub record RawUserGroup (R : Type 0) : Type 0 where
  pub count : ℤ
  pub interactive : Bool
  pub rooms : List (RawRoom R)

pub record RawSimulationBlock (R : Type 0) : Type 0 where
  pub time_scale : R
  pub min_publish_interval_ms : ℤ
  pub user_groups : List (RawUserGroup R)

pub record RawSimulation (R : Type 0) : Type 0 where
  pub room_overrides : List (RawRoomTemplate R)
  pub device_overrides : List (RawDeviceTemplate R)
  pub simulation : RawSimulationBlock R

-- The errors of `resolveSimulation`, without their texts; the last three carry the room's prefix.
pub data ResolveError : Type 0 where
  time_scale_too_large : ResolveError
  room_template_not_found device_template_not_found : String → ResolveError
  desired_state_not_found schedule_not_found : String → ResolveError
  mutually_exclusive : String → ResolveError
