-- ===== src/Simulator/Config/Parts.antt =====
-- config.go: the base constants, and what resolves the measurements, the devices, the desired state and
-- the schedule of a room.
use climate_control.Prelude.{
  String, Bool, not, Option, none, some, ◌==◌, string_eq, map, if◌then◌else◌,
}
use climate_control.Prelude.Dict.{Dict, lookup}
use climate_control.Prelude.Result.{Result, ok, ◌>>=◌, or_err}
use climate_control.Float.{Float64, ◌⊗◌, ◌⊘◌, float}
use climate_control.Simulator.{MeasurementConfig, ActuatorConfig}
use climate_control.Simulator.Config.{
  SimulatedDevice, ResolvedDesiredState, ResolvedSchedule, RawMeasurementConfig, RawActuatorConfig,
  RawDeviceTemplate, RawDesiredStateTemplate, RawScheduleTemplate, RawDevice, RawRoom, ResolveError,
  desired_state_not_found, schedule_not_found,
}

-- The value of a pointer, or what stands for nil.
abbrev pub or_default : {A : Type 0} → Option A → A → A
or_default none a = a
or_default (some b) a = b

-- A pointer, or the one to use when it is nil.
abbrev pub or_else : {A : Type 0} → Option A → Option A → Option A
or_else none o = o
or_else (some a) o = some a

module _ {R : Type 0} ⦃f : Float64 R⦄ where
  unfoldable pub base_thermal_mass : String → R
  base_thermal_mass typ =
      if typ == "temperature"
      then float 10000000
      else if typ == "humidity"
      then float 325
      else float 1

  -- 0.001 is the float64 nearest to 1/1000
  unfoldable pub base_conductance : String → R
  base_conductance typ =
      if typ == "temperature"
      then float 100
      else if typ == "humidity"
      then float 1 ⊘ float 1000
      else float 1

  unfoldable pub base_rate : String → R
  base_rate typ =
      if typ == "temperature"
      then float 1000
      else if typ == "humidity"
      then float 9 ⊘ float 1000
      else float 1

  -- The scale of a template, 1 where it is 0, unless the simulation file has one.
  unfoldable pub scale_of : R → Option R → R
  scale_of template override =
      or_default override (if f.is_zero template then float 1 else template)

  unfoldable pub resolve_measurement :
      Bool → Option R → Option R → String → RawMeasurementConfig R → MeasurementConfig R
  resolve_measurement noisy mass_scale conductance_scale typ m = record {
    base = m.base;
    thermal_mass = base_thermal_mass typ ⊗ scale_of m.thermal_mass_scale mass_scale;
    conductance = base_conductance typ ⊗ scale_of m.conductance_scale conductance_scale;
    noise = if not noisy then float 0 else m.noise;
  }

  unfoldable pub resolve_measurements :
      Dict String (RawMeasurementConfig R)
      → Bool
      → Option R
      → Option R
      → Dict String (MeasurementConfig R)
  resolve_measurements raw noisy mass_scale conductance_scale =
      map (λ (typ, m). (typ, resolve_measurement noisy mass_scale conductance_scale typ m)) raw

  unfoldable pub resolve_actuator : Option R → RawActuatorConfig R → ActuatorConfig R
  resolve_actuator rate_scale a = record {
    typ = a.typ;
    rate = base_rate a.typ ⊗ scale_of a.rate_scale rate_scale;
  }

  unfoldable pub resolve_device : RawDevice R → RawDeviceTemplate R → SimulatedDevice R
  resolve_device rd tpl = record {
    name_prefix = rd.name_prefix;
    count = rd.count;
    sensors = map (λ s. record { typ = s.typ; noise = s.noise; offset = s.offset }) tpl.sensors;
    actuators = map (resolve_actuator rd.rate_scale) tpl.actuators;
  }

module _ {R : Type 0} where
  -- The template that is named, or the zero value when no name is given.
  unfoldable pub desired_state_base :
      RawRoom R
      → Dict String (RawDesiredStateTemplate R)
      → Result ResolveError (RawDesiredStateTemplate R)
  desired_state_base rr tpls =
      if rr.desired_state_ref == ""
      then ok (record { id = ""; target_temp = none; target_hum = none })
      else or_err (desired_state_not_found rr.name_prefix) (lookup rr.desired_state_ref tpls)

  -- nil when there is no target
  unfoldable pub desired_state_of : Option R → Option R → Option (ResolvedDesiredState R)
  desired_state_of none none = none
  desired_state_of target_temp target_hum =
      some (record { target_temp = target_temp; target_hum = target_hum })

  unfoldable pub resolve_desired_state :
      RawRoom R
      → Dict String (RawDesiredStateTemplate R)
      → Result ResolveError (Option (ResolvedDesiredState R))
  resolve_desired_state rr tpls = do
    base ← desired_state_base rr tpls
    ok (
        desired_state_of (or_else rr.target_temp base.target_temp)
          (or_else rr.target_hum base.target_hum))

  unfoldable pub resolve_schedule :
      RawRoom R
      → Dict String (RawScheduleTemplate R)
      → Result ResolveError (Option (ResolvedSchedule R))
  resolve_schedule rr tpls = if rr.schedule_ref == "" then ok none else do
    tpl ← or_err (schedule_not_found rr.name_prefix) (lookup rr.schedule_ref tpls)
    ok (
        some (record {
          name = tpl.name;
          periods =
              map
                (λ p. record {
                  days_of_week = p.days_of_week;
                  start_time = p.start_time;
                  end_time = p.end_time;
                  mode = p.mode;
                  target_temp = p.target_temp;
                  target_hum = p.target_hum;
                })
                tpl.periods;
        }))
