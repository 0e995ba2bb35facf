-- ===== src/Examples/Configuring.antt =====
-- Concrete runs of the simulator's configuration.
use climate_control.Prelude.{◌≡◌, refl, String, false, none, some, [], ◌∷◌, string_eq, arith}
use climate_control.Prelude.Int.{ℤ, pos, ◌*ℤ◌, ◌<ℤ◌, ◌≤ℤ◌, wrap_signed, mod_floor}
use climate_control.Prelude.Dict.{lookup, insert}
use climate_control.Prelude.Result.{ok}
use climate_control.Float.{hundredths, quotient, float, ◌≺◌, ◌⊗◌}
use climate_control.Simulator.Config.{
  SimulatedDevice, SimulatedRoom, Simulation, RawRoomTemplate, RawDeviceTemplate, RawRoom,
  RawSimulation,
}
use climate_control.Simulator.Config.Parts.{
  base_thermal_mass, base_conductance, base_rate, scale_of, resolve_measurement,
  resolve_measurements, resolve_actuator, resolve_device, desired_state_base, desired_state_of,
  resolve_desired_state, resolve_schedule,
}
use climate_control.Simulator.Config.Resolve.{
  add_templates, apply_room_overrides, apply_device_overrides, resolve_devices, resolve_room,
  resolve_rooms, resolve_groups, resolve_time_scale, resolve_simulation,
}
use climate_control.Simulator.Config.Validate.{
  is_set, validate_devices, validate_rooms, validate_groups, validate_simulation,
}
use climate_control.Simulator.Config.Load.{
  Host, SimulatorConfig, must_get_env, must_get_env_int, min_publish_interval, natural_interval,
  effective_interval, templates_of, read_files, config_of, load,
}
use climate_control.Simulator.Config.Prefixes.{
  DistinctPrefixes, validate_simulation-DistinctPrefixes,
}
use climate_control.Simulator.Config.Exclusive.{ExclusiveRooms}
use climate_control.Simulator.Config.Timing.{load-DistinctPrefixes}

abbrev attic_at : ℤ → RawRoomTemplate ℤ
attic_at base = record {
  id = "attic";
  measurements =
      (
        "temperature",
        record {
          base = base;
          noise = pos 10;
          thermal_mass_scale = pos 0;
          conductance_scale = pos 0;
        },
      )
      ∷ [];
}

abbrev heater_template : RawDeviceTemplate ℤ
heater_template = record {
  id = "heater";
  sensors = [];
  actuators = record { typ = "temperature"; rate_scale = pos 0 } ∷ [];
}

abbrev raw_room : RawRoom ℤ
raw_room = record {
  template = "attic";
  name_prefix = "room";
  count = pos 2;
  typ = "";
  noisy = false;
  thermal_mass_scale = none;
  conductance_scale = none;
  devices =
      record { template = "heater"; name_prefix = "dev"; count = pos 1; rate_scale = none } ∷ [];
  desired_state_ref = "";
  target_temp = some (pos 2100);
  target_hum = none;
  schedule_ref = "";
}

abbrev raw_simulation : RawSimulation ℤ
raw_simulation = record {
  room_overrides = attic_at (pos 1500) ∷ [];
  device_overrides = [];
  simulation = record {
    time_scale = pos 6000;
    min_publish_interval_ms = pos 0;
    user_groups = record { count = pos 1; interactive = false; rooms = raw_room ∷ [] } ∷ [];
  };
}

abbrev host : Host ℤ String
host = record {
  read_rooms = λ path. ok (attic_at (pos 1000) ∷ []);
  read_devices = λ path. ok (heater_template ∷ []);
  read_desired_states = λ path. ok [];
  read_schedules = λ path. ok [];
  read_simulation = λ path. ok raw_simulation;
  getenv = λ key. "10";
  atoi = λ s. some (pos 10);
  of_int = λ n. n *ℤ pos 100;
  to_duration = λ x. quotient x (pos 100);
  seconds = λ d. quotient d (pos 10000000);
}

abbrev simulated_heater : SimulatedDevice ℤ
simulated_heater = record {
  name_prefix = "dev";
  count = pos 1;
  sensors = [];
  actuators = record { typ = "temperature"; rate = pos 100000 } ∷ [];
}

abbrev simulated_room : SimulatedRoom ℤ
simulated_room = record {
  name_prefix = "room";
  count = pos 2;
  typ = "static";
  noisy = false;
  measurements =
      (
        "temperature",
        record {
          base = pos 1500;
          thermal_mass = pos 1000000000;
          conductance = pos 10000;
          noise = pos 0;
        },
      )
      ∷ [];
  devices = simulated_heater ∷ [];
  desired_state = some (record { target_temp = some (pos 2100); target_hum = none });
  schedule = none;
}

abbrev simulation : Simulation ℤ
simulation = record {
  name = "demo";
  time_scale = pos 6000;
  min_publish_interval_ms = pos 500;
  user_groups = record { count = pos 1; interactive = false; rooms = simulated_room ∷ [] } ∷ [];
}

-- 10 s at 60 times the speed are below the minimum of 500 ms.
abbrev config : SimulatorConfig ℤ
config = record {
  api_url = "http://api-service:8080";
  mqtt_host = "mosquitto";
  mqtt_port = pos 1883;
  mqtt_client_id = "sim-demo";
  mqtt_username = "10";
  mqtt_password = "10";
  email_template = "10";
  password = "10";
  base_tick_seconds = pos 10;
  effective_publish_interval = pos 500000000;
  simulated_tick_seconds = pos 3000;
  simulation = simulation;
}

load-sample : load host "demo" ≡ ok config
unfolding load read_files templates_of add_templates apply_room_overrides apply_device_overrides
    resolve_simulation resolve_time_scale resolve_groups resolve_rooms resolve_room resolve_devices
    resolve_device resolve_actuator resolve_measurements resolve_measurement scale_of
    base_thermal_mass base_conductance base_rate resolve_desired_state desired_state_base
    desired_state_of resolve_schedule validate_simulation validate_groups validate_rooms
    validate_devices is_set config_of must_get_env_int must_get_env effective_interval
    min_publish_interval natural_interval wrap_signed mod_floor ◌*ℤ◌ lookup insert
load-sample = refl

load-DistinctPrefixes_example :
    DistinctPrefixes simulation.user_groups
    × ExclusiveRooms simulation.user_groups
    × (float 400 ≺ simulation.time_scale ≡ false)
    × (pos 0 <ℤ config.effective_publish_interval)
    × (simulation.min_publish_interval_ms *ℤ pos 1000000 ≤ℤ config.effective_publish_interval)
    × (config.simulated_tick_seconds
        ≡ simulation.time_scale ⊗ host.seconds config.effective_publish_interval)
load-DistinctPrefixes_example = load-DistinctPrefixes host "demo" config load-sample (omega arith)

validate_simulation-DistinctPrefixes_example :
    ((validate_simulation simulation ≡ ok tt) → DistinctPrefixes simulation.user_groups)
    × (DistinctPrefixes simulation.user_groups → validate_simulation simulation ≡ ok tt)
validate_simulation-DistinctPrefixes_example = validate_simulation-DistinctPrefixes simulation
