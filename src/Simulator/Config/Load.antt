-- ===== src/Simulator/Config/Load.antt =====
-- config.go: `Load`. Reading and decoding the files, the environment and strconv.Atoi are parameters,
-- and so are the conversions between float64 and the integers. A missing variable panics: that is an
-- error here.
use climate_control.Prelude.{String, Option, List, [], ◌==◌, string_eq, if◌then◌else◌}
use climate_control.Prelude.Int.{ℤ, pos, ◌*ℤ◌, ltb_ℤ, wrap_signed}
use climate_control.Prelude.Result.{Result, ok, err, ◌>>=◌, or_err, wrap_err}
use climate_control.Float.{Float64, ◌⊗◌, ◌⊘◌, float}
use climate_control.Time.{Duration}
use climate_control.Simulator.Config.{
  Simulation, RawRoomTemplate, RawDeviceTemplate, RawDesiredStateTemplate, RawScheduleTemplate,
  RawSimulation, ResolveError,
}
use climate_control.Simulator.Config.Resolve.{
  add_templates, apply_room_overrides, apply_device_overrides, Templates, resolve_simulation,
}
use climate_control.Simulator.Config.Validate.{ValidateError, validate_simulation}
use Prim.Native.String.{◌++◌ as append}

pub record Host (R E : Type 0) : Type 0 where
  -- os.ReadFile and yaml.Unmarshal of the file at a path
  pub read_rooms : String → Result E (List (RawRoomTemplate R))
  pub read_devices : String → Result E (List (RawDeviceTemplate R))
  pub read_desired_states : String → Result E (List (RawDesiredStateTemplate R))
  pub read_schedules : String → Result E (List (RawScheduleTemplate R))
  pub read_simulation : String → Result E (RawSimulation R)
  -- os.Getenv and strconv.Atoi
  pub getenv : String → String
  pub atoi : String → Option ℤ
  -- float64(n), time.Duration(x) and d.Seconds()
  pub of_int : ℤ → R
  pub to_duration : R → Duration
  pub seconds : Duration → R

pub data ConfigError (E : Type 0) : Type 0 where
  read_failed : String → E → ConfigError E
  resolve_failed : ResolveError → ConfigError E
  invalid_simulation : ValidateError → ConfigError E
  not_an_integer panicked : String → ConfigError E

pub record SimulatorConfig (R : Type 0) : Type 0 where
  pub api_url : String
  pub mqtt_host : String
  pub mqtt_port : ℤ
  pub mqtt_client_id : String
  pub mqtt_username : String
  pub mqtt_password : String
  pub email_template : String
  pub password : String
  pub base_tick_seconds : ℤ
  pub effective_publish_interval : Duration
  pub simulated_tick_seconds : R
  pub simulation : Simulation R

unfoldable pub watchdog_timeout_seconds : {R : Type 0} → SimulatorConfig R → ℤ
watchdog_timeout_seconds c = wrap_signed 64 (c.base_tick_seconds *ℤ pos 3)

-- The maps that the loaders make, with the overrides.
unfoldable pub templates_of :
    {R : Type 0}
    → List (RawRoomTemplate R)
    → List (RawDeviceTemplate R)
    → List (RawDesiredStateTemplate R)
    → List (RawScheduleTemplate R)
    → RawSimulation R
    → Templates R
templates_of rooms devices desired_states schedules raw = record {
  rooms = apply_room_overrides (add_templates (λ t. t.id) rooms []) raw.room_overrides;
  devices = apply_device_overrides (add_templates (λ t. t.id) devices []) raw.device_overrides;
  desired_states = add_templates (λ t. t.id) desired_states [];
  schedules = add_templates (λ t. t.id) schedules [];
}

module _ {R E : Type 0} ⦃f : Float64 R⦄ (host : Host R E) where
  unfoldable pub must_get_env : String → Result (ConfigError E) String
  must_get_env key = let v = host.getenv key in if v == "" then err (panicked key) else ok v

  unfoldable pub must_get_env_int : String → Result (ConfigError E) ℤ
  must_get_env_int key = do v ← must_get_env key; or_err (not_an_integer key) (host.atoi v)

  -- time.Duration(ms) * time.Millisecond
  unfoldable pub min_publish_interval : Simulation R → Duration
  min_publish_interval sim = wrap_signed 64 (sim.min_publish_interval_ms *ℤ pos 1000000)

  unfoldable pub natural_interval : ℤ → Simulation R → Duration
  natural_interval base_tick_seconds sim =
      host.to_duration ((float 1000000000 ⊗ host.of_int base_tick_seconds) ⊘ sim.time_scale)

  unfoldable pub effective_interval : ℤ → Simulation R → Duration
  effective_interval base_tick_seconds sim =
      let natural = natural_interval base_tick_seconds sim in
      if ltb_ℤ natural (min_publish_interval sim) then min_publish_interval sim else natural

  -- `Load` up to the overrides.
  unfoldable pub read_files : String → Result (ConfigError E) (Templates R × RawSimulation R)
  read_files simulation_name = do
    rooms ←
        wrap_err (read_failed "load room templates")
          (host.read_rooms "/app/config/templates/rooms.yaml")
    devices ←
        wrap_err (read_failed "load device templates")
          (host.read_devices "/app/config/templates/devices.yaml")
    desired_states ←
        wrap_err (read_failed "load desired state templates")
          (host.read_desired_states "/app/config/templates/desired_states.yaml")
    schedules ←
        wrap_err (read_failed "load schedule templates")
          (host.read_schedules "/app/config/templates/schedules.yaml")
    raw ←
        wrap_err (read_failed "load simulation") (
          host.read_simulation (append "/app/config/simulations/" (append simulation_name ".yaml")))
    ok (templates_of rooms devices desired_states schedules raw, raw)

  -- `Load` from the tick's interval on.
  unfoldable pub config_of : Simulation R → Result (ConfigError E) (SimulatorConfig R)
  config_of simulation = do
    base_tick_seconds ← must_get_env_int "CONTROL_TICK_INTERVAL_SECONDS"
    mqtt_username ← must_get_env "MQTT_DEVICE_USERNAME"
    mqtt_password ← must_get_env "MQTT_DEVICE_PASSWORD"
    email_template ← must_get_env "SIMULATOR_EMAIL"
    password ← must_get_env "SIMULATOR_PASSWORD"
    ok (record {
      api_url = "http://api-service:8080";
      mqtt_host = "mosquitto";
      mqtt_port = pos 1883;
      mqtt_client_id = append "sim-" simulation.name;
      mqtt_username = mqtt_username;
      mqtt_password = mqtt_password;
      email_template = email_template;
      password = password;
      base_tick_seconds = base_tick_seconds;
      effective_publish_interval = effective_interval base_tick_seconds simulation;
      simulated_tick_seconds =
          simulation.time_scale ⊗ host.seconds (effective_interval base_tick_seconds simulation);
      simulation = simulation;
    })

  unfoldable pub load : String → Result (ConfigError E) (SimulatorConfig R)
  load simulation_name = do
    (tpls, raw) ← read_files simulation_name
    simulation ← wrap_err resolve_failed (resolve_simulation tpls simulation_name raw.simulation)
    _ ← wrap_err invalid_simulation (validate_simulation simulation)
    config_of simulation
