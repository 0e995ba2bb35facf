-- ===== src/Appdb/Assembly.antt =====
-- device-service/internal/appdb/repository.go: `buildRoomCache`, `buildPeriodCaches`,
-- `buildActuatorHwIDs` and `buildDeviceCache`, which assemble cache entries from rows.
use climate_control.Prelude.{
  ℕ, zero, suc, String, Bool, true, false, ◌&&◌, Option, none, some, List, [], ◌∷◌, ◌++◌, nat_eq,
  string_eq, if◌then◌else◌,
}
use climate_control.Prelude.Int.{ℤ, pos, negsuc, leb_ℤ}
use climate_control.Prelude.Dict.{Dict, insert, contains}
use climate_control.Prelude.Result.{Result, ok, ◌>>=◌, or_err, wrap_err}
use climate_control.Time.{Location}
use climate_control.Cache.{
  Uuid, SchedulePeriodCache, RoomCache, SensorEntry, ActuatorEntry, DeviceCache, slice_at,
}
use climate_control.Appdb.{
  RoomRow, DesiredStateRow, ActivePeriodRow, DeviceRow, SensorRow, ActuatorRow,
}
use climate_control.Appdb.ParseTime.{TimeError, parse_time_to_minutes}

-- Why a room's cache cannot be built.
pub data BuildError : Type 0 where
  resolve_timezone : BuildError
  parse_start parse_end : TimeError → BuildError

-- arr[i] = true of an array of Booleans; `build_days` writes in range only
unfoldable pub set_bit : List Bool → ℕ → List Bool
set_bit [] i = []
set_bit (b ∷ bs) zero = true ∷ bs
set_bit (b ∷ bs) (suc i) = b ∷ set_bit bs i

-- int(d) of a day in range
abbrev pub day_index : ℤ → ℕ
day_index (pos n) = n
day_index (negsuc n) = 0

unfoldable pub set_day : List Bool → ℤ → List Bool
set_day bits d = if leb_ℤ (pos 1) d && leb_ℤ d (pos 7) then set_bit bits (day_index d) else bits

unfoldable pub set_days : List Bool → List ℤ → List Bool
set_days bits [] = bits
set_days bits (d ∷ ds) = set_days (set_day bits d) ds

abbrev pub no_days : List Bool
no_days = false ∷ false ∷ false ∷ false ∷ false ∷ false ∷ false ∷ false ∷ []

unfoldable pub build_days : List ℤ → List Bool
build_days days = set_days no_days days

-- actuatorSensorTypes
abbrev pub actuator_sensor_types : Dict String String
actuator_sensor_types = ("heater", "temperature") ∷ ("humidifier", "humidity") ∷ []

module _ {R : Type 0} where
  -- the map {"temperature": temp, "humidity": hum}
  abbrev pub targets_map : Option R → Option R → Dict String (Option R)
  targets_map temp hum = ("temperature", temp) ∷ ("humidity", hum) ∷ []

  unfoldable pub build_period_cache : ActivePeriodRow R → Result BuildError (SchedulePeriodCache R)
  build_period_cache p = do
    start_minutes ← wrap_err parse_start (parse_time_to_minutes p.start_time)
    end_minutes ← wrap_err parse_end (parse_time_to_minutes p.end_time)
    ok record {
      id = p.id;
      days_of_week = build_days p.days_of_week;
      start_minutes = start_minutes;
      end_minutes = end_minutes;
      mode = p.mode;
      targets = some (targets_map p.target_temp p.target_hum);
    }

  unfoldable pub build_period_caches :
      List (ActivePeriodRow R) → Result BuildError (List (SchedulePeriodCache R))
  build_period_caches [] = ok []
  build_period_caches (p ∷ ps) =
      build_period_cache p >>= λ c. build_period_caches ps >>= λ cs. ok (c ∷ cs)

-- the body of the inner loop
unfoldable pub add_actuator :
    String → ActuatorRow → Dict String (List String) → Dict String (List String)
add_actuator hw_id a result =
    if contains a.actuator_type actuator_sensor_types
    then insert a.actuator_type (slice_at a.actuator_type result ++ hw_id ∷ []) result
    else result

-- the inner loop, over the actuators of a device
unfoldable pub add_actuators :
    String → List ActuatorRow → Dict String (List String) → Dict String (List String)
add_actuators hw_id [] result = result
add_actuators hw_id (a ∷ acts) result = add_actuators hw_id acts (add_actuator hw_id a result)

unfoldable pub add_devices :
    List DeviceRow
    → Dict Uuid (List ActuatorRow)
    → Dict String (List String)
    → Dict String (List String)
add_devices [] actuators_by_device result = result
add_devices (dev ∷ devices) actuators_by_device result =
    add_devices devices actuators_by_device
      (add_actuators dev.hw_id (slice_at dev.id actuators_by_device) result)

unfoldable pub build_actuator_hw_ids :
    List DeviceRow → Dict Uuid (List ActuatorRow) → Dict String (List String)
build_actuator_hw_ids devices actuators_by_device = add_devices devices actuators_by_device []

module _ {R : Type 0} where
  unfoldable pub build_room_cache :
      (String → Option Location)
      → RoomRow R
      → DesiredStateRow R
      → List (ActivePeriodRow R)
      → List DeviceRow
      → Dict Uuid (List ActuatorRow)
      → Result BuildError (RoomCache R)
  build_room_cache load_location rm ds periods devices actuators_by_device = do
    loc ← or_err resolve_timezone (load_location rm.timezone)
    period_caches ← build_period_caches periods
    ok record {
      room_id = rm.id;
      user_timezone = rm.timezone;
      location = some loc;
      deadband_temp = rm.deadband_temp;
      deadband_hum = rm.deadband_hum;
      desired_state = record {
        mode = ds.mode;
        manual_active = ds.manual_active;
        targets = some (targets_map ds.target_temp ds.target_hum);
        manual_override_until = ds.manual_override_until;
      };
      active_periods = period_caches;
      actuator_hw_ids = build_actuator_hw_ids devices actuators_by_device;
      actuator_states = [];
      latest_readings = [];
      last_active_period = none;
    }

unfoldable pub sensor_entries : List SensorRow → Dict String SensorEntry → Dict String SensorEntry
sensor_entries [] m = m
sensor_entries (s ∷ ss) m = sensor_entries ss (
    insert s.measurement_type (record { sensor_id = s.id; measurement_type = s.measurement_type })
      m)

unfoldable pub actuator_entries :
    List ActuatorRow → Dict String ActuatorEntry → Dict String ActuatorEntry
actuator_entries [] m = m
actuator_entries (a ∷ as') m =
    actuator_entries as'
      (insert a.actuator_type (record { actuator_id = a.id; actuator_type = a.actuator_type }) m)

unfoldable pub build_device_cache : DeviceRow → List SensorRow → List ActuatorRow → DeviceCache
build_device_cache dev sensors actuators = record {
  device_id = dev.id;
  hw_id = dev.hw_id;
  room_id = dev.room_id;
  sensors = sensor_entries sensors [];
  actuators = actuator_entries actuators [];
}
