-- ===== src/Examples/Loading.antt =====
-- Concrete runs of the loading of rooms and devices from the database's rows.
use climate_control.Prelude.{
  ◌≡◌, refl, String, false, none, some, List, [], ◌∷◌, map, ◌⊎◌, ◌==◌, nat_eq, string_eq, ◌&&◌, leb,
  arith,
}
use climate_control.Prelude.Int.{ℤ, pos, negsuc}
use climate_control.Prelude.Dict.{Dict, lookup, insert, contains}
use climate_control.Prelude.Result.{ok}
use climate_control.Float.{hundredths}
use climate_control.Time.{utc}
use climate_control.Cache.{Uuid, RoomCache, Store, device, room, add_room, slice_at, bit_at}
use climate_control.Control.Evaluate.{evaluate}
use climate_control.Control.Commands.{commands_of}
use climate_control.Appdb.{RoomRow, DesiredStateRow, DeviceRow, ActuatorRow, Queries}
use climate_control.Appdb.ParseTime.{print_time, parse_codes, parse-print_time}
use climate_control.Appdb.Assembly.{
  build_days, build_actuator_hw_ids, build_room_cache, build_period_caches, add_devices,
  add_actuators, add_actuator,
}
use climate_control.Appdb.Days.{has_day, build_days-has_day}
use climate_control.Appdb.Actuators.{hw_ids_with, build_actuator_hw_ids-hw_ids_with}
use climate_control.Appdb.Reload.{
  fetch_room_row, group_actuators, actuators_by_device, load_room, keep_runtime, reload_row,
  reload_room,
}
use climate_control.Appdb.Reload.Effect.{runtime, reload_room-keeps_runtime, reload_room_frame}
use climate_control.Appdb.Reload.Coverage.{reload-evaluate_coverage}
use climate_control.Examples.{living_room, sample_store, room-sample, ten_o_clock, two_minutes}

abbrev pub room_row : RoomRow ℤ
room_row = record {
  id = 1;
  user_id = 9;
  deadband_temp = pos 50;
  deadband_hum = pos 300;
  timezone = "UTC";
}

abbrev pub desired_state_row : DesiredStateRow ℤ
desired_state_row = record {
  room_id = 1;
  mode = "OFF";
  manual_active = false;
  target_temp = none;
  target_hum = none;
  manual_override_until = none;
}

abbrev pub heating_device : DeviceRow
heating_device = record { id = 5; hw_id = "h1"; room_id = some 1 }

abbrev pub heater_row : ActuatorRow
heater_row = record { id = 6; device_id = 5; actuator_type = "heater" }

abbrev pub sample_queries : Queries ℤ
sample_queries = record {
  room_row = λ id. some room_row;
  desired_state_row = λ id. some desired_state_row;
  active_period_rows = λ id. some [];
  device_rows = λ id. some (heating_device ∷ []);
  sensor_rows = λ ids. some [];
  actuator_rows = λ ids. some (heater_row ∷ []);
  device_row = λ h. some heating_device;
  load_location = λ name. some utc;
}

abbrev sample_actuators : Dict Uuid (List ActuatorRow)
sample_actuators = (5, heater_row ∷ []) ∷ []

parse-print_time_example : parse_codes (print_time 23 59) ≡ ok (pos 1439)
parse-print_time_example = parse-print_time 23 59 (omega arith) (omega arith)

build_days-has_day_example :
    bit_at (build_days (pos 3 ∷ pos 9 ∷ negsuc 0 ∷ [])) 3
    ≡ (leb 1 3 && leb 3 7 && has_day 3 (pos 3 ∷ pos 9 ∷ negsuc 0 ∷ []))
build_days-has_day_example = build_days-has_day (pos 3 ∷ pos 9 ∷ negsuc 0 ∷ []) 3

build_actuator_hw_ids-hw_ids_with_example :
    slice_at "heater" (build_actuator_hw_ids (heating_device ∷ []) sample_actuators)
    ≡ hw_ids_with "heater" (heating_device ∷ []) sample_actuators
unfolding contains
build_actuator_hw_ids-hw_ids_with_example =
    build_actuator_hw_ids-hw_ids_with "heater" (heating_device ∷ []) sample_actuators refl

fetch_room_row-sample : fetch_room_row sample_queries 1 ≡ ok (some room_row)
unfolding fetch_room_row
fetch_room_row-sample = refl

actuators_by_device-sample :
    actuators_by_device sample_queries (heating_device ∷ []) ≡ ok sample_actuators
unfolding actuators_by_device group_actuators insert slice_at lookup
actuators_by_device-sample = refl

abbrev pub loaded_room : RoomCache ℤ
loaded_room = record {
  room_id = 1;
  user_timezone = "UTC";
  location = some utc;
  deadband_temp = pos 50;
  deadband_hum = pos 300;
  desired_state = record {
    mode = "OFF";
    manual_active = false;
    targets = some (("temperature", none) ∷ ("humidity", none) ∷ []);
    manual_override_until = none;
  };
  active_periods = [];
  actuator_hw_ids = ("heater", "h1" ∷ []) ∷ [];
  actuator_states = [];
  latest_readings = [];
  last_active_period = none;
}

load_room-sample : load_room sample_queries 1 room_row ≡ ok loaded_room
unfolding load_room actuators_by_device group_actuators insert slice_at lookup contains
    build_room_cache build_period_caches build_actuator_hw_ids add_devices add_actuators
    add_actuator
load_room-sample = refl

abbrev reloaded_store : Store ℤ
reloaded_store = record sample_store {
  rooms = (1, record loaded_room { latest_readings = living_room.latest_readings }) ∷ [];
}

reload_room-sample : reload_room sample_queries 1 sample_store ≡ ok reloaded_store
unfolding reload_room reload_row fetch_room_row load_room actuators_by_device group_actuators insert
    slice_at lookup contains build_room_cache build_period_caches build_actuator_hw_ids add_devices
    add_actuators add_actuator keep_runtime room add_room
reload_room-sample = refl

reload-evaluate_coverage_example :
    (s' : Store ℤ) × (new : RoomCache ℤ) × (reload_room sample_queries 1 sample_store ≡ ok s')
    × (room s' 1 ≡ some new)
    × (map (λ c. c.hw_id) (commands_of "heater" (evaluate new ten_o_clock two_minutes).commands)
        ≡ hw_ids_with "heater" (heating_device ∷ []) sample_actuators)
    × (map (λ c. c.hw_id) (commands_of "humidifier" (evaluate new ten_o_clock two_minutes).commands)
        ≡ hw_ids_with "humidifier" (heating_device ∷ []) sample_actuators)
reload-evaluate_coverage_example =
    reload-evaluate_coverage sample_queries 1 sample_store room_row loaded_room
      (heating_device ∷ []) sample_actuators ten_o_clock two_minutes fetch_room_row-sample
      load_room-sample refl actuators_by_device-sample

reload_room-keeps_runtime_example :
    ((fetch_room_row sample_queries 1 ≡ ok none) × (room reloaded_store 1 ≡ none))
    ⊎ ((rm : RoomRow ℤ) × (new : RoomCache ℤ) × (fetch_room_row sample_queries 1 ≡ ok (some rm))
        × (room reloaded_store 1 ≡ some new)
        × (runtime sample_queries 1 new ≡ runtime sample_queries 1 living_room)
        × (load_room sample_queries 1 rm
            ≡ ok (record new {
              actuator_states = [];
              latest_readings = [];
              last_active_period = none;
            })))
reload_room-keeps_runtime_example =
    reload_room-keeps_runtime sample_queries 1 sample_store reloaded_store living_room room-sample
      reload_room-sample

reload_room_frame_example :
    ((j : Uuid) → (1 == j) ≡ false → room reloaded_store j ≡ room sample_store j)
    × ((h : String) → device reloaded_store h ≡ device sample_store h)
reload_room_frame_example =
    reload_room_frame sample_queries 1 sample_store reloaded_store reload_room-sample
