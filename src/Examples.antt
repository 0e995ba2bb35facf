-- ===== src/Examples.antt =====
-- Concrete runs of the device service's control, ingestion and tick: one room with a heater and a
-- humidifier, numbers as integers of hundredths.
pub mod Scheduling
pub mod Loading
pub mod Consuming
pub mod Services
pub mod Simulating
pub mod Running
pub mod Configuring
pub mod Serving
pub mod Assigning
use climate_control.Prelude.{
  ℕ, ◌≡◌, refl, ◌↔◌, ◌++◌, String, Bool, true, false, Option, none, some, List, [], ◌∷◌, map, keep,
  length, All, inl, inr, ◌==◌, string_eq, nat_eq, ◌<◌, ◌*◌, ◌^◌, arith, if◌then◌else◌,
}
use climate_control.Prelude.Int.{ℤ, pos, negsuc, ◌≤ℤ◌, ◌<ℤ◌, div_floor, mod_floor, ◌+ℤ◌, ◌-ℤ◌, ◌*ℤ◌}
use climate_control.Prelude.Dict.{Dict, contains, KeysDistinct, lookup}
use climate_control.Float.{hundredths}
use climate_control.Time.{Instant, Duration, utc, weekday, hour, minute, local_seconds, time_sub}
use climate_control.Cache.{
  TimestampedReading, DesiredStateCache, SchedulePeriodCache, RoomCache, SensorEntry, DeviceCache,
  Store, device, room, slice_at, flag_at, target_at, bit_at,
}
use climate_control.Control.{
  ActuatorCommand, EffectiveState, from_period, resolve_effective_state, manual_override,
  find_period, covers, day_of_week, minutes_of_day,
}
use climate_control.Control.Evaluate.{
  evaluate, fresh_average, is_fresh, sum_fresh, evaluate_or_off, append_commands, init_entry,
  log_averages, log_targets, set_cmd, bang_bang,
}
use climate_control.Control.Priority.{Chooses, today, this_minute, resolve_effective_state-Chooses}
use climate_control.Control.Average.{mean_of, fresh_average-mean_of}
use climate_control.Control.Commands.{commands_of, commands_for}
use climate_control.Control.Logging.{
  cmd_if, cmds, commanded_heater, commanded_humidifier, evaluate-commands, evaluate-stale_heater,
}
use climate_control.Control.Context.{IsPaired, evaluate-IsPaired}
use climate_control.Ingestion.{Reading, TelemetryMessage, dropped, trim_stale, process}
use climate_control.Ingestion.Trim.{IsThreshold, keep-trim_stale}
use climate_control.Ingestion.Rows.{rows_of, expected_rows, process-rows}
use climate_control.Ingestion.Effect.{arrivals, process-average}
use climate_control.Scheduler.{Loop, control_loop, Scheduler, new_scheduler, add_room, remove_room}
use climate_control.Scheduler.Running.{running}
use climate_control.Scheduler.Reachable.{Reachable, booted, next, added, removed, Reachable-running}
use climate_control.Scheduler.Stagger.{stagger_bounds}
use climate_control.Scheduler.{stagger_of}
use climate_control.Scheduler.Tick.{Transport, after_tick, publish_commands}
use climate_control.Scheduler.Tick.States.{any_delivered, publish_commands-flag_at}
use climate_control.Scheduler.Tick.Again.{tick_again}

abbrev seconds : ℕ → ℤ
seconds n = pos (n * 10 ^ 9)

-- Thursday, 1 January 1970, 10:00
abbrev pub ten_o_clock : Instant
ten_o_clock = seconds 36000

abbrev pub two_minutes : Duration
two_minutes = seconds 120

abbrev targets : Option (Dict String (Option ℤ))
targets = some (("temperature", some (pos 2100)) ∷ ("humidity", none) ∷ [])

abbrev morning : SchedulePeriodCache ℤ
morning = record {
  id = 7;
  days_of_week = false ∷ true ∷ true ∷ true ∷ true ∷ true ∷ false ∷ false ∷ [];
  start_minutes = pos 540;
  end_minutes = pos 660;
  mode = "AUTO";
  targets = targets;
}

abbrev old_reading : TimestampedReading ℤ
old_reading = record { value = pos 1800; timestamp = seconds 35000 }

abbrev fresh_reading : TimestampedReading ℤ
fresh_reading = record { value = pos 1950; timestamp = seconds 35990 }

abbrev pub living_room : RoomCache ℤ
living_room = record {
  room_id = 1;
  user_timezone = "UTC";
  location = some utc;
  deadband_temp = pos 50;
  deadband_hum = pos 300;
  desired_state = record {
    mode = "OFF";
    manual_active = false;
    targets = none;
    manual_override_until = none;
  };
  active_periods = morning ∷ [];
  actuator_hw_ids = ("heater", "h1" ∷ "h2" ∷ []) ∷ ("humidifier", "u1" ∷ []) ∷ [];
  actuator_states = [];
  latest_readings = ("temperature", old_reading ∷ fresh_reading ∷ []) ∷ [];
  last_active_period = none;
}

abbrev silent_room : RoomCache ℤ
silent_room = record living_room { latest_readings = ("temperature", old_reading ∷ []) ∷ [] }

pub living_room-KeysDistinct : KeysDistinct living_room.actuator_hw_ids
unfolding contains
living_room-KeysDistinct = (refl, (refl, tt))

abbrev sensor_device : DeviceCache
sensor_device = record {
  device_id = 3;
  hw_id = "s1";
  room_id = some 1;
  sensors = ("temperature", record { sensor_id = 4; measurement_type = "temperature" }) ∷ [];
  actuators = [];
}

abbrev pub sample_store : Store ℤ
sample_store = record {
  rooms = (1, living_room) ∷ [];
  devices = ("s1", sensor_device) ∷ [];
  assigned_partitions = [];
  num_partitions = pos 0;
}

abbrev sample_message : TelemetryMessage ℤ
sample_message = record {
  hw_id = "s1";
  room_id = none;
  readings = record { kind = "temperature"; value = pos 2000 } ∷ [];
  timestamp = seconds 35995;
}

abbrev write_ok : {A : Type 0} → A → Bool
write_ok rows = true

device-sample : device sample_store "s1" ≡ some sensor_device
unfolding device lookup
device-sample = refl

pub room-sample : room sample_store 1 ≡ some living_room
unfolding room lookup
room-sample = refl

two_minutes-IsThreshold : IsThreshold two_minutes
two_minutes-IsThreshold = ground arith

-- The heaters are switched on: the one fresh reading is below the target less the deadband.
commands-sample :
    (evaluate living_room ten_o_clock two_minutes).commands
    ≡ commands_for "heater" true ("h1" ∷ "h2" ∷ []) ++ commands_for "humidifier" false ("u1" ∷ [])
unfolding evaluate resolve_effective_state manual_override find_period covers day_of_week
    minutes_of_day weekday hour minute local_seconds div_floor mod_floor ◌+ℤ◌ ◌-ℤ◌ ◌*ℤ◌ bit_at
    target_at flag_at lookup contains fresh_average sum_fresh is_fresh slice_at time_sub
    evaluate_or_off append_commands init_entry log_averages log_targets set_cmd bang_bang
commands-sample = refl

evaluate-commands_example :
    let result = evaluate living_room ten_o_clock two_minutes in
    (commands_of "heater" result.commands
      ≡ commands_for "heater"
          (commanded_heater living_room ten_o_clock two_minutes)
          (slice_at "heater" living_room.actuator_hw_ids))
    × (commands_of "humidifier" result.commands
        ≡ commands_for "humidifier"
            (commanded_humidifier living_room ten_o_clock two_minutes)
            (slice_at "humidifier" living_room.actuator_hw_ids))
    × (cmds result.log_entry ≡ (
      cmd_if
          (contains "heater" living_room.actuator_hw_ids)
          (commanded_heater living_room ten_o_clock two_minutes),
      cmd_if
          (contains "humidifier" living_room.actuator_hw_ids)
          (commanded_humidifier living_room ten_o_clock two_minutes),
    ))
evaluate-commands_example =
    evaluate-commands living_room ten_o_clock two_minutes living_room-KeysDistinct

evaluate-stale_heater_example :
    All
      (λ c. c.state ≡ false)
      (commands_of "heater" (evaluate silent_room ten_o_clock two_minutes).commands)
unfolding contains is_fresh slice_at lookup time_sub ◌-ℤ◌
evaluate-stale_heater_example =
    evaluate-stale_heater silent_room ten_o_clock two_minutes (refl, (refl, tt)) refl

resolve_effective_state-Chooses_example :
    (resolve_effective_state living_room ten_o_clock ≡ from_period "schedule" morning)
    ↔ Chooses living_room ten_o_clock
        (today living_room ten_o_clock)
        (this_minute living_room ten_o_clock)
        (from_period "schedule" morning)
resolve_effective_state-Chooses_example =
    resolve_effective_state-Chooses living_room ten_o_clock (from_period "schedule" morning)

evaluate-IsPaired_example : IsPaired (evaluate living_room ten_o_clock two_minutes).log_entry
evaluate-IsPaired_example = evaluate-IsPaired living_room ten_o_clock two_minutes

fresh_average-mean_of_example :
    fresh_average (old_reading ∷ fresh_reading ∷ []) ten_o_clock two_minutes
    ≡ mean_of (keep (is_fresh ten_o_clock two_minutes) (old_reading ∷ fresh_reading ∷ []))
fresh_average-mean_of_example =
    fresh_average-mean_of (old_reading ∷ fresh_reading ∷ []) ten_o_clock two_minutes

process-average_example :
    (latest : Dict String (List (TimestampedReading ℤ))) × (room
        (process write_ok two_minutes sample_message sample_store).0
        1
      ≡ some (record living_room { latest_readings = latest }))
    × (fresh_average (slice_at "temperature" latest) ten_o_clock two_minutes
        ≡ mean_of (
            keep (is_fresh ten_o_clock two_minutes) (
              slice_at "temperature" living_room.latest_readings
              ++ arrivals "temperature"
                  (seconds 35995)
                  sensor_device.sensors
                  sample_message.readings)))
process-average_example =
    process-average write_ok two_minutes sample_message sample_store sensor_device 1 living_room
      "temperature" ten_o_clock two_minutes-IsThreshold (ground arith) device-sample refl
      room-sample

-- The database refuses the rows.
abbrev write_fails : {A : Type 0} → A → Bool
write_fails rows = false

process-rows_example :
    (rows_of (process write_fails two_minutes sample_message sample_store).1
      ≡ expected_rows 1 (seconds 35995) sensor_device.sensors sample_message.readings)
    × (device (process write_fails two_minutes sample_message sample_store).0 "s2"
        ≡ device sample_store "s2")
    × (room (process write_fails two_minutes sample_message sample_store).0 2 ≡ room sample_store 2)
process-rows_example =
    process-rows write_fails two_minutes sample_message sample_store sensor_device 1 living_room
      device-sample refl room-sample 2 refl "s2"
