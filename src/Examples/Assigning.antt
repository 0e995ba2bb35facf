-- ===== src/Examples/Assigning.antt =====
-- Concrete calls of the devices' service.
use climate_control.Prelude.{
  ◌≡◌, refl, String, false, none, some, [], ◌∷◌, ◌++◌, All, string_eq, nat_eq,
}
use climate_control.Prelude.Int.{ℤ}
use climate_control.Prelude.Result.{ok}
use climate_control.Float.{hundredths}
use climate_control.Schedule.{SchedulePeriod}
use climate_control.Api.{device_assigned, device_unassigned}
use climate_control.Api.Rooms.{DesiredState, get_room}
use climate_control.Api.Conflict.{
  DeviceModel, DeviceWithCapabilities, ConflictQueries, has_sensor, has_actuator,
  has_temperature_capability_after_removal, has_humidity_capability_after_removal, unreachable,
  desired_state_has_conflict, active_schedule_periods_have_conflict,
  has_capability_conflict_after_removal,
}
use climate_control.Api.Conflict.Safe.{Reachable, has_capability_conflict_after_removal-Reachable}
use climate_control.Api.Devices.{DeviceTables, UpdateInput, with_sensors_and_actuators, get_device}
use climate_control.Api.Devices.Service.{
  leaving_room, entering_room, check_room, check_conflict, notify_moves, move_device, assigned,
  delete_owned_device,
}
use climate_control.Api.Devices.Moves.{
  move_events, CanLeave, move_device-events, delete_owned_device-events,
}
use climate_control.Examples.Serving.{switched_off, tables, before}

abbrev plug : DeviceModel
plug = record {
  id = 5;
  user_id = 9;
  room_id = some 1;
  name = "plug";
  hw_id = "h1";
  device_type = "physical";
}

abbrev device_tables : DeviceTables (DesiredState ℤ) String
device_tables = record {
  find_device = λ id user d. ok plug;
  find_by_hw_id = λ hw_id d. ok plug;
  find_sensors = λ ids d. ok [];
  find_actuators = λ ids d. ok [];
  insert_device = λ dev d. ok (dev, d);
  insert_sensor = λ id typ d. ok d;
  insert_actuator = λ id typ d. ok d;
  save_device = λ dev d. ok d;
  delete_device = λ id d. ok d;
}

abbrev conflict_queries : ConflictQueries ℤ (DesiredState ℤ) String
conflict_queries = record {
  devices_of_room = λ id d. ok (record { device = plug; sensors = []; actuators = [] } ∷ []);
  desired_state_of_room = λ id d. ok d;
  active_periods = λ id d. ok [];
}

no_conflict : has_capability_conflict_after_removal conflict_queries 1 5 switched_off ≡ ok false
unfolding has_capability_conflict_after_removal has_temperature_capability_after_removal
    has_humidity_capability_after_removal has_sensor has_actuator desired_state_has_conflict
    active_schedule_periods_have_conflict unreachable
no_conflict = refl

has_capability_conflict_after_removal-Reachable_example :
    Reachable conflict_queries false false switched_off.target_temp switched_off.target_hum
    × All {A = SchedulePeriod ℤ}
        (λ p. Reachable conflict_queries false false p.target_temp p.target_hum)
        []
unfolding has_temperature_capability_after_removal has_humidity_capability_after_removal has_sensor
    has_actuator
has_capability_conflict_after_removal-Reachable_example =
    has_capability_conflict_after_removal-Reachable conflict_queries 1 5 switched_off switched_off
      [] false false refl refl refl refl no_conflict

abbrev to_room_two : UpdateInput
to_room_two = record { name = "plug"; room_id = some 2 }

move_device-events_example :
    (dev : DeviceWithCapabilities) × (get_device device_tables 5 9 switched_off ≡ ok dev)
    × CanLeave device_tables tables conflict_queries 5 dev.device.room_id (some 2) switched_off
    × (device_assigned 2 "h1" ∷ device_unassigned 1 "h1" ∷ []
        ≡ move_events dev.device.room_id (some 2) dev.device.hw_id ++ [])
unfolding move_device get_device with_sensors_and_actuators check_room get_room check_conflict
    leaving_room entering_room notify_moves has_capability_conflict_after_removal
    has_temperature_capability_after_removal has_humidity_capability_after_removal has_sensor
    has_actuator desired_state_has_conflict active_schedule_periods_have_conflict unreachable
move_device-events_example =
    move_device-events device_tables tables conflict_queries 5 9 to_room_two before
      (record {
        db = switched_off;
        events = device_assigned 2 "h1" ∷ device_unassigned 1 "h1" ∷ [];
      })
      refl

delete_owned_device-events_example :
    (dev : DeviceWithCapabilities) × (get_device device_tables 5 9 switched_off ≡ ok dev)
    × CanLeave device_tables tables conflict_queries 5 dev.device.room_id none switched_off
    × (before.events ≡ before.events)
unfolding delete_owned_device get_device with_sensors_and_actuators check_conflict assigned
    has_capability_conflict_after_removal has_temperature_capability_after_removal
    has_humidity_capability_after_removal has_sensor has_actuator desired_state_has_conflict
    active_schedule_periods_have_conflict unreachable
delete_owned_device-events_example =
    delete_owned_device-events device_tables tables conflict_queries 5 9 before before refl
