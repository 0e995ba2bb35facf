-- ===== src/Examples/Serving.antt =====
-- Concrete calls of the services of the rooms and the schedules.
use climate_control.Prelude.{
  ◌≡◌, ◌<◌, refl, String, true, false, ◌||◌, none, some, [], ◌∷◌, string_eq, nat_eq, is_some, arith,
}
use climate_control.Prelude.Int.{◌*ℤ◌, ℤ, pos}
use climate_control.Prelude.Result.{ok, err}
use climate_control.Float.{hundredths, float}
use climate_control.Appdb.ParseTime.{parse_time_to_minutes}
use climate_control.Stream.{ack_unless_failed, dispatch}
use climate_control.Schedule.{PeriodInput, build_period, invalid_time_range}
use climate_control.Schedule.ShortHours.{build_period-short_time}
use climate_control.Api.{
  Event, room_created, record_not_found, desired_state_changed, device_unassigned, ServiceState,
}
use climate_control.Api.Events.{event_values}
use climate_control.Api.Events.Delivery.{react, dispatch-event_values}
use climate_control.Api.Rooms.{
  RoomModel, DesiredState, RoomTables, create_room, create_with_desired_state, get_room,
  find_desired_state, room_capabilities, has_temperature_capability, has_humidity_capability,
}
use climate_control.Api.Rooms.Targets.{
  UpdateDesiredStateInput, out_of_bounds, check_capability, check_targets, check_state,
  update_desired_state,
}
use climate_control.Api.Rooms.Targets.Accepted.{
  WithinBounds, HasCapability, stored, update_desired_state-WithinBounds,
  update_desired_state-HasCapability,
}
use climate_control.Api.RoomHandler.Unchanged.{delete, Answered, room_call, room_call-Answered}
use climate_control.Scheduler.{Loop}
use climate_control.Scheduler.Running.{running}
use climate_control.System.Created.{create_room-running}
use climate_control.Examples.Running.{service, service-Running, reload_room-service}
use climate_control.Examples.Consuming.{environment_of_one, consumer}
use climate_control.Examples.Services.{repository_of_one, weekdays}

abbrev kitchen : RoomModel ℤ
kitchen = record {
  id = 1;
  user_id = 9;
  name = "kitchen";
  deadband_temp = pos 50;
  deadband_hum = pos 200;
}

abbrev pub switched_off : DesiredState ℤ
switched_off = record {
  id = 3;
  room_id = 1;
  mode = "OFF";
  manual_active = false;
  target_temp = none;
  target_hum = none;
  manual_override_until = none;
}

-- A database that is one desired state.
abbrev pub tables : RoomTables ℤ (DesiredState ℤ) String
tables = record {
  find_rooms = λ user d. ok (kitchen ∷ []);
  find_room = λ id user d. ok kitchen;
  insert_room = λ rm d. ok (record rm { id = 1 }, d);
  insert_desired_state = λ ds d. ok ds;
  save_room = λ rm d. ok d;
  delete_room = λ id d. err record_not_found;
  find_desired_state = λ id d. ok d;
  save_desired_state = λ ds d. ok ds;
  capabilities = λ id d. ok (record { temperature = true; humidity = false });
  bulk_capabilities = λ ids d. ok [];
}

abbrev warm_input : UpdateDesiredStateInput ℤ
warm_input = record {
  mode = "AUTO";
  manual_active = true;
  target_temp = some (pos 2100);
  target_hum = none;
  manual_override_until = none;
}

abbrev pub before : ServiceState (DesiredState ℤ)
before = record { db = switched_off; events = [] }

abbrev warm_state : DesiredState ℤ
warm_state = record switched_off {
  mode = "AUTO";
  manual_active = true;
  target_temp = some (pos 2100);
}

abbrev after : ServiceState (DesiredState ℤ)
after = record { db = warm_state; events = desired_state_changed 1 ∷ [] }

update_desired_state-sample :
    update_desired_state tables 1 9 warm_input before ≡ ok (warm_state, after)
unfolding update_desired_state get_room check_targets check_state check_capability out_of_bounds
    has_temperature_capability has_humidity_capability room_capabilities find_desired_state
update_desired_state-sample = refl

update_desired_state-WithinBounds_example :
    ((room : RoomModel ℤ) × (get_room tables 1 9 before.db ≡ ok room))
    × WithinBounds (float 5) (float 40) warm_state.target_temp
    × WithinBounds (float 0) (float 100) warm_state.target_hum
    × ((row : DesiredState ℤ) × (find_desired_state tables 1 before.db ≡ ok row)
        × (warm_state ≡ stored tables row warm_input))
    × (tables.save_desired_state warm_state before.db ≡ ok after.db)
    × (after.events ≡ desired_state_changed 1 ∷ before.events)
update_desired_state-WithinBounds_example =
    update_desired_state-WithinBounds tables 1 9 warm_input before after warm_state
      update_desired_state-sample

update_desired_state-HasCapability_example :
    (is_some warm_state.target_temp || is_some warm_state.target_hum ≡ true)
    × HasCapability warm_state.target_temp (has_temperature_capability tables 1 before.db)
    × HasCapability warm_state.target_hum (has_humidity_capability tables 1 before.db)
update_desired_state-HasCapability_example =
    update_desired_state-HasCapability tables 1 9 warm_input before after warm_state
      update_desired_state-sample refl

room_call-Answered_example :
    Answered before
      (room_call tables 9 (λ s. none) (delete (some 1)) before).0
      (room_call tables 9 (λ s. none) (delete (some 1)) before).1
room_call-Answered_example = room_call-Answered tables 9 (λ s. none) (delete (some 1)) before

dispatch-event_values_example :
    dispatch environment_of_one
      (record { id = "5-0"; values = event_values (λ id. "one") (device_unassigned 1 "h1") })
      consumer
    ≡ ack_unless_failed environment_of_one "5-0"
        (react environment_of_one (device_unassigned 1 "h1") consumer)
dispatch-event_values_example =
    dispatch-event_values environment_of_one (λ id. "one") (device_unassigned 1 "h1") "5-0" consumer
      refl

abbrev nine_to_ten : PeriodInput ℤ
nine_to_ten = record {
  name = none;
  days_of_week = pos 1 ∷ [];
  start_time = "9:00";
  end_time = "10:00";
  mode = "OFF";
  target_temp = none;
  target_hum = none;
}

build_period-short_time_example :
    (build_period repository_of_one 2 nine_to_ten none weekdays ≡ err invalid_time_range)
    × (parse_time_to_minutes "9:00" ≡ ok (pos 540))
    × (parse_time_to_minutes "10:00" ≡ ok (pos 600))
    × (540 < 600)
build_period-short_time_example =
    build_period-short_time repository_of_one 2 nine_to_ten none weekdays 9 0 10 0 refl refl
      (omega arith) (omega arith) (omega arith) (omega arith) (omega arith)

abbrev attic : RoomModel ℤ
attic = record {
  id = 1;
  user_id = 9;
  name = "attic";
  deadband_temp = pos 50;
  deadband_hum = pos 200;
}

abbrev after_create : ServiceState (DesiredState ℤ)
after_create = record { db = record switched_off { id = 0 }; events = room_created 1 ∷ [] }

create_room-sample : create_room tables 9 "attic" before ≡ ok (attic, after_create)
unfolding create_room create_with_desired_state ◌*ℤ◌
create_room-sample = refl

create_room-running_example :
    (e : Event) × (after_create.events ≡ e ∷ [])
    × (let c' =
          dispatch environment_of_one
            (record { id = "6-0"; values = event_values (λ id. "one") e })
            service in
        (c'.store ≡ service.store)
        × ((l : Loop) → running l 1 c'.sched.cancelled c'.sched.goroutines ≡ 1)
        × (c'.acked ≡ "6-0" ∷ []))
create_room-running_example =
    create_room-running tables environment_of_one (λ id. "one") 9 "attic" before after_create attic
      "6-0" service.store create_room-sample service-Running refl reload_room-service
