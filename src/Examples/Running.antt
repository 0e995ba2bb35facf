-- ===== src/Examples/Running.antt =====
-- Concrete runs of the device service from its start.
use climate_control.Prelude.{
  ◌≡◌, refl, true, false, String, none, some, List, [], ◌∷◌, map, nat_eq, string_eq, ◌==◌,
  if◌then◌else◌, arith, keep, any, ap, eq_iff,
}
use climate_control.Prelude.Int.{ℤ}
use climate_control.Prelude.Dict.{Dict, lookup, insert, contains}
use climate_control.Prelude.Result.{ok}
use climate_control.Float.{hundredths}
use climate_control.Cache.{
  Uuid, RoomCache, Store, room, add_room, add_device, new_store, slice_at, room_ids, owns_room,
}
use climate_control.Appdb.{Queries, DeviceRow}
use climate_control.Appdb.Assembly.{
  build_room_cache, build_period_caches, build_actuator_hw_ids, add_devices, add_actuators,
  add_actuator, build_device_cache,
}
use climate_control.Appdb.Reload.{
  reload_room, reload_row, fetch_room_row, keep_runtime, actuators_by_device, group_actuators,
  load_room,
}
use climate_control.Appdb.Warm.{
  BulkQueries, WarmRows, group_by, index_by, add_to_room, group_devices, state_at, index_rows,
  read_parts, read_rows, warm_room, add_rooms, warm_devices, fill, warm_owned, warm_cache,
}
use climate_control.Appdb.Warm.Agree.{is_one_of, fill-load_room}
use climate_control.Scheduler.{Loop, control_loop, new_scheduler, start, start_rooms, start_room}
use climate_control.Scheduler.Running.{running}
use climate_control.Stream.{Consumer, Environment, extract_string, dispatch}
use climate_control.System.{boot}
use climate_control.System.Rooms.{IsRoom, RowsMatch}
use climate_control.System.Sound.{Running, up, dispatched, Running-IsSound}
use climate_control.Scheduler.Tick.{Transport}
use climate_control.System.Unstarted.{stay, step, QuietSteps-running}
use climate_control.Examples.Loading.{
  sample_queries, room_row, desired_state_row, heating_device, heater_row,
}
use climate_control.Examples.Consuming.{deleted_message}

abbrev pub bulk_queries : BulkQueries ℤ
bulk_queries = record {
  room_ids = some (1 ∷ []);
  room_rows = λ ids. some (room_row ∷ []);
  desired_state_rows = λ ids. some (desired_state_row ∷ []);
  active_period_rows = λ ids. some [];
  device_rows = λ ids. some (heating_device ∷ []);
}

abbrev rows : WarmRows ℤ
rows = record {
  rooms = room_row ∷ [];
  desired_states = desired_state_row ∷ [];
  periods = [];
  devices = heating_device ∷ [];
  sensors = [];
  actuators = heater_row ∷ [];
}

abbrev pub warm_store : Store ℤ
warm_store = (warm_cache bulk_queries sample_queries new_store).0

abbrev pub service : Consumer ℤ
service = record { store = warm_store; sched = start 30 60 warm_store new_scheduler; acked = [] }

boot-sample : boot bulk_queries sample_queries 30 60 ≡ ok service
unfolding boot warm_cache warm_owned read_rows read_parts fill index_rows add_rooms warm_room
    owns_room build_room_cache build_period_caches slice_at lookup group_by
boot-sample = refl

pub service-Running : Running service
service-Running = up bulk_queries sample_queries 30 60 service boot-sample

Running-IsSound_example :
    ((id : Uuid) (rc : RoomCache ℤ) → room service.store id ≡ some rc → IsRoom id rc)
    × ((l : Loop) (id : Uuid)
        → running l id service.sched.cancelled service.sched.goroutines
          ≡ (if contains id service.sched.active_rooms then 1 else 0))
Running-IsSound_example = Running-IsSound service-Running

-- The broker takes every command.
abbrev open_transport : Transport
open_transport = record { marshal_payload = λ c. some c.hw_id; publish = λ topic qos payload. true }

-- Queries that find room 1 only.
abbrev queries_of_one : Queries ℤ
queries_of_one = record sample_queries { room_row = λ id. if id == 1 then some room_row else none }

queries_of_one-RowsMatch : RowsMatch queries_of_one
queries_of_one-RowsMatch id row e nonzero = ground (arith, e)

abbrev one_environment : Environment ℤ
one_environment = record { queries = queries_of_one; parse_uuid = λ s. some 1 }

deleted-IsQuiet : ¬ (extract_string deleted_message.values "event" ≡ ok "room_created")
unfolding extract_string lookup
deleted-IsQuiet h = absurd (ground (arith, h, eq_iff {A = String} "room_deleted" "room_created"))

seven-idle : contains 7 service.sched.active_rooms ≡ false
unfolding warm_cache warm_owned read_rows read_parts fill index_rows add_rooms warm_room
    warm_devices owns_room build_room_cache build_period_caches slice_at lookup insert contains
    group_by index_by room_ids add_room add_device new_store start start_rooms start_room
    new_scheduler
seven-idle = refl

QuietSteps-running_example :
    running control_loop 7
      (dispatch one_environment deleted_message service).sched.cancelled
      (dispatch one_environment deleted_message service).sched.goroutines
    ≡ 0
QuietSteps-running_example =
    QuietSteps-running 7 service-Running
      (step stay (dispatched one_environment deleted_message queries_of_one-RowsMatch)
        deleted-IsQuiet)
      seven-idle control_loop

any-map : (x : Uuid) (ds : List DeviceRow) → any (λ i. i == x) (map (λ d. d.id) ds) ≡ is_one_of ds x
any-map x [] = refl
any-map x (d ∷ ds) = ground (arith, any-map x ds)

-- Queries that answer with the actuators of the devices that are asked for.
abbrev exact_queries : Queries ℤ
exact_queries = record sample_queries {
  actuator_rows = λ ids. some (keep (λ a. any (λ i. i == a.device_id) ids) (heater_row ∷ []));
}

filled : (fill exact_queries.load_location rows new_store).1 ≡ none
unfolding fill index_rows add_rooms warm_room build_room_cache build_period_caches slice_at lookup
    group_by
filled = refl

fill-load_room_example :
    (rc : RoomCache ℤ) × (load_room exact_queries 1 room_row ≡ ok rc)
    × (room (fill exact_queries.load_location rows new_store).0 1 ≡ some rc)
fill-load_room_example =
    fill-load_room exact_queries rows [] [] room_row new_store refl tt
      (record {
        state = desired_state_row;
        one_state = refl;
        states = refl;
        periods = refl;
        devices = refl;
        actuators = λ ds. ap (λ b. some (if b then heater_row ∷ [] else [])) (any-map 5 ds);
      })
      filled

pub reload_room-service : reload_room sample_queries 1 service.store ≡ ok service.store
unfolding reload_room reload_row fetch_room_row load_room keep_runtime actuators_by_device
    group_actuators build_device_cache warm_cache warm_owned read_rows read_parts fill index_rows
    add_rooms warm_room warm_devices owns_room build_room_cache build_period_caches
    build_actuator_hw_ids add_devices add_actuators add_actuator slice_at lookup insert contains
    group_by index_by group_devices add_to_room state_at room add_room add_device new_store
reload_room-service = refl
