-- ===== src/Appdb/Reload.antt =====
-- device-service/internal/appdb/repository.go: `ReloadRoom` and `ReloadDevice`. Each returns the new
-- store, or the error with the store left alone: every write stands behind the last error check.
pub mod Effect
pub mod Coverage
use climate_control.Prelude.{
  ℕ, ◌+◌, String, Bool, Option, none, some, List, [], ◌∷◌, ◌++◌, map, ◌==◌, nat_eq, if◌then◌else◌,
}
use climate_control.Prelude.Dict.{Dict, insert}
use climate_control.Prelude.Result.{Result, ok, err, ◌>>=◌, or_err, wrap_err}
use climate_control.Cache.{
  Uuid, RoomCache, Store, room, add_room, delete_room, add_device, delete_device, slice_at,
}
use climate_control.Appdb.{
  RoomRow, DeviceRow, SensorRow, ActuatorRow, Queries, LoadError, fetch_room, fetch_desired_state,
  fetch_active_periods, fetch_devices, fetch_device, fetch_sensors, fetch_actuators,
}
use climate_control.Appdb.Assembly.{BuildError, build_room_cache, build_device_cache}

-- the loop that groups the actuators by device
unfoldable pub group_actuators :
    List ActuatorRow → Dict Uuid (List ActuatorRow) → Dict Uuid (List ActuatorRow)
group_actuators [] m = m
group_actuators (a ∷ acts) m =
    group_actuators acts (insert a.device_id (slice_at a.device_id m ++ a ∷ []) m)

module _ {R : Type 0} where
  -- no row scanned leaves the zero row, whose ID is uuid.Nil
  unfoldable pub fetch_room_row : Queries R → Uuid → Result LoadError (Option (RoomRow R))
  fetch_room_row q id = do
    row ← or_err fetch_room (q.room_row id)
    ok (if row.id == 0 then none else some row)

  unfoldable pub fetch_device_row : Queries R → String → Result LoadError (Option DeviceRow)
  fetch_device_row q hw_id = do
    row ← or_err fetch_device (q.device_row hw_id)
    ok (if row.id == 0 then none else some row)

  unfoldable pub actuators_by_device :
      Queries R → List DeviceRow → Result LoadError (Dict Uuid (List ActuatorRow))
  actuators_by_device q [] = ok []
  actuators_by_device q (dev ∷ devices) = do
    acts ← or_err fetch_actuators (q.actuator_rows (map (λ d. d.id) (dev ∷ devices)))
    ok (group_actuators acts [])

  -- the room's cache as the database has it
  unfoldable pub load_room : Queries R → Uuid → RoomRow R → Result LoadError (RoomCache R)
  load_room q id rm = do
    ds ← or_err fetch_desired_state (q.desired_state_row id)
    periods ← or_err fetch_active_periods (q.active_period_rows id)
    devices ← or_err fetch_devices (q.device_rows id)
    acts ← actuators_by_device q devices
    wrap_err (λ e. LoadError.build_room_cache)
        (build_room_cache q.load_location rm ds periods devices acts)

  -- the runtime fields of the entry that is replaced
  unfoldable pub keep_runtime : Option (RoomCache R) → RoomCache R → RoomCache R
  keep_runtime none rc = rc
  keep_runtime (some existing) rc = record rc {
    actuator_states = existing.actuator_states;
    latest_readings = existing.latest_readings;
    last_active_period = existing.last_active_period;
  }

  unfoldable pub reload_row :
      Queries R → Uuid → Store R → Option (RoomRow R) → Result LoadError (Store R)
  reload_row q id s none = ok (delete_room id s)
  reload_row q id s (some rm) = do
    rc ← load_room q id rm
    ok (add_room id (keep_runtime (room s id) rc) s)

  unfoldable pub reload_room : Queries R → Uuid → Store R → Result LoadError (Store R)
  reload_room q id s = fetch_room_row q id >>= reload_row q id s

  unfoldable pub reload_device_row :
      Queries R → String → Store R → Option DeviceRow → Result LoadError (Store R)
  reload_device_row q hw_id s none = ok (delete_device hw_id s)
  reload_device_row q hw_id s (some dev) = do
    sensors ← or_err fetch_sensors (q.sensor_rows (dev.id ∷ []))
    actuators ← or_err fetch_actuators (q.actuator_rows (dev.id ∷ []))
    ok (add_device hw_id (build_device_cache dev sensors actuators) s)

  unfoldable pub reload_device : Queries R → String → Store R → Result LoadError (Store R)
  reload_device q hw_id s = fetch_device_row q hw_id >>= reload_device_row q hw_id s
