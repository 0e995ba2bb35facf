-- ===== src/Appdb/Warm.antt =====
-- device-service/internal/appdb/repository.go: `WarmCache`, which fills the store at the start. Its
-- queries for many rooms are parameters. It returns the store with what was added before an error.
pub mod Agree
pub mod Grouping
use climate_control.Prelude.{
  ℕ, String, Bool, false, Option, none, some, List, [], ◌∷◌, ◌++◌, map, keep, ◌==◌, nat_eq,
  string_eq,
}
use climate_control.Prelude.Dict.{Dict, lookup, insert}
use climate_control.Prelude.Result.{Result, ok, err, ◌>>=◌, or_err}
use climate_control.Time.{Location}
use climate_control.Cache.{Uuid, RoomCache, Store, owns_room, add_room, add_device, slice_at}
use climate_control.Appdb.{
  RoomRow, DesiredStateRow, ActivePeriodRow, DeviceRow, SensorRow, ActuatorRow, Queries, LoadError,
  fetch_room_ids, fetch_rooms, fetch_desired_state, fetch_active_periods, fetch_devices,
  fetch_sensors, fetch_actuators,
}
use climate_control.Appdb.Assembly.{BuildError, build_room_cache, build_device_cache}

-- What the database answers to the queries for many rooms; `none` for an error.
pub record BulkQueries (R : Type 0) : Type 0 where
  pub room_ids : Option (List Uuid)
  pub room_rows : List Uuid → Option (List (RoomRow R))
  pub desired_state_rows : List Uuid → Option (List (DesiredStateRow R))
  pub active_period_rows : List Uuid → Option (List (ActivePeriodRow R))
  pub device_rows : List Uuid → Option (List DeviceRow)

-- All rows that the start reads.
pub record WarmRows (R : Type 0) : Type 0 where
  pub rooms : List (RoomRow R)
  pub desired_states : List (DesiredStateRow R)
  pub periods : List (ActivePeriodRow R)
  pub devices : List DeviceRow
  pub sensors : List SensorRow
  pub actuators : List ActuatorRow

module _ {A : Type 0} where
  -- m[key(x)] = append(m[key(x)], x) for each x
  unfoldable pub group_by : (A → Uuid) → List A → Dict Uuid (List A) → Dict Uuid (List A)
  group_by key [] m = m
  group_by key (x ∷ xs) m = group_by key xs (insert (key x) (slice_at (key x) m ++ x ∷ []) m)

  -- m[key(x)] = x for each x
  unfoldable pub index_by : (A → Uuid) → List A → Dict Uuid A → Dict Uuid A
  index_by key [] m = m
  index_by key (x ∷ xs) m = index_by key xs (insert (key x) x m)

-- a device is added to the devices of its room, if it is in one
unfoldable pub add_to_room :
    Option Uuid → DeviceRow → Dict Uuid (List DeviceRow) → Dict Uuid (List DeviceRow)
add_to_room none d m = m
add_to_room (some id) d m = insert id (slice_at id m ++ d ∷ []) m

unfoldable pub group_devices :
    List DeviceRow → Dict Uuid (List DeviceRow) → Dict Uuid (List DeviceRow)
group_devices [] m = m
group_devices (d ∷ ds) m = group_devices ds (add_to_room d.room_id d m)

-- The maps that the rows are sorted into.
pub record Index (R : Type 0) : Type 0 where
  pub desired_states : Dict Uuid (DesiredStateRow R)
  pub periods : Dict Uuid (List (ActivePeriodRow R))
  pub devices_by_room : Dict Uuid (List DeviceRow)
  pub sensors_by_device : Dict Uuid (List SensorRow)
  pub actuators_by_device : Dict Uuid (List ActuatorRow)

module _ {R : Type 0} where
  abbrev pub zero_state : DesiredStateRow R
  zero_state = record {
    room_id = 0;
    mode = "";
    manual_active = false;
    target_temp = none;
    target_hum = none;
    manual_override_until = none;
  }

  -- dsMap[id], the zero row for a missing key
  unfoldable pub state_at : Uuid → Dict Uuid (DesiredStateRow R) → DesiredStateRow R
  state_at id m = elim (lookup id m) [ none ↦ zero_state | some ds ↦ ds ]

  unfoldable pub index_rows : WarmRows R → Index R
  index_rows rows = record {
    desired_states = index_by (λ d. d.room_id) rows.desired_states [];
    periods = group_by (λ p. p.room_id) rows.periods [];
    devices_by_room = group_devices rows.devices [];
    sensors_by_device = group_by (λ s. s.device_id) rows.sensors [];
    actuators_by_device = group_by (λ a. a.device_id) rows.actuators [];
  }

  -- the sensors and actuators of all devices; no query without devices
  unfoldable pub read_parts :
      Queries R → List DeviceRow → Result LoadError (List SensorRow × List ActuatorRow)
  read_parts q [] = ok ([], [])
  read_parts q (d ∷ ds) = do
    sensors ← or_err fetch_sensors (q.sensor_rows (map (λ d. d.id) (d ∷ ds)))
    actuators ← or_err fetch_actuators (q.actuator_rows (map (λ d. d.id) (d ∷ ds)))
    ok (sensors, actuators)

  unfoldable pub read_rows : BulkQueries R → Queries R → List Uuid → Result LoadError (WarmRows R)
  read_rows bulk q ids = do
    rooms ← or_err fetch_rooms (bulk.room_rows ids)
    desired_states ← or_err fetch_desired_state (bulk.desired_state_rows ids)
    periods ← or_err fetch_active_periods (bulk.active_period_rows ids)
    devices ← or_err fetch_devices (bulk.device_rows ids)
    (sensors, actuators) ← read_parts q devices
    ok (record {
      rooms = rooms;
      desired_states = desired_states;
      periods = periods;
      devices = devices;
      sensors = sensors;
      actuators = actuators;
    })

  -- the cache entry of one room
  unfoldable pub warm_room :
      (String → Option Location) → Index R → RoomRow R → Result BuildError (RoomCache R)
  warm_room load_location index rm =
      build_room_cache load_location rm (state_at rm.id index.desired_states)
        (slice_at rm.id index.periods) (slice_at rm.id index.devices_by_room)
        index.actuators_by_device

  unfoldable pub add_rooms :
      (String → Option Location) → Index R → List (RoomRow R) → Store R → Store R × Option LoadError
  add_rooms load_location index [] s = (s, none)
  add_rooms load_location index (rm ∷ rms) s = elim (warm_room load_location index rm) [
    | err e ↦ (s, some LoadError.build_room_cache)
    | ok rc ↦ add_rooms load_location index rms (add_room rm.id rc s)
  ]

  unfoldable pub warm_devices : Index R → List DeviceRow → Store R → Store R
  warm_devices index [] s = s
  warm_devices index (d ∷ ds) s = warm_devices index ds (
      add_device d.hw_id
        (build_device_cache d (slice_at d.id index.sensors_by_device)
          (slice_at d.id index.actuators_by_device))
        s)

  -- the loops over the rooms and the devices
  unfoldable pub fill :
      (String → Option Location) → WarmRows R → Store R → Store R × Option LoadError
  fill load_location rows s =
      let index = index_rows rows in
      let (s', e) = add_rooms load_location index rows.rooms s in
      (elim e [ none ↦ warm_devices index rows.devices s' | some _ ↦ s' ], e)

  unfoldable pub warm_owned :
      BulkQueries R → Queries R → List Uuid → Store R → Store R × Option LoadError
  warm_owned bulk q [] s = (s, none)
  warm_owned bulk q (id ∷ ids) s = elim (read_rows bulk q (id ∷ ids)) [
    | err e ↦ (s, some e)
    | ok rows ↦ fill q.load_location rows s
  ]

  unfoldable pub warm_cache : BulkQueries R → Queries R → Store R → Store R × Option LoadError
  warm_cache bulk q s = elim bulk.room_ids [
    | none ↦ (s, some fetch_room_ids)
    | some ids ↦ warm_owned bulk q (keep (owns_room s) ids) s
  ]
