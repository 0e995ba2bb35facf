-- ===== src/Api/Devices/Service.antt =====
-- service.go: what creates, updates and deletes a device. `Create` and `Update` end with a query,
-- which can fail after the change was made: they return the state beside the result.
use climate_control.Prelude.{
  String, Bool, true, false, not, Option, none, some, [], ◌==◌, nat_eq, if◌then◌else◌,
}
use climate_control.Prelude.Result.{Result, ok, err, ◌>>=◌, wrap_err}
use climate_control.Cache.{Uuid}
use climate_control.Api.{device_assigned, device_unassigned, ServiceState, publish, set_db}
use climate_control.Api.Rooms.{RoomTables, get_room}
use climate_control.Api.Conflict.{
  DeviceModel, DeviceWithCapabilities, ConflictQueries, has_capability_conflict_after_removal,
}
use climate_control.Api.Devices.{
  DeviceError, room_not_found, invalid_sensor, duplicate_sensor, invalid_actuator,
  duplicate_actuator, capability_conflict, database, DeviceTables, CreateInput, UpdateInput,
  device_name_taken_error, valid_sensor_type, valid_actuator_type, check_types, get_device,
  check_hw_id_availability, insert_device,
}

-- dev.RoomID != nil && (input.RoomID == nil || *input.RoomID != *dev.RoomID)
unfoldable pub leaving_room : Option Uuid → Option Uuid → Bool
leaving_room none input = false
leaving_room (some r) none = true
leaving_room (some r) (some i) = not (i == r)

-- input.RoomID != nil && (dev.RoomID == nil || *input.RoomID != *dev.RoomID)
unfoldable pub entering_room : Option Uuid → Option Uuid → Bool
entering_room room_id none = false
entering_room none (some i) = true
entering_room (some r) (some i) = not (i == r)

-- *p, where the tests have made sure that p is not nil
abbrev pub deref : Option Uuid → Uuid
deref none = 0
deref (some r) = r

module _ {R D E : Type 0} (db : DeviceTables D E) (rooms : RoomTables R D E)
    (q : ConflictQueries R D E) where
  unfoldable pub inserted_device : Uuid → CreateInput → D → Result (DeviceError E) (DeviceModel × D)
  inserted_device user_id input d = do
    _ ← check_types valid_sensor_type invalid_sensor duplicate_sensor [] input.sensor_types
    _ ← check_types valid_actuator_type invalid_actuator duplicate_actuator [] input.actuator_types
    _ ← check_hw_id_availability db input.hw_id user_id d
    insert_device db
        (record {
          id = 0;
          user_id = user_id;
          room_id = none;
          name = input.name;
          hw_id = input.hw_id;
          device_type = input.device_type;
        })
        input.sensor_types input.actuator_types d

  unfoldable pub create_device :
      Uuid
      → CreateInput
      → ServiceState D
      → Result (DeviceError E) DeviceWithCapabilities × ServiceState D
  create_device user_id input w = elim (inserted_device user_id input w.db) [
    | err e ↦ (err e, w)
    | ok (dev, d) ↦ (get_device db dev.id user_id d, set_db d w)
  ]

  -- any error of the room's query becomes ErrRoomNotFound
  unfoldable pub check_room : Option Uuid → Uuid → D → Result {0, 0} (DeviceError E) Unit
  check_room none user_id d = ok tt
  check_room (some id) user_id d =
      wrap_err (λ _. room_not_found) (get_room rooms id user_id d) >>= λ _. ok tt

  unfoldable pub check_conflict : Bool → Uuid → Uuid → D → Result {0, 0} (DeviceError E) Unit
  check_conflict leaving room_id id d =
      if leaving
      then (wrap_err database (has_capability_conflict_after_removal q room_id id d) >>= λ conflict.
          if conflict then err capability_conflict else ok tt)
      else ok tt

  -- The two notifications.
  unfoldable pub notify_moves : Option Uuid → Option Uuid → String → ServiceState D → ServiceState D
  notify_moves prev next hw_id w =
      let w1 =
        if leaving_room prev next then publish (device_unassigned (deref prev) hw_id) w else w in
      if entering_room prev next then publish (device_assigned (deref next) hw_id) w1 else w1

  -- `Service.Update` up to its last query.
  unfoldable pub move_device :
      Uuid → Uuid → UpdateInput → ServiceState D → Result (DeviceError E) (ServiceState D)
  move_device id user_id input w = do
    dev ← get_device db id user_id w.db
    _ ← check_room input.room_id user_id w.db
    _ ←
        check_conflict (leaving_room dev.device.room_id input.room_id) (deref dev.device.room_id) id
          w.db
    d ←
        wrap_err device_name_taken_error
          (db.save_device (record dev.device { name = input.name; room_id = input.room_id }) w.db)
    ok (notify_moves dev.device.room_id input.room_id dev.device.hw_id (set_db d w))

  unfoldable pub update_device :
      Uuid
      → Uuid
      → UpdateInput
      → ServiceState D
      → Result (DeviceError E) DeviceWithCapabilities × ServiceState D
  update_device id user_id input w = elim (move_device id user_id input w) [
    | err e ↦ (err e, w)
    | ok w' ↦ (get_device db id user_id w'.db, w')
  ]

  -- dev.RoomID != nil
  unfoldable pub assigned : Option Uuid → Bool
  assigned none = false
  assigned (some r) = true

  unfoldable pub delete_owned_device :
      Uuid → Uuid → ServiceState D → Result (DeviceError E) (ServiceState D)
  delete_owned_device id user_id w = do
    dev ← get_device db id user_id w.db
    _ ← check_conflict (assigned dev.device.room_id) (deref dev.device.room_id) id w.db
    d ← wrap_err database (db.delete_device id w.db)
    ok (set_db d w)
