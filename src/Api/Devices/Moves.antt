-- ===== src/Api/Devices/Moves.antt =====
-- The events of the changes to a device, and what they have checked.
use climate_control.Prelude.{
  ◌≡◌, refl, ◌⊎◌, inl, inr, String, true, false, Option, none, some, List, [], ◌∷◌, ◌++◌, ◌==◌,
  nat_eq, string_eq, Bool-cases, if◌then◌else◌, arith,
}
use climate_control.Prelude.Result.{ok, Result-cases}
use climate_control.Cache.{Uuid}
use climate_control.Api.{Event, device_assigned, device_unassigned, ServiceState, set_db}
use climate_control.Api.Rooms.{RoomTables}
use climate_control.Api.Conflict.{
  DeviceWithCapabilities, ConflictQueries, has_capability_conflict_after_removal,
}
use climate_control.Api.Devices.{DeviceTables, UpdateInput, get_device}
use climate_control.Api.Devices.Service.{
  leaving_room, entering_room, deref, check_room, check_conflict, notify_moves, move_device,
  assigned, delete_owned_device,
}

-- The events of a move, the last one first: one for the room that the device left and one for the
-- room it joined.
abbrev pub move_events : Option Uuid → Option Uuid → String → List Event
move_events none none hw_id = []
move_events none (some n) hw_id = device_assigned n hw_id ∷ []
move_events (some p) none hw_id = device_unassigned p hw_id ∷ []
move_events (some p) (some n) hw_id =
    if n == p then [] else device_assigned n hw_id ∷ device_unassigned p hw_id ∷ []

module _ {R D E : Type 0} (db : DeviceTables D E) (rooms : RoomTables R D E)
    (q : ConflictQueries R D E) where
  notify_moves-events :
      (prev next : Option Uuid) (hw_id : String) (w : ServiceState D)
      → (notify_moves db rooms q prev next hw_id w).events ≡ move_events prev next hw_id ++ w.events
  unfolding notify_moves leaving_room entering_room
  notify_moves-events none none hw_id w = refl
  notify_moves-events none (some n) hw_id w = refl
  notify_moves-events (some p) none hw_id w = refl
  notify_moves-events (some p) (some n) hw_id w = ground arith

  -- The room that a device leaves can do without it.
  abbrev pub CanLeave : Uuid → Option Uuid → Option Uuid → D → Type 0
  CanLeave id none next d = Unit
  CanLeave id (some p) none d = has_capability_conflict_after_removal q p id d ≡ ok false
  CanLeave id (some p) (some n) d =
      (n ≡ p) ⊎ (has_capability_conflict_after_removal q p id d ≡ ok false)

  check_conflict_lem :
      (room_id id : Uuid) (d : D)
      → check_conflict db rooms q true room_id id d ≡ ok tt
      → has_capability_conflict_after_removal q room_id id d ≡ ok false
  unfolding check_conflict
  check_conflict_lem room_id id d h = ground (arith, h)

  leaving-CanLeave :
      (id : Uuid) (prev next : Option Uuid) (d : D)
      → check_conflict db rooms q (leaving_room prev next) (deref prev) id d ≡ ok tt
      → CanLeave id prev next d
  unfolding leaving_room
  leaving-CanLeave id none next d h = tt
  leaving-CanLeave id (some p) none d h = check_conflict_lem p id d h
  leaving-CanLeave id (some p) (some n) d h = elim (Bool-cases (n == p)) [
    | inl e ↦ inl (ground (arith, e))
    | inr e ↦ inr (check_conflict_lem p id d (ground (arith, h, e)))
  ]

  assigned-CanLeave :
      (id : Uuid) (prev : Option Uuid) (d : D)
      → check_conflict db rooms q (assigned db rooms q prev) (deref prev) id d ≡ ok tt
      → CanLeave id prev none d
  unfolding assigned
  assigned-CanLeave id none d h = tt
  assigned-CanLeave id (some p) d h = check_conflict_lem p id d h

  -- If `Update` saves a device, then the device was found for the user, the room that it leaves, if
  -- it leaves one, has no conflict without it, and the events published are those of the move from
  -- its old room to the new one: none if the room stays the same.
  pub move_device-events :
      (id user_id : Uuid) (input : UpdateInput) (w w' : ServiceState D)
      → move_device db rooms q id user_id input w ≡ ok w'
      → (dev : DeviceWithCapabilities) × (get_device db id user_id w.db ≡ ok dev)
        × CanLeave id dev.device.room_id input.room_id w.db
        × (w'.events ≡ move_events dev.device.room_id input.room_id dev.device.hw_id ++ w.events)
  unfolding move_device
  move_device-events id user_id input w w' h = elim (Result-cases (get_device db id user_id w.db)) [
    | inr (x, a) ↦ absurd (ground (arith, h, a))
    | inl (dev, a) ↦ elim (Result-cases (check_room db rooms q input.room_id user_id w.db)) [
      | inr (x, b) ↦ absurd (ground (arith, h, a, b))
      | inl (u, b) ↦
          elim (Result-cases (
            check_conflict db rooms q (leaving_room dev.device.room_id input.room_id)
              (deref dev.device.room_id) id w.db)) [
                | inr (x, c) ↦ absurd (ground (arith, h, a, b, c))
                | inl (v, c) ↦
                    elim (Result-cases (
                      db.save_device
                        (record dev.device { name = input.name; room_id = input.room_id }) w.db)) [
                          | inr (x, k) ↦ absurd (ground (arith, h, a, b, c, k))
                          | inl (d, k) ↦ (
                            dev,
                            a,
                            leaving-CanLeave id dev.device.room_id input.room_id w.db c,
                            ground (
                              arith,
                              h,
                              a,
                              b,
                              c,
                              k,
                              notify_moves-events dev.device.room_id input.room_id dev.device.hw_id
                                  (set_db d w),
                            ),
                          )
                        ]
              ]
    ]
  ]

  -- If `Delete` succeeds, then the device was found for the user, the room that it was in, if any,
  -- has no conflict without it, and no event was published, also for a device that was in a room.
  pub delete_owned_device-events :
      (id user_id : Uuid) (w w' : ServiceState D)
      → delete_owned_device db rooms q id user_id w ≡ ok w'
      → (dev : DeviceWithCapabilities) × (get_device db id user_id w.db ≡ ok dev)
        × CanLeave id dev.device.room_id none w.db
        × (w'.events ≡ w.events)
  unfolding delete_owned_device assigned
  delete_owned_device-events id user_id w w' h =
      elim (Result-cases (get_device db id user_id w.db)) [
        | inr (x, a) ↦ absurd (ground (arith, h, a))
        | inl (dev, a) ↦
            elim (Result-cases (
              check_conflict db rooms q (assigned db rooms q dev.device.room_id)
                (deref dev.device.room_id) id w.db)) [
                  | inr (x, c) ↦ absurd (ground (arith, h, a, c))
                  | inl (v, c) ↦ elim (Result-cases (db.delete_device id w.db)) [
                    | inr (x, k) ↦ absurd (ground (arith, h, a, c, k))
                    | inl (d, k) ↦ (
                      dev,
                      a,
                      assigned-CanLeave id dev.device.room_id w.db c,
                      ground (arith, h, a, c, k),
                    )
                  ]
                ]
      ]
