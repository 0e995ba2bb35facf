-- ===== src/Appdb/Reload/Effect.antt =====
-- What a reload does to the store, and what the next tick sends to a reloaded room.
use climate_control.Prelude.{
  ◌≡◌, refl, ◌∙◌, ap, String, Bool, false, Option, none, some, List, [], ◌==◌, nat_eq, string_eq,
  eq_refl, inl, inr, ◌⊎◌, arith,
}
use climate_control.Prelude.Dict.{Dict}
use climate_control.Prelude.Result.{ok, Result-cases}
use climate_control.Cache.{
  Uuid, TimestampedReading, SchedulePeriodCache, RoomCache, Store, room, device, add_room,
  delete_room, add_device, delete_device,
}
use climate_control.Cache.Laws.{
  room-add_room, room-delete_room, device-add_room, device-delete_room,
}
use climate_control.Appdb.{RoomRow, DeviceRow, Queries}
use climate_control.Appdb.Assembly.{build_room_cache}
use climate_control.Appdb.Reload.{
  fetch_room_row, load_room, keep_runtime, reload_row, reload_room, fetch_device_row,
  reload_device_row, reload_device,
}

module _ {R : Type 0} (q : Queries R) where
  reload_device_row-rooms :
      (hw_id : String) (s s' : Store R) (row : Option DeviceRow)
      → reload_device_row q hw_id s row ≡ ok s'
      → s'.rooms ≡ s.rooms
  unfolding reload_device_row add_device delete_device
  reload_device_row-rooms hw_id s s' row h = ground arith

  -- A reload of a device leaves the rooms alone.
  pub reload_device-rooms :
      (hw_id : String) (s s' : Store R) → reload_device q hw_id s ≡ ok s' → s'.rooms ≡ s.rooms
  unfolding reload_device
  reload_device-rooms hw_id s s' h = elim (Result-cases (fetch_device_row q hw_id)) [
    | inl (row, e) ↦ reload_device_row-rooms hw_id s s' row (ground (arith, h, e))
    | inr (x, e) ↦ absurd (ground (arith, h, e))
  ]

module _ {R : Type 0} (q : Queries R) (id : Uuid) where
  -- A built entry starts with empty runtime fields.
  load_room-blank :
      (rm : RoomRow R) (rc : RoomCache R)
      → load_room q id rm ≡ ok rc
      → rc ≡ record rc { actuator_states = []; latest_readings = []; last_active_period = none }
  unfolding load_room build_room_cache
  load_room-blank rm rc h = ground arith

  -- How a reload that succeeds ends.
  pub data Reloaded (s s' : Store R) : Type 0 where
    gone : fetch_room_row q id ≡ ok none → s' ≡ delete_room id s → Reloaded s s'
    loaded :
        (rm : RoomRow R) (rc : RoomCache R)
        → fetch_room_row q id ≡ ok (some rm)
        → load_room q id rm ≡ ok rc
        → s' ≡ add_room id (keep_runtime (room s id) rc) s
        → Reloaded s s'

  reload_row-Reloaded :
      (s s' : Store R) (o : Option (RoomRow R))
      → fetch_room_row q id ≡ ok o
      → reload_row q id s o ≡ ok s'
      → Reloaded s s'
  unfolding reload_row
  reload_row-Reloaded s s' none e h = gone e (cc h)
  reload_row-Reloaded s s' (some rm) e h = elim (Result-cases (load_room q id rm)) [
    | inl (rc, l) ↦ loaded rm rc e l (cc (rw l at h))
    | inr (x, l) ↦ cc (rw l at h)
  ]

  pub reload_room-Reloaded : (s s' : Store R) → reload_room q id s ≡ ok s' → Reloaded s s'
  unfolding reload_room
  reload_room-Reloaded s s' h = elim (Result-cases (fetch_room_row q id)) [
    | inl (o, e) ↦ reload_row-Reloaded s s' o e (rw e at h)
    | inr (x, e) ↦ cc (rw e at h)
  ]

  -- A reload of a room changes no other room and no device.
  pub reload_room_frame :
      (s s' : Store R)
      → reload_room q id s ≡ ok s'
      → ((j : Uuid) → (id == j) ≡ false → room s' j ≡ room s j)
        × ((h : String) → device s' h ≡ device s h)
  reload_room_frame s s' h = go (reload_room-Reloaded s s' h)
    where
      go :
          Reloaded s s'
          → ((j : Uuid) → (id == j) ≡ false → room s' j ≡ room s j)
            × ((h : String) → device s' h ≡ device s h)
      go (gone e p) =
          rw p ((λ j ne. rw (room-delete_room s id j, ne)), (λ k. device-delete_room s id k))
      go (loaded rm rc e l p) = rw p (
        (λ j ne. rw (room-add_room s id j (keep_runtime (room s id) rc), ne)),
        (λ k. device-add_room s id k (keep_runtime (room s id) rc)),
      )

  -- The three runtime fields of an entry.
  abbrev pub runtime :
      RoomCache R
      → Dict String Bool
        × Dict String (List (TimestampedReading R))
        × Option (SchedulePeriodCache R)
  runtime rc = (rc.actuator_states, rc.latest_readings, rc.last_active_period)

  -- A reload of a cached room that succeeds removes the room if the database has no row for it, and
  -- else leaves an entry with the old entry's actuator states, readings and last active period, whose
  -- other fields are those of the entry built from the database's rows.
  pub reload_room-keeps_runtime :
      (s s' : Store R) (old : RoomCache R)
      → room s id ≡ some old
      → reload_room q id s ≡ ok s'
      → ((fetch_room_row q id ≡ ok none) × (room s' id ≡ none))
        ⊎ ((rm : RoomRow R) × (new : RoomCache R) × (fetch_room_row q id ≡ ok (some rm))
            × (room s' id ≡ some new)
            × (runtime new ≡ runtime old)
            × (load_room q id rm
                ≡ ok (record new {
                  actuator_states = [];
                  latest_readings = [];
                  last_active_period = none;
                })))
  reload_room-keeps_runtime s s' old cached h = go (reload_room-Reloaded s s' h)
    where
      go :
          Reloaded s s'
          → ((fetch_room_row q id ≡ ok none) × (room s' id ≡ none))
            ⊎ ((rm : RoomRow R) × (new : RoomCache R) × (fetch_room_row q id ≡ ok (some rm))
                × (room s' id ≡ some new)
                × (runtime new ≡ runtime old)
                × (load_room q id rm
                    ≡ ok (record new {
                      actuator_states = [];
                      latest_readings = [];
                      last_active_period = none;
                    })))
      go (gone e p) = inl (e, rw p (rw (room-delete_room s id id, eq_refl id)))
      go (loaded rm rc e l p) = inr (
        rm,
        keep_runtime (some old) rc,
        e,
        rw p (rw (room-add_room s id id (keep_runtime (room s id) rc), eq_refl id, cached)),
        unfold keep_runtime in refl,
        unfold keep_runtime in (l ∙ ap ok (load_room-blank rm rc l)),
      )
