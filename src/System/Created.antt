-- ===== src/System/Created.antt =====
-- A room from its creation in the API service to its loops in the device service.
use climate_control.Prelude.{◌≡◌, refl, String, some, ◌∷◌, string_eq}
use climate_control.Prelude.Dict.{lookup}
use climate_control.Prelude.Result.{ok}
use climate_control.Float.{Float64}
use climate_control.Cache.{Uuid, Store}
use climate_control.Appdb.Reload.{reload_room}
use climate_control.Scheduler.{Loop}
use climate_control.Scheduler.Running.{running}
use climate_control.Stream.{Environment, Consumer, extract_string, dispatch}
use climate_control.Stream.Lifecycle.{dispatch-room_created}
use climate_control.Api.{Event, room_created, ServiceState}
use climate_control.Api.Events.{event_values}
use climate_control.Api.Events.Delivery.{extract_room_id-event_values}
use climate_control.Api.Rooms.{RoomModel, RoomTables, create_room}
use climate_control.Api.RoomHandler.Unchanged.{create_room-events}
use climate_control.System.Sound.{Running, Running-IsSane}

module _ {R D E : Type 0} ⦃f : Float64 R⦄ (db : RoomTables R D E) (env : Environment R)
    (print_uuid : Uuid → String) where
  -- Let `Create` of the rooms' service succeed, and let a running device service parse the text of
  -- the new room's ID back to that ID and reload the room. Then `Create` has published one event, and
  -- once the device service has dispatched its message, the store is the reloaded one, exactly one
  -- control loop and one cache refresh of the room run, and the message is acknowledged.
  pub create_room-running :
      (user_id : Uuid) (name : String) (w w' : ServiceState D) (rm : RoomModel R) (id : String)
      {c : Consumer R} (s : Store R)
      → create_room db user_id name w ≡ ok (rm, w')
      → Running c
      → env.parse_uuid (print_uuid rm.id) ≡ some rm.id
      → reload_room env.queries rm.id c.store ≡ ok s
      → (e : Event) × (w'.events ≡ e ∷ w.events)
        × (let c' = dispatch env (record { id = id; values = event_values print_uuid e }) c in
            (c'.store ≡ s)
            × ((l : Loop) → running l rm.id c'.sched.cancelled c'.sched.goroutines ≡ 1)
            × (c'.acked ≡ id ∷ c.acked))
  unfolding extract_string event_values lookup
  create_room-running user_id name w w' rm id {c} s h r parses reloads = (
    room_created rm.id,
    create_room-events db user_id name w w' rm h,
    dispatch-room_created env
        (record { id = id; values = event_values print_uuid (room_created rm.id) }) c rm.id s
        (Running-IsSane r).sched refl
        (extract_room_id-event_values env print_uuid id c (room_created rm.id) parses) reloads,
  )
