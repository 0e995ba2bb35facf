-- ===== src/Api/Events/Delivery.antt =====
-- What the device service does with an event that the API service published.
use climate_control.Prelude.{◌≡◌, refl, ap, String, Option, none, some, string_eq}
use climate_control.Prelude.Dict.{Dict, lookup}
use climate_control.Prelude.Result.{ok, err, or_err}
use climate_control.Cache.{Uuid, delete_room}
use climate_control.Appdb.Reload.{reload_room, reload_device}
use climate_control.Scheduler.{add_room, remove_room}
use climate_control.Stream.{
  Environment, Consumer, Message, FieldValue, DispatchError, reload_room_failed,
  reload_device_failed, bad_room_id, extract_string, extract_room_id, reloaded_room,
  on_room_created, on_room_deleted, on_room_reload, on_device_changed, ack_unless_failed,
  dispatch_event, dispatch,
}
use climate_control.Api.{
  Event, room_created, room_deleted, room_config_changed, desired_state_changed, schedule_changed,
  device_assigned, device_unassigned,
}
use climate_control.Api.Events.{event_values}

-- The room that an event is about.
abbrev pub room_of : Event → Uuid
room_of (room_created id) = id
room_of (room_deleted id) = id
room_of (room_config_changed id) = id
room_of (desired_state_changed id) = id
room_of (schedule_changed id) = id
room_of (device_assigned id hw_id) = id
room_of (device_unassigned id hw_id) = id

module _ {R : Type 0} (env : Environment R) where
  -- A new room is loaded, then started.
  abbrev started : Uuid → Consumer R → Consumer R × Option DispatchError
  started id c = elim (reload_room env.queries id c.store) [
    | ok s ↦ (record c { store = s; sched = add_room id c.sched }, none)
    | err e ↦ (c, some (reload_room_failed e))
  ]

  -- A device is reloaded, then its room.
  abbrev moved : Uuid → String → Consumer R → Consumer R × Option DispatchError
  moved id hw_id c = elim (reload_device env.queries hw_id c.store) [
    | ok s ↦ reloaded_room env id (record c { store = s })
    | err e ↦ (c, some (reload_device_failed e))
  ]

  -- What each event asks of the device service, in terms of rooms and devices.
  abbrev pub react : Event → Consumer R → Consumer R × Option DispatchError
  react (room_created id) c = started id c
  react (room_deleted id) c =
      (record c { store = delete_room id c.store; sched = remove_room id c.sched }, none)
  react (room_config_changed id) c = reloaded_room env id c
  react (desired_state_changed id) c = reloaded_room env id c
  react (schedule_changed id) c = reloaded_room env id c
  react (device_assigned id hw_id) c = moved id hw_id c
  react (device_unassigned id hw_id) c = moved id hw_id c

  module _ (v : Dict String FieldValue) (id : Uuid) (c : Consumer R)
      (k : extract_room_id env v ≡ ok id) where
    on_room_created_lem : on_room_created env v c ≡ started id c
    unfolding on_room_created
    on_room_created_lem = rw (on_room_created, k) refl

    on_room_deleted_lem : on_room_deleted env v c ≡ react (room_deleted id) c
    unfolding on_room_deleted
    on_room_deleted_lem = rw (on_room_deleted, k) refl

    on_room_reload_lem : on_room_reload env v c ≡ reloaded_room env id c
    unfolding on_room_reload
    on_room_reload_lem = rw (on_room_reload, k) refl

    on_device_changed_lem :
        (hw_id : String)
        → extract_string v "hw_id" ≡ ok hw_id
        → on_device_changed env v c ≡ moved id hw_id c
    unfolding on_device_changed
    on_device_changed_lem hw_id l = rw (on_device_changed, l, k) refl

  module _ (print_uuid : Uuid → String) (id : String) (c : Consumer R) where
    abbrev message : Event → Message
    message e = record { id = id; values = event_values print_uuid e }

    abbrev Parses : Event → Type 0
    Parses e = env.parse_uuid (print_uuid (room_of e)) ≡ some (room_of e)

    pub extract_room_id-event_values :
        (e : Event) → Parses e → extract_room_id env (event_values print_uuid e) ≡ ok (room_of e)
    unfolding extract_room_id extract_string event_values lookup
    extract_room_id-event_values (room_created r) h = ap (or_err bad_room_id) h
    extract_room_id-event_values (room_deleted r) h = ap (or_err bad_room_id) h
    extract_room_id-event_values (room_config_changed r) h = ap (or_err bad_room_id) h
    extract_room_id-event_values (desired_state_changed r) h = ap (or_err bad_room_id) h
    extract_room_id-event_values (schedule_changed r) h = ap (or_err bad_room_id) h
    extract_room_id-event_values (device_assigned r hw_id) h = ap (or_err bad_room_id) h
    extract_room_id-event_values (device_unassigned r hw_id) h = ap (or_err bad_room_id) h

    handled :
        (e : Event) → Parses e → dispatch env (message e) c ≡ ack_unless_failed env id (react e c)
    unfolding dispatch dispatch_event extract_string event_values lookup
    handled (room_created r) h =
        ap (ack_unless_failed env id)
          (on_room_created_lem _ r c (extract_room_id-event_values (room_created r) h))
    handled (room_deleted r) h =
        ap (ack_unless_failed env id)
          (on_room_deleted_lem _ r c (extract_room_id-event_values (room_deleted r) h))
    handled (room_config_changed r) h =
        ap (ack_unless_failed env id)
          (on_room_reload_lem _ r c (extract_room_id-event_values (room_config_changed r) h))
    handled (desired_state_changed r) h =
        ap (ack_unless_failed env id)
          (on_room_reload_lem _ r c (extract_room_id-event_values (desired_state_changed r) h))
    handled (schedule_changed r) h =
        ap (ack_unless_failed env id)
          (on_room_reload_lem _ r c (extract_room_id-event_values (schedule_changed r) h))
    handled (device_assigned r hw_id) h = ap (ack_unless_failed env id) (
        on_device_changed_lem _ r c (extract_room_id-event_values (device_assigned r hw_id) h) hw_id
          refl)
    handled (device_unassigned r hw_id) h = ap (ack_unless_failed env id) (
        on_device_changed_lem _ r c (extract_room_id-event_values (device_unassigned r hw_id) h)
          hw_id refl)

  -- Let the device service parse the text of the event's room ID back to that ID. The message of an
  -- event that the API service published is then dispatched to what the event asks for, with its own
  -- room and device: a new room is loaded and started, a deleted one dropped and stopped, a changed
  -- one reloaded, and a device that moved is reloaded before its room. The message is acknowledged
  -- unless a reload failed.
  pub dispatch-event_values :
      (print_uuid : Uuid → String) (e : Event) (id : String) (c : Consumer R)
      → env.parse_uuid (print_uuid (room_of e)) ≡ some (room_of e)
      → dispatch env (record { id = id; values = event_values print_uuid e }) c
        ≡ ack_unless_failed env id (react e c)
  dispatch-event_values print_uuid e id c h = handled print_uuid id c e h
