-- ===== src/Api/Events.antt =====
-- api-service/internal/events/events.go: the fields of each event, which Redis hands to the consumer
-- as texts. uuid.UUID's String is a parameter.
pub mod Delivery
use climate_control.Prelude.{String, List, [], ◌∷◌}
use climate_control.Prelude.Dict.{Dict}
use climate_control.Cache.{Uuid}
use climate_control.Stream.{FieldValue, text}
use climate_control.Api.{
  Event, room_created, room_deleted, room_config_changed, desired_state_changed, schedule_changed,
  device_assigned, device_unassigned,
}

module _ (print_uuid : Uuid → String) where
  abbrev room_values : String → Uuid → Dict String FieldValue
  room_values event id = ("event", text event) ∷ ("room_id", text (print_uuid id)) ∷ []

  abbrev device_values : String → Uuid → String → Dict String FieldValue
  device_values event id hw_id =
      ("event", text event) ∷ ("room_id", text (print_uuid id)) ∷ ("hw_id", text hw_id) ∷ []

  unfoldable pub event_values : Event → Dict String FieldValue
  event_values (room_created id) = room_values "room_created" id
  event_values (room_deleted id) = room_values "room_deleted" id
  event_values (room_config_changed id) = room_values "room_config_changed" id
  event_values (desired_state_changed id) = room_values "desired_state_changed" id
  event_values (schedule_changed id) = room_values "schedule_changed" id
  event_values (device_assigned id hw_id) = device_values "device_assigned" id hw_id
  event_values (device_unassigned id hw_id) = device_values "device_unassigned" id hw_id
