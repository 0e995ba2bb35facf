-- ===== src/Examples/Consuming.antt =====
-- Concrete runs of the consumer of the cache invalidation stream.
use climate_control.Prelude.{◌≡◌, refl, Option, none, some, List, [], ◌∷◌, string_eq, take, arith}
use climate_control.Prelude.Int.{ℤ}
use climate_control.Prelude.Dict.{lookup}
use climate_control.Float.{hundredths}
use climate_control.Stream.{
  text, Message, Environment, Consumer, missing_field, extract_string, extract_room_id,
  dispatch_event, dispatch, drain_pending,
}
use climate_control.Stream.Drain.{IsPoison, unacked, drain_pending-poison}
use climate_control.Stream.Termination.{AlwaysAcks, drain_pending-ends}
use climate_control.Examples.{sample_store}
use climate_control.Examples.Scheduling.{sample_scheduler, sample_scheduler-Reachable}
use climate_control.Examples.Loading.{sample_queries}
use climate_control.Cache.{room}
use climate_control.Scheduler.{Loop}
use climate_control.Scheduler.Running.{running}
use climate_control.Stream.{on_room_deleted, ack_unless_failed}
use climate_control.Stream.Failure.{RoomsUnchanged, dispatch-RoomsUnchanged}
use climate_control.Stream.Lifecycle.{dispatch-room_deleted}

-- A deletion of a room whose room_id is missing, and an event that has no handler.
abbrev poison_message : Message
poison_message = record { id = "1-0"; values = ("event", text "room_deleted") ∷ [] }

abbrev unknown_message : Message
unknown_message = record { id = "2-0"; values = ("event", text "tea_time") ∷ [] }

abbrev pub environment : Environment ℤ
environment = record { queries = sample_queries; parse_uuid = λ s. none }

abbrev pub consumer : Consumer ℤ
consumer = record { store = sample_store; sched = sample_scheduler; acked = [] }

abbrev read_first : List Message → Consumer ℤ → Option (List Message)
read_first pending c = some (take 10 (unacked pending c.acked))

poison_message-IsPoison : IsPoison environment poison_message
unfolding extract_string extract_room_id lookup
poison_message-IsPoison = record {
  event = "room_deleted";
  has_event = refl;
  handled = refl;
  error = missing_field;
  no_room = refl;
}

drain_pending-poison_example :
    drain_pending environment (read_first (unknown_message ∷ poison_message ∷ [])) 50 consumer
    ≡ none
drain_pending-poison_example =
    drain_pending-poison environment (unknown_message ∷ []) [] poison_message
      (read_first (unknown_message ∷ poison_message ∷ [])) (λ c. refl) poison_message-IsPoison
      (refl, tt) tt 50 consumer refl

unknown_message-AlwaysAcks : AlwaysAcks environment unknown_message
unfolding dispatch dispatch_event extract_string lookup
unknown_message-AlwaysAcks c = refl

drain_pending-ends_example :
    (c' : Consumer ℤ) × (drain_pending environment (read_first (unknown_message ∷ [])) 2 consumer
      ≡ some c')
    × (unacked (unknown_message ∷ []) c'.acked ≡ [])
drain_pending-ends_example =
    drain_pending-ends environment (unknown_message ∷ []) (read_first (unknown_message ∷ []))
      (λ c. refl) (unknown_message-AlwaysAcks, tt) 2 consumer (omega arith)

dispatch-RoomsUnchanged_example :
    RoomsUnchanged environment consumer (dispatch environment poison_message consumer)
unfolding dispatch dispatch_event on_room_deleted ack_unless_failed extract_string extract_room_id
    lookup
dispatch-RoomsUnchanged_example = dispatch-RoomsUnchanged environment poison_message consumer refl

-- The environment in which every text is the ID of room 1.
abbrev pub environment_of_one : Environment ℤ
environment_of_one = record { queries = sample_queries; parse_uuid = λ s. some 1 }

abbrev pub deleted_message : Message
deleted_message = record {
  id = "3-0";
  values = ("event", text "room_deleted") ∷ ("room_id", text "one") ∷ [];
}

dispatch-room_deleted_example :
    let c' = dispatch environment_of_one deleted_message consumer in
    (room c'.store 1 ≡ none)
    × ((l : Loop) → running l 1 c'.sched.cancelled c'.sched.goroutines ≡ 0)
    × (c'.acked ≡ "3-0" ∷ [])
unfolding extract_string extract_room_id lookup
dispatch-room_deleted_example =
    dispatch-room_deleted environment_of_one deleted_message consumer 1 sample_scheduler-Reachable
      refl refl
