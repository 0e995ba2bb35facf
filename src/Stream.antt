-- ===== src/Stream.antt =====
-- device-service/internal/stream/consumer.go: the consumer of the cache invalidation stream. Redis,
-- uuid.Parse and the database are parameters. The state is the store, the scheduler and the IDs that
-- an XACK was sent for. A message is dispatched in one step. Logging is left out.
pub mod Termination
pub mod Drain
pub mod Failure
pub mod Lifecycle
use climate_control.Prelude.{
  ℕ, zero, suc, String, Bool, true, false, ◌||◌, Option, none, some, List, [], ◌∷◌, ◌==◌, string_eq,
  nat_eq, if◌then◌else◌,
}
use climate_control.Prelude.Dict.{Dict, lookup}
use climate_control.Prelude.Result.{Result, ok, err, ◌>>=◌, or_err}
use climate_control.Cache.{Uuid, Store, delete_room}
use climate_control.Appdb.{Queries, LoadError}
use climate_control.Appdb.Reload.{reload_room, reload_device}
use climate_control.Scheduler.{Scheduler, add_room, remove_room}

-- A field of a message; the client library types it `any`.
pub data FieldValue : Type 0 where
  text : String → FieldValue
  other : FieldValue

pub record Message : Type 0 where
  pub id : String
  pub values : Dict String FieldValue

pub data DispatchError : Type 0 where
  missing_field not_a_string bad_room_id : DispatchError
  reload_room_failed reload_device_failed : LoadError → DispatchError

pub record Environment (R : Type 0) : Type 0 where
  pub queries : Queries R
  pub parse_uuid : String → Option Uuid  -- uuid.Parse

pub record Consumer (R : Type 0) : Type 0 where
  pub store : Store R
  pub sched : Scheduler
  pub acked : List String

unfoldable pub extract_string : Dict String FieldValue → String → Result DispatchError String
extract_string values key = elim (lookup key values) [
  | none ↦ err missing_field
  | some (text s) ↦ ok s
  | some other ↦ err not_a_string
]

module _ {R : Type 0} (env : Environment R) where
  unfoldable pub extract_room_id : Dict String FieldValue → Result DispatchError Uuid
  extract_room_id values =
      extract_string values "room_id" >>= λ s. or_err bad_room_id (env.parse_uuid s)

  -- A handler returns the state and its error, nil as `none`.
  unfoldable pub reloaded_room : Uuid → Consumer R → Consumer R × Option DispatchError
  reloaded_room id c = elim (reload_room env.queries id c.store) [
    | ok s ↦ (record c { store = s }, none)
    | err e ↦ (c, some (reload_room_failed e))
  ]

  unfoldable pub on_room_created :
      Dict String FieldValue → Consumer R → Consumer R × Option DispatchError
  on_room_created values c = elim (extract_room_id values) [
    | err e ↦ (c, some e)
    | ok id ↦ elim (reload_room env.queries id c.store) [
      | err e ↦ (c, some (reload_room_failed e))
      | ok s ↦ (record c { store = s; sched = add_room id c.sched }, none)
    ]
  ]

  unfoldable pub on_room_deleted :
      Dict String FieldValue → Consumer R → Consumer R × Option DispatchError
  on_room_deleted values c = elim (extract_room_id values) [
    | err e ↦ (c, some e)
    | ok id ↦ (record c { store = delete_room id c.store; sched = remove_room id c.sched }, none)
  ]

  unfoldable pub on_room_reload :
      Dict String FieldValue → Consumer R → Consumer R × Option DispatchError
  on_room_reload values c = elim (extract_room_id values) [
    | err e ↦ (c, some e)
    | ok id ↦ reloaded_room id c
  ]

  -- the device's reload stays in the store if the room's fails
  unfoldable pub on_device_changed :
      Dict String FieldValue → Consumer R → Consumer R × Option DispatchError
  on_device_changed values c = elim (extract_string values "hw_id") [
    | err e ↦ (c, some e)
    | ok hw_id ↦ elim (extract_room_id values) [
      | err e ↦ (c, some e)
      | ok id ↦ elim (reload_device env.queries hw_id c.store) [
        | err e ↦ (c, some (reload_device_failed e))
        | ok s ↦ reloaded_room id (record c { store = s })
      ]
    ]
  ]

  abbrev pub ack : String → Consumer R → Consumer R
  ack id c = record c { acked = id ∷ c.acked }

  -- XACK, unless the handler returned an error
  unfoldable pub ack_unless_failed : String → Consumer R × Option DispatchError → Consumer R
  ack_unless_failed id (c, none) = ack id c
  ack_unless_failed id (c, some e) = c

  unfoldable pub dispatch_event : Message → String → Consumer R → Consumer R
  dispatch_event msg event c =
      if event == "room_created"
      then ack_unless_failed msg.id (on_room_created msg.values c)
      else if event == "room_deleted"
      then ack_unless_failed msg.id (on_room_deleted msg.values c)
      else if event == "room_config_changed"
          || event == "desired_state_changed"
          || event == "schedule_changed"
      then ack_unless_failed msg.id (on_room_reload msg.values c)
      else if event == "device_assigned" || event == "device_unassigned"
      then ack_unless_failed msg.id (on_device_changed msg.values c)
      else ack msg.id c

  unfoldable pub dispatch : Message → Consumer R → Consumer R
  dispatch msg c = elim (extract_string msg.values "event") [
    | err e ↦ ack msg.id c
    | ok event ↦ dispatch_event msg event c
  ]

  unfoldable pub dispatch_all : List Message → Consumer R → Consumer R
  dispatch_all [] c = c
  dispatch_all (m ∷ ms) c = dispatch_all ms (dispatch m c)

  -- `drainPending` on fuel, one unit for each read; `none` means that the fuel ran out. `read` is what
  -- an XREADGROUP from "0-0" returns at that point, or `none` for its error.
  unfoldable pub drain_pending :
      (Consumer R → Option (List Message)) → ℕ → Consumer R → Option (Consumer R)
  drain_pending read zero c = none
  drain_pending read (suc fuel) c = elim (read c) [
    | none ↦ some c
    | some [] ↦ some c
    | some (m ∷ ms) ↦ drain_pending read fuel (dispatch_all (m ∷ ms) c)
  ]
