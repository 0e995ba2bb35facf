-- ===== src/Scheduler/Tick.antt =====
-- device-service/internal/scheduler/scheduler.go: `tick`. Encoding a command as JSON and publishing it
-- over MQTT are parameters, each of which may fail; so is the write of the log entry, whose error is
-- only logged. The tick is one step: no other goroutine runs between its parts.
pub mod States
pub mod Again
use Prim.Native.String.{◌++◌ as append}
use climate_control.Prelude.{
  ℕ, String, Bool, true, false, Option, none, some, List, [], ◌∷◌, ◌==◌, nat_eq, string_eq,
  if◌then◌else◌,
}
use climate_control.Prelude.Dict.{Dict, insert}
use climate_control.Float.{Float64}
use climate_control.Time.{Instant, Duration}
use climate_control.Cache.{Uuid, SchedulePeriodCache, RoomCache, Store, room, add_room}
use climate_control.Control.{ActuatorCommand, ControlLogEntry, TickResult}
use climate_control.Control.Evaluate.{evaluate}

-- The two transports: json.Marshal of a command, and mqttClient.Publish with topic, QoS and payload.
pub record Transport : Type 0 where
  pub marshal_payload : ActuatorCommand → Option String
  pub publish : String → ℕ → String → Bool

-- fmt.Sprintf("devices/%s/cmd", hw_id)
abbrev pub cmd_topic : String → String
cmd_topic hw_id = append "devices/" (append hw_id "/cmd")

-- The command is encoded and its publish succeeds.
unfoldable pub delivered : Transport → ActuatorCommand → Bool
delivered tr cmd = elim (tr.marshal_payload cmd) [
  | none ↦ false
  | some payload ↦ tr.publish (cmd_topic cmd.hw_id) 2 payload
]

-- the loop over the commands: the map of states after it
unfoldable pub publish_commands :
    Transport → List ActuatorCommand → Dict String Bool → Dict String Bool
publish_commands tr [] states = states
publish_commands tr (cmd ∷ cmds) states =
    publish_commands tr cmds
      (if delivered tr cmd then insert cmd.actuator_type cmd.state states else states)

module _ {R : Type 0} where
  -- rc.LastActivePeriod is set if the result has a period, and else left alone
  abbrev pub remembered :
      Option (SchedulePeriodCache R)
      → Option (SchedulePeriodCache R)
      → Option (SchedulePeriodCache R)
  remembered none old = old
  remembered (some p) old = some p

  unfoldable pub after_tick : Transport → TickResult R → RoomCache R → RoomCache R
  after_tick tr result rc = record rc {
    actuator_states = publish_commands tr result.commands rc.actuator_states;
    last_active_period = remembered result.last_active_period rc.last_active_period;
  }

module _ {R : Type 0} ⦃f : Float64 R⦄ where
  -- the store after a tick, and the log entry that it writes
  unfoldable pub tick :
      Transport → Duration → Uuid → Instant → Store R → Store R × Option (ControlLogEntry R)
  tick tr stale_threshold room_id now s = elim (room s room_id) [
    | none ↦ (s, none)
    | some rc ↦
        let result = evaluate rc now stale_threshold in
        (add_room room_id (after_tick tr result rc) s, some result.log_entry)
  ]
