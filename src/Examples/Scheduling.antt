-- ===== src/Examples/Scheduling.antt =====
-- Concrete runs of the scheduler and of its tick.
use climate_control.Prelude.{◌≡◌, true, false, some, ◌==◌, string_eq, nat_eq, if◌then◌else◌}
use climate_control.Prelude.Dict.{contains}
use climate_control.Float.{hundredths}
use climate_control.Control.Evaluate.{evaluate}
use climate_control.Control.Commands.{commands_of}
use climate_control.Control.Logging.{cmds}
use climate_control.Scheduler.{control_loop, Scheduler, new_scheduler, add_room, remove_room}
use climate_control.Scheduler.Running.{running}
use climate_control.Scheduler.Reachable.{Reachable, booted, next, added, removed, Reachable-running}
use climate_control.Scheduler.Tick.{Transport, after_tick}
use climate_control.Scheduler.Tick.Again.{tick_again}
use climate_control.Examples.{living_room, living_room-KeysDistinct, ten_o_clock, two_minutes}

-- Room 1 is added twice, room 2 once and removed.
abbrev pub sample_scheduler : Scheduler
sample_scheduler = remove_room 2 (add_room 2 (add_room 1 (add_room 1 new_scheduler)))

pub sample_scheduler-Reachable : Reachable sample_scheduler
sample_scheduler-Reachable =
    next (next (next (next booted (added 1)) (added 1)) (added 2)) (removed 2)

Reachable-running_example :
    running control_loop 1 sample_scheduler.cancelled sample_scheduler.goroutines
    ≡ (if contains 1 sample_scheduler.active_rooms then 1 else 0)
Reachable-running_example = Reachable-running sample_scheduler-Reachable control_loop 1

-- The transport reaches every device but "h1".
abbrev sample_transport : Transport
sample_transport = record {
  marshal_payload = λ c. some c.hw_id;
  publish = λ topic qos payload. if payload == "h1" then false else true;
}

tick_again_example :
    let first = evaluate living_room ten_o_clock two_minutes in
    let second = evaluate (after_tick sample_transport first living_room) ten_o_clock two_minutes in
    (commands_of "heater" second.commands ≡ commands_of "heater" first.commands)
    × (commands_of "humidifier" second.commands ≡ commands_of "humidifier" first.commands)
    × (cmds second.log_entry ≡ cmds first.log_entry)
tick_again_example =
    tick_again sample_transport living_room ten_o_clock two_minutes living_room-KeysDistinct
