-- ===== src/Examples/Simulating.antt =====
-- Concrete runs of a simulated room.
use climate_control.Prelude.{◌≡◌, refl, true, Option, some, [], ◌∷◌, string_eq}
use climate_control.Prelude.Int.{ℤ, pos, ◌+ℤ◌, ◌*ℤ◌, ◌-ℤ◌}
use climate_control.Prelude.Dict.{lookup, insert}
use climate_control.Float.{hundredths}
use climate_control.Simulator.{
  EnvironmentModel, RoomState, ActuatorConfig, Command, new_room_state, advance_room, advance,
  deltas_of, delta_of, apply_deltas, clamp, value_at, on_command, actuator_name_to_measurement,
  set_contribution, recompute_heat_input, sum_contributions, add_rates,
}
use climate_control.Simulator.Bounds.{Within, advance_room-Within}
use climate_control.Simulator.Contributions.{
  started, stepped, commanded, sum_from, contributed, Reachable-HeatAgrees,
}

abbrev warm_model : EnvironmentModel ℤ
warm_model = record {
  thermal_mass = ("temperature", pos 100) ∷ [];
  conductance = ("temperature", pos 0) ∷ [];
  noise = [];
}

abbrev heated_room : RoomState ℤ
heated_room = record {
  current = ("temperature", pos 3900) ∷ [];
  ambient = ("temperature", pos 2000) ∷ [];
  contributions = [];
  heat_input = ("temperature", pos 5000) ∷ [];
}

advance_room-Within_example : Within (pos 500) (pos 4000) (pos 4000)
unfolding lookup advance_room advance deltas_of delta_of apply_deltas clamp value_at insert ◌+ℤ◌
    ◌*ℤ◌ ◌-ℤ◌
advance_room-Within_example =
    advance_room-Within "temperature" (pos 500) (pos 4000) refl refl warm_model (pos 1000)
      (λ t. pos 0) heated_room (pos 4000) refl

abbrev heater : ActuatorConfig ℤ
heater = record { typ = "temperature"; rate = pos 150 }

abbrev switch_on : Option Command
switch_on = some (record { actuator_type = "heater"; state = true })

abbrev commanded_room : RoomState ℤ
commanded_room =
    (on_command "h1" heater switch_on (pos 4)
      (new_room_state (("temperature", pos 2000) ∷ []), pos 0)).0

-- A second heater of the room is switched on too.
abbrev twice_commanded_room : RoomState ℤ
twice_commanded_room = (on_command "h2" heater switch_on (pos 5) (commanded_room, pos 0)).0

Reachable-HeatAgrees_example :
    value_at "temperature" twice_commanded_room.heat_input
    ≡ sum_from (pos 0) (contributed "temperature" twice_commanded_room.contributions)
Reachable-HeatAgrees_example =
    Reachable-HeatAgrees twice_commanded_room
      (stepped
        (stepped (started (("temperature", pos 2000) ∷ []))
          (commanded "h1" heater switch_on (pos 4) (pos 0)))
        (commanded "h2" heater switch_on (pos 5) (pos 0)))
      "temperature"

two_heaters_heat : value_at "temperature" twice_commanded_room.heat_input ≡ pos 300
unfolding on_command new_room_state actuator_name_to_measurement set_contribution
    recompute_heat_input sum_contributions add_rates value_at lookup insert ◌+ℤ◌
two_heaters_heat = refl
