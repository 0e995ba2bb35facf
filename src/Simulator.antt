-- ===== src/Simulator.antt =====
-- simulator-service/internal/simulator: the state of a simulated room (room_state.go), its environment
-- model (model.go), the tick of a room and the command callback and watchdog of an actuator
-- (simulator.go), with the maps of internal/config/config.go they use. The draws of the random
-- generator are a parameter. Each method that locks the room is one step.
pub mod Bounds
pub mod Contributions
pub mod Config
use climate_control.Prelude.{
  ℕ, String, Bool, true, false, not, Option, none, some, List, [], ◌∷◌, ◌==◌, string_eq,
  if◌then◌else◌,
}
use climate_control.Prelude.Int.{ltb_ℤ}
use climate_control.Prelude.Dict.{Dict, lookup, insert, erase}
use climate_control.Float.{Float64, ◌⊕◌, ◌⊖◌, ◌⊗◌, ◌⊘◌, ◌≺◌, float}
use climate_control.Time.{Instant, Duration, time_sub}
use Prim.Native.String.{◌++◌ as append}

pub record MeasurementConfig (R : Type 0) : Type 0 where
  pub base : R
  pub thermal_mass : R
  pub conductance : R
  pub noise : R

pub record EnvironmentModel (R : Type 0) : Type 0 where
  pub thermal_mass : Dict String R
  pub conductance : Dict String R
  pub noise : Dict String R

pub record RoomState (R : Type 0) : Type 0 where
  pub current : Dict String R
  pub ambient : Dict String R
  pub contributions : Dict String (Dict String R)
  pub heat_input : Dict String R

pub record ActuatorConfig (R : Type 0) : Type 0 where
  pub typ : String
  pub rate : R

-- The payload of a command, decoded.
pub record Command : Type 0 where
  pub actuator_type : String
  pub state : Bool

unfoldable pub actuator_name_to_measurement : String → String
actuator_name_to_measurement name =
    if name == "heater" then "temperature" else if name == "humidifier" then "humidity" else ""

module _ {R : Type 0} where
  -- The three maps are filled in one range over the measurements.
  unfoldable pub parameters :
      (MeasurementConfig R → R) → Dict String (MeasurementConfig R) → Dict String R
  parameters field [] = []
  parameters field ((typ, m) ∷ ms) = (typ, field m) ∷ parameters field ms

  unfoldable pub new_environment_model : Dict String (MeasurementConfig R) → EnvironmentModel R
  new_environment_model ms = record {
    thermal_mass = parameters (λ m. m.thermal_mass) ms;
    conductance = parameters (λ m. m.conductance) ms;
    noise = parameters (λ m. m.noise) ms;
  }

  unfoldable pub new_room_state : Dict String R → RoomState R
  new_room_state ambient = record {
    current = ambient;
    ambient = ambient;
    contributions = [];
    heat_input = [];
  }

module _ {R : Type 0} ⦃f : Float64 R⦄ where
  -- m[k] of a map of numbers, 0 for a missing key
  unfoldable pub value_at : String → Dict String R → R
  value_at k m = elim (lookup k m) [ none ↦ float 0 | some v ↦ v ]

  abbrev pub measurement_bounds : Dict String (R × R)
  measurement_bounds =
      ("temperature", (float 5, float 40)) ∷ ("humidity", (float 0, float 100)) ∷ []

  -- The inner range of `recomputeHeatInput`.
  unfoldable pub add_rates : Dict String R → Dict String R → Dict String R
  add_rates [] heat = heat
  add_rates ((typ, rate) ∷ rates) heat =
      add_rates rates (insert typ (value_at typ heat ⊕ rate) heat)

  unfoldable pub sum_contributions : Dict String (Dict String R) → Dict String R → Dict String R
  sum_contributions [] heat = heat
  sum_contributions ((hw_id, rates) ∷ cs) heat = sum_contributions cs (add_rates rates heat)

  unfoldable pub recompute_heat_input : RoomState R → RoomState R
  recompute_heat_input rs = record rs { heat_input = sum_contributions rs.contributions [] }

  unfoldable pub set_contribution : String → Dict String R → RoomState R → RoomState R
  set_contribution hw_id rates rs =
      recompute_heat_input (record rs { contributions = insert hw_id rates rs.contributions })

  unfoldable pub clear_contribution : String → RoomState R → RoomState R
  clear_contribution hw_id rs =
      recompute_heat_input (record rs { contributions = erase hw_id rs.contributions })

  -- One delta of `Advance`; `draw` is the normal draw of the type.
  unfoldable pub delta_of :
      EnvironmentModel R → RoomState R → Dict String R → R → (String → R) → String → R → R
  delta_of model rs heat seconds draw typ current = elim (lookup typ model.thermal_mass) [
    | none ↦ float 0
    | some mass ↦
        if f.is_zero mass
        then float 0
        else let effective = value_at typ rs.ambient ⊕ (draw typ ⊗ value_at typ model.noise) in
          let energy = value_at typ heat ⊗ seconds in
          let loss = (value_at typ model.conductance ⊗ (current ⊖ effective)) ⊗ seconds in
          (energy ⊖ loss) ⊘ mass
  ]

  -- A delta for each entry of the range over `Current`.
  unfoldable pub deltas_of : (String → R → R) → Dict String R → Dict String R
  deltas_of delta [] = []
  deltas_of delta ((typ, v) ∷ m) = (typ, delta typ v) ∷ deltas_of delta m

  unfoldable pub advance :
      EnvironmentModel R → RoomState R → Dict String R → R → (String → R) → Dict String R
  advance model rs heat seconds draw = deltas_of (delta_of model rs heat seconds draw) rs.current

  -- The clamp of `advanceRoom`, none for a type without bounds.
  unfoldable pub clamp : String → R → R
  clamp typ v = elim (lookup typ measurement_bounds) [
    | none ↦ v
    | some (lo, hi) ↦ if v ≺ lo then lo else if hi ≺ v then hi else v
  ]

  unfoldable pub apply_deltas : Dict String R → Dict String R → Dict String R
  apply_deltas [] current = current
  apply_deltas ((typ, delta) ∷ deltas) current =
      apply_deltas deltas (insert typ (clamp typ (value_at typ current ⊕ delta)) current)

  unfoldable pub advance_room : EnvironmentModel R → R → (String → R) → RoomState R → RoomState R
  advance_room model seconds draw rs = record rs {
    current = apply_deltas (advance model rs rs.heat_input seconds draw) rs.current;
  }

  abbrev pub contribution_key : String → ActuatorConfig R → String
  contribution_key hw_id act = append hw_id (append "/" act.typ)

  -- The callback of `runActuator` on a payload that decodes to a command, or to none. The state is the
  -- room and the time of the last command.
  unfoldable pub on_command :
      String
      → ActuatorConfig R
      → Option Command
      → Instant
      → RoomState R × Instant
      → RoomState R × Instant
  on_command hw_id act none now s = s
  on_command hw_id act (some msg) now (rs, last) =
      if not (actuator_name_to_measurement msg.actuator_type == act.typ)
      then (rs, last)
      else if msg.state
      then (set_contribution (contribution_key hw_id act) ((act.typ, act.rate) ∷ []) rs, now)
      else (clear_contribution (contribution_key hw_id act) rs, now)

  -- The watchdog's tick.
  unfoldable pub watchdog :
      String → ActuatorConfig R → Duration → Instant → RoomState R × Instant → RoomState R × Instant
  watchdog hw_id act timeout now (rs, last) =
      if ltb_ℤ (time_sub now last) timeout
      then (rs, last)
      else (clear_contribution (contribution_key hw_id act) rs, last)
