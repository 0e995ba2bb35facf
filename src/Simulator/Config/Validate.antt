-- ===== src/Simulator/Config/Validate.antt =====
-- config.go: `validateSimulation`, a function for each of its loops. The maps of seen prefixes are
-- passed on from one round to the next.
use climate_control.Prelude.{
  ℕ, ◌+◌, String, Bool, true, false, none, some, List, [], ◌∷◌, string_eq, if◌then◌else◌,
}
use climate_control.Prelude.Dict.{Dict, lookup, insert}
use climate_control.Prelude.Result.{Result, ok, err, ◌>>=◌}
use climate_control.Simulator.Config.{SimulatedDevice, SimulatedRoom, UserGroup, Simulation}

-- The group's index, the room's prefix, and the device's.
pub data ValidateError : Type 0 where
  duplicate_room : ℕ → String → ValidateError
  duplicate_device : ℕ → String → String → ValidateError

-- m[k] of a map of Booleans, false for a missing key
unfoldable pub is_set : String → Dict String Bool → Bool
is_set k m = elim (lookup k m) [ none ↦ false | some b ↦ b ]

module _ {R : Type 0} where
  unfoldable pub validate_devices :
      ℕ → String → Dict String Bool → List (SimulatedDevice R) → Result {0, 0} ValidateError Unit
  validate_devices i room seen [] = ok tt
  validate_devices i room seen (dev ∷ devs) =
      let rest = validate_devices i room (insert dev.name_prefix true seen) devs in
      if is_set dev.name_prefix seen then err (duplicate_device i room dev.name_prefix) else rest

  unfoldable pub validate_rooms :
      ℕ → Dict String Bool → List (SimulatedRoom R) → Result {0, 0} ValidateError Unit
  validate_rooms i seen [] = ok tt
  validate_rooms i seen (rm ∷ rms) =
      let rest = validate_rooms i (insert rm.name_prefix true seen) rms in
      if is_set rm.name_prefix seen
      then err (duplicate_room i rm.name_prefix)
      else (validate_devices i rm.name_prefix [] rm.devices >>= λ _. rest)

  unfoldable pub validate_groups : ℕ → List (UserGroup R) → Result {0, 0} ValidateError Unit
  validate_groups i [] = ok tt
  validate_groups i (group ∷ groups) = do
    _ ← validate_rooms i [] group.rooms
    validate_groups (i + 1) groups

  unfoldable pub validate_simulation : Simulation R → Result {0, 0} ValidateError Unit
  validate_simulation sim = validate_groups 0 sim.user_groups
