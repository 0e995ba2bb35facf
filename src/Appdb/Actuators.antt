-- ===== src/Appdb/Actuators.antt =====
-- The map from actuator types to hw_ids against the rows that it is built from.
use mathlib.Core.List.{append-nil, append_assoc}
use climate_control.Prelude.{
  ◌≡◌, sym, ◌∙◌, String, true, List, [], ◌∷◌, ◌++◌, ◌==◌, string_eq, nat_eq, eq_iff, Bool-cases,
  inl, inr, if◌then◌else◌, arith,
}
use climate_control.Prelude.Dict.{
  Dict, lookup, insert, contains, KeysDistinct, lookup-insert, insert-KeysDistinct,
}
use climate_control.Cache.{Uuid, slice_at}
use climate_control.Appdb.{DeviceRow, ActuatorRow}
use climate_control.Appdb.Assembly.{
  actuator_sensor_types, add_actuator, add_actuators, add_devices, build_actuator_hw_ids,
}

-- One hw_id for each actuator of the type.
abbrev repeats : String → String → List ActuatorRow → List String
repeats t hw_id [] = []
repeats t hw_id (a ∷ acts) =
    if a.actuator_type == t then hw_id ∷ repeats t hw_id acts else repeats t hw_id acts

-- The hw_ids of the devices, each once for each of its actuators of the type.
abbrev pub hw_ids_with : String → List DeviceRow → Dict Uuid (List ActuatorRow) → List String
hw_ids_with t [] abd = []
hw_ids_with t (dev ∷ devices) abd =
    repeats t dev.hw_id (slice_at dev.id abd) ++ hw_ids_with t devices abd

slice_at-insert :
    (k j : String) (xs : List String) (m : Dict String (List String))
    → slice_at j (insert k xs m) ≡ (if k == j then xs else slice_at j m)
unfolding slice_at
slice_at-insert k j xs m = ground (arith, lookup-insert k j xs m)

slice_at-add_actuator :
    (t hw_id : String) (a : ActuatorRow) (m : Dict String (List String))
    → contains t actuator_sensor_types ≡ true
    → slice_at t (add_actuator hw_id a m) ≡ slice_at t m ++ repeats t hw_id (a ∷ [])
unfolding add_actuator
slice_at-add_actuator t hw_id a m known = ground (
  arith,
  eq_iff a.actuator_type t,
  append-nil (slice_at t m),
  slice_at-insert a.actuator_type t (slice_at a.actuator_type m ++ hw_id ∷ []) m,
)

repeats-cons :
    (t hw_id : String) (a : ActuatorRow) (acts : List ActuatorRow)
    → repeats t hw_id (a ∷ acts) ≡ repeats t hw_id (a ∷ []) ++ repeats t hw_id acts
repeats-cons t hw_id a acts = ground arith

slice_at-add_actuators :
    (t hw_id : String) (acts : List ActuatorRow) (m : Dict String (List String))
    → contains t actuator_sensor_types ≡ true
    → slice_at t (add_actuators hw_id acts m) ≡ slice_at t m ++ repeats t hw_id acts
unfolding add_actuators
slice_at-add_actuators t hw_id [] m known = sym (append-nil (slice_at t m))
slice_at-add_actuators t hw_id (a ∷ acts) m known =
    slice_at-add_actuators t hw_id acts (add_actuator hw_id a m) known
    ∙ rw (slice_at-add_actuator t hw_id a m known, repeats-cons t hw_id a acts, append_assoc)

slice_at-add_devices :
    (t : String) (devices : List DeviceRow) (abd : Dict Uuid (List ActuatorRow))
    (m : Dict String (List String))
    → contains t actuator_sensor_types ≡ true
    → slice_at t (add_devices devices abd m) ≡ slice_at t m ++ hw_ids_with t devices abd
unfolding add_devices
slice_at-add_devices t [] abd m known = sym (append-nil (slice_at t m))
slice_at-add_devices t (dev ∷ devices) abd m known =
    slice_at-add_devices t devices abd (add_actuators dev.hw_id (slice_at dev.id abd) m) known
    ∙ rw (slice_at-add_actuators t dev.hw_id (slice_at dev.id abd) m known, append_assoc)

-- For the actuator types that a sensor type is known for, the map has the devices' hw_ids in their
-- order, each once for each of its actuators of the type.
pub build_actuator_hw_ids-hw_ids_with :
    (t : String) (devices : List DeviceRow) (abd : Dict Uuid (List ActuatorRow))
    → contains t actuator_sensor_types ≡ true
    → slice_at t (build_actuator_hw_ids devices abd) ≡ hw_ids_with t devices abd
unfolding build_actuator_hw_ids slice_at lookup
build_actuator_hw_ids-hw_ids_with t devices abd known = slice_at-add_devices t devices abd [] known

add_actuator-KeysDistinct :
    (hw_id : String) (a : ActuatorRow) (m : Dict String (List String))
    → KeysDistinct m
    → KeysDistinct (add_actuator hw_id a m)
unfolding add_actuator
add_actuator-KeysDistinct hw_id a m h =
    elim (Bool-cases (contains a.actuator_type actuator_sensor_types)) [
      | inl known ↦
          rw known
            (insert-KeysDistinct a.actuator_type (slice_at a.actuator_type m ++ hw_id ∷ []) m h)
      | inr other ↦ rw other h
    ]

add_actuators-KeysDistinct :
    (hw_id : String) (acts : List ActuatorRow) (m : Dict String (List String))
    → KeysDistinct m
    → KeysDistinct (add_actuators hw_id acts m)
unfolding add_actuators
add_actuators-KeysDistinct hw_id [] m h = h
add_actuators-KeysDistinct hw_id (a ∷ acts) m h =
    add_actuators-KeysDistinct hw_id acts (add_actuator hw_id a m)
      (add_actuator-KeysDistinct hw_id a m h)

add_devices-KeysDistinct :
    (devices : List DeviceRow) (abd : Dict Uuid (List ActuatorRow)) (m : Dict String (List String))
    → KeysDistinct m
    → KeysDistinct (add_devices devices abd m)
unfolding add_devices
add_devices-KeysDistinct [] abd m h = h
add_devices-KeysDistinct (dev ∷ devices) abd m h =
    add_devices-KeysDistinct devices abd (add_actuators dev.hw_id (slice_at dev.id abd) m)
      (add_actuators-KeysDistinct dev.hw_id (slice_at dev.id abd) m h)

-- For every device and actuator rows, the map has at most one entry for each actuator type.
pub build_actuator_hw_ids-KeysDistinct :
    (devices : List DeviceRow) (abd : Dict Uuid (List ActuatorRow))
    → KeysDistinct (build_actuator_hw_ids devices abd)
unfolding build_actuator_hw_ids
build_actuator_hw_ids-KeysDistinct devices abd = add_devices-KeysDistinct devices abd [] tt
