-- ===== src/Simulator/Config/Resolve.antt =====
-- config.go: the merge of the overrides and `resolveSimulation`, a function for each of its loops.
use climate_control.Prelude.{
  String, List, [], ◌∷◌, ◌==◌, ◌||◌, string_eq, is_some, ◌&&◌, if◌then◌else◌,
}
use climate_control.Prelude.Int.{pos, leb_ℤ}
use climate_control.Prelude.Dict.{Dict, lookup, insert}
use climate_control.Prelude.Result.{Result, ok, err, ◌>>=◌, or_err}
use climate_control.Float.{Float64, ◌≺◌, float}
use climate_control.Simulator.Config.{
  SimulatedDevice, SimulatedRoom, UserGroup, Simulation, RawRoomTemplate, RawDeviceTemplate,
  RawDesiredStateTemplate, RawScheduleTemplate, RawDevice, RawRoom, RawUserGroup,
  RawSimulationBlock, ResolveError, time_scale_too_large, room_template_not_found,
  device_template_not_found, mutually_exclusive,
}
use climate_control.Simulator.Config.Parts.{
  resolve_measurements, resolve_device, resolve_desired_state, resolve_schedule,
}

-- templates[t.ID] = t for each template
unfoldable pub add_templates : {T : Type 0} → (T → String) → List T → Dict String T → Dict String T
add_templates id [] m = m
add_templates id (t ∷ ts) m = add_templates id ts (insert (id t) t m)

module _ {R : Type 0} where
  unfoldable pub apply_room_overrides :
      Dict String (RawRoomTemplate R) → List (RawRoomTemplate R) → Dict String (RawRoomTemplate R)
  apply_room_overrides base [] = base
  apply_room_overrides base (o ∷ overrides) = add_templates (λ t. t.id) (o ∷ overrides) base

  unfoldable pub apply_device_overrides :
      Dict String (RawDeviceTemplate R)
      → List (RawDeviceTemplate R)
      → Dict String (RawDeviceTemplate R)
  apply_device_overrides base [] = base
  apply_device_overrides base (o ∷ overrides) = add_templates (λ t. t.id) (o ∷ overrides) base

module _ {R : Type 0} ⦃f : Float64 R⦄ where
  -- x <= 0 is x < 0 or x == 0
  unfoldable pub resolve_time_scale : R → R
  resolve_time_scale x = if (x ≺ float 0) || f.is_zero x then float 1 else x

-- The templates after the overrides.
pub record Templates (R : Type 0) : Type 0 where
  pub rooms : Dict String (RawRoomTemplate R)
  pub devices : Dict String (RawDeviceTemplate R)
  pub desired_states : Dict String (RawDesiredStateTemplate R)
  pub schedules : Dict String (RawScheduleTemplate R)

module _ {R : Type 0} ⦃f : Float64 R⦄ (tpls : Templates R) where
  unfoldable pub resolve_devices :
      List (RawDevice R) → Result ResolveError (List (SimulatedDevice R))
  resolve_devices [] = ok []
  resolve_devices (rd ∷ rds) = do
    tpl ← or_err (device_template_not_found rd.template) (lookup rd.template tpls.devices)
    devices ← resolve_devices rds
    ok (resolve_device rd tpl ∷ devices)

  unfoldable pub resolve_room : RawRoom R → Result ResolveError (SimulatedRoom R)
  resolve_room rr = do
    tpl ← or_err (room_template_not_found rr.template) (lookup rr.template tpls.rooms)
    devices ← resolve_devices rr.devices
    desired_state ← resolve_desired_state rr tpls.desired_states
    schedule ← resolve_schedule rr tpls.schedules
    if is_some desired_state && is_some schedule
        then err (mutually_exclusive rr.name_prefix)
        else ok (record {
          name_prefix = rr.name_prefix;
          count = rr.count;
          typ = if rr.typ == "" then "static" else rr.typ;
          noisy = rr.noisy;
          measurements =
              resolve_measurements tpl.measurements rr.noisy rr.thermal_mass_scale
                rr.conductance_scale;
          devices = devices;
          desired_state = desired_state;
          schedule = schedule;
        })

  unfoldable pub resolve_rooms : List (RawRoom R) → Result ResolveError (List (SimulatedRoom R))
  resolve_rooms [] = ok []
  resolve_rooms (rr ∷ rrs) = do room ← resolve_room rr; rooms ← resolve_rooms rrs; ok (room ∷ rooms)

  unfoldable pub resolve_groups : List (RawUserGroup R) → Result ResolveError (List (UserGroup R))
  resolve_groups [] = ok []
  resolve_groups (rg ∷ rgs) = do
    rooms ← resolve_rooms rg.rooms
    groups ← resolve_groups rgs
    ok (record { count = rg.count; interactive = rg.interactive; rooms = rooms } ∷ groups)

  unfoldable pub resolve_simulation :
      String → RawSimulationBlock R → Result ResolveError (Simulation R)
  resolve_simulation name raw = do
    time_scale ←
        let x = resolve_time_scale raw.time_scale in
        if float 400 ≺ x then err time_scale_too_large else ok x
    groups ← resolve_groups raw.user_groups
    ok (record {
      name = name;
      time_scale = time_scale;
      min_publish_interval_ms =
          if leb_ℤ raw.min_publish_interval_ms (pos 0)
          then pos 500
          else raw.min_publish_interval_ms;
      user_groups = groups;
    })
