-- ===== src/Api/Rooms/Targets.antt =====
-- service.go: `UpdateDesiredState`, its tests in the order of the code.
pub mod Accepted
use climate_control.Prelude.{
  String, Bool, true, false, not, ◌&&◌, ◌||◌, Option, none, some, ◌==◌, string_eq, is_some,
  if◌then◌else◌,
}
use climate_control.Prelude.Result.{Result, ok, err, ◌>>=◌, wrap_err}
use climate_control.Float.{Float64, ◌≺◌, float}
use climate_control.Time.{Instant}
use climate_control.Cache.{Uuid}
use climate_control.Api.{ServiceState, publish, set_db, desired_state_changed}
use climate_control.Api.Rooms.{
  DesiredState, RoomError, not_found, no_capability, invalid_state, invalid_target, database,
  RoomTables, get_room, find_desired_state, has_temperature_capability, has_humidity_capability,
}

pub record UpdateDesiredStateInput (R : Type 0) : Type 0 where
  pub mode : String
  pub manual_active : Bool
  pub target_temp : Option R
  pub target_hum : Option R
  pub manual_override_until : Option Instant

-- A target that is given and outside its bounds.
unfoldable pub out_of_bounds : {R : Type 0} ⦃f : Float64 R⦄ → R → R → Option R → Bool
out_of_bounds lo hi none = false
out_of_bounds lo hi (some t) = (t ≺ lo) || (hi ≺ t)

-- A target that is given needs a capability, which is asked for only then.
unfoldable pub check_capability :
    {R E : Type 0} → Option R → Result (RoomError E) Bool → Result {0, 0} (RoomError E) Unit
check_capability none r = ok tt
check_capability (some t) r = r >>= λ has. if not has then err no_capability else ok tt

module _ {R D E : Type 0} ⦃f : Float64 R⦄ (db : RoomTables R D E) where
  unfoldable pub check_targets : UpdateDesiredStateInput R → Result {0, 0} (RoomError E) Unit
  check_targets input =
      if out_of_bounds (float 5) (float 40) input.target_temp
      then err invalid_target
      else if out_of_bounds (float 0) (float 100) input.target_hum
      then err invalid_target
      else ok tt

  unfoldable pub check_state :
      Uuid → UpdateDesiredStateInput R → D → Result {0, 0} (RoomError E) Unit
  check_state room_id input d =
      if input.manual_active && (input.mode == "AUTO")
      then if not (is_some input.target_temp) && not (is_some input.target_hum)
        then err invalid_state
        else (check_capability input.target_temp (has_temperature_capability db room_id d) >>= λ _.
            check_capability input.target_hum (has_humidity_capability db room_id d))
      else ok tt

  unfoldable pub update_desired_state :
      Uuid
      → Uuid
      → UpdateDesiredStateInput R
      → ServiceState D
      → Result (RoomError E) (DesiredState R × ServiceState D)
  update_desired_state room_id user_id input w = do
    _ ← get_room db room_id user_id w.db
    _ ← check_targets input
    _ ← check_state room_id input w.db
    ds ← find_desired_state db room_id w.db
    let new = record ds {
      mode = input.mode;
      manual_active = input.manual_active;
      target_temp = input.target_temp;
      target_hum = input.target_hum;
      manual_override_until = input.manual_override_until;
    }
    d ← wrap_err database (db.save_desired_state new w.db)
    ok (new, publish (desired_state_changed room_id) (set_db d w))
