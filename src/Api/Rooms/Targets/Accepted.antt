-- ===== src/Api/Rooms/Targets/Accepted.antt =====
-- What an update of the desired state that succeeds has checked and done.
use climate_control.Prelude.{
  ◌≡◌, inl, inr, Bool, true, false, not, ◌&&◌, ◌||◌, Option, none, some, ◌∷◌, ◌==◌, string_eq,
  is_some, Bool-cases, arith,
}
use climate_control.Prelude.Result.{Result, ok, Result-cases}
use climate_control.Float.{Float64, ◌≺◌, float}
use climate_control.Cache.{Uuid}
use climate_control.Api.{ServiceState, desired_state_changed}
use climate_control.Api.Rooms.{
  RoomModel, DesiredState, RoomError, RoomTables, get_room, find_desired_state,
  has_temperature_capability, has_humidity_capability,
}
use climate_control.Api.Rooms.Targets.{
  UpdateDesiredStateInput, out_of_bounds, check_capability, check_targets, check_state,
  update_desired_state,
}

module _ {R : Type 0} ⦃f : Float64 R⦄ where
  -- A target that is set lies between its bounds.
  abbrev pub WithinBounds : R → R → Option R → Type 0
  WithinBounds lo hi none = Unit
  WithinBounds lo hi (some t) = (t ≺ lo ≡ false) × (hi ≺ t ≡ false)

  pub out_of_bounds_lem :
      (lo hi : R) (t : Option R) → out_of_bounds lo hi t ≡ false → WithinBounds lo hi t
  unfolding out_of_bounds
  out_of_bounds_lem lo hi none h = tt
  out_of_bounds_lem lo hi (some t) h = ground (arith, h)

-- The query for the capability of a target that is set said yes.
abbrev pub HasCapability : {R E : Type 0} → Option R → Result (RoomError E) Bool → Type 0
HasCapability none r = Unit
HasCapability (some t) r = r ≡ ok true

check_capability_lem :
    {R E : Type 0} (t : Option R) (r : Result (RoomError E) Bool)
    → check_capability t r ≡ ok tt
    → HasCapability t r
unfolding check_capability
check_capability_lem none r h = tt
check_capability_lem (some t) r h = ground (arith, h)

module _ {R D E : Type 0} ⦃f : Float64 R⦄ (db : RoomTables R D E) where
  check_targets_lem :
      (input : UpdateDesiredStateInput R)
      → check_targets db input ≡ ok tt
      → WithinBounds (float 5) (float 40) input.target_temp
        × WithinBounds (float 0) (float 100) input.target_hum
  unfolding check_targets
  check_targets_lem input h =
      elim (Bool-cases (out_of_bounds (float 5) (float 40) input.target_temp)) [
        | inl e ↦ absurd (ground (arith, h, e))
        | inr e ↦ elim (Bool-cases (out_of_bounds (float 0) (float 100) input.target_hum)) [
          | inl k ↦ absurd (ground (arith, h, e, k))
          | inr k ↦ (
            out_of_bounds_lem (float 5) (float 40) input.target_temp e,
            out_of_bounds_lem (float 0) (float 100) input.target_hum k,
          )
        ]
      ]

  -- The state that a row holds after an update.
  abbrev pub stored : DesiredState R → UpdateDesiredStateInput R → DesiredState R
  stored ds input = record ds {
    mode = input.mode;
    manual_active = input.manual_active;
    target_temp = input.target_temp;
    target_hum = input.target_hum;
    manual_override_until = input.manual_override_until;
  }

  -- The steps of an update that succeeds.
  record Updated (room_id user_id : Uuid) (input : UpdateDesiredStateInput R) (w : ServiceState D)
      (new : DesiredState R) (w' : ServiceState D) : Type 0 where
    room : RoomModel R
    owned : get_room db room_id user_id w.db ≡ ok room
    targets : check_targets db input ≡ ok tt
    state : check_state db room_id input w.db ≡ ok tt
    row : DesiredState R
    found : find_desired_state db room_id w.db ≡ ok row
    result : new ≡ stored row input
    saved : db.save_desired_state new w.db ≡ ok w'.db
    events : w'.events ≡ desired_state_changed room_id ∷ w.events

  update_desired_state-Updated :
      (room_id user_id : Uuid) (input : UpdateDesiredStateInput R) (w w' : ServiceState D)
      (new : DesiredState R)
      → update_desired_state db room_id user_id input w ≡ ok (new, w')
      → Updated room_id user_id input w new w'
  unfolding update_desired_state
  update_desired_state-Updated room_id user_id input w w' new h =
      elim (Result-cases (get_room db room_id user_id w.db)) [
        | inr (x, a) ↦ absurd (ground (arith, h, a))
        | inl (rm, a) ↦ elim (Result-cases (check_targets db input)) [
          | inr (x, b) ↦ absurd (ground (arith, h, a, b))
          | inl (u, b) ↦ elim (Result-cases (check_state db room_id input w.db)) [
            | inr (x, c) ↦ absurd (ground (arith, h, a, b, c))
            | inl (v, c) ↦ elim (Result-cases (find_desired_state db room_id w.db)) [
              | inr (x, e) ↦ absurd (ground (arith, h, a, b, c, e))
              | inl (ds, e) ↦ elim (Result-cases (db.save_desired_state (stored ds input) w.db)) [
                | inr (x, k) ↦ absurd (ground (arith, h, a, b, c, e, k))
                | inl (d, k) ↦ record {
                  room = rm;
                  owned = a;
                  targets = b;
                  state = c;
                  row = ds;
                  found = e;
                  result = ground (arith, h, a, b, c, e, k);
                  saved = ground (arith, h, a, b, c, e, k);
                  events = ground (arith, h, a, b, c, e, k);
                }
              ]
            ]
          ]
        ]
      ]

  check_state_lem :
      (room_id : Uuid) (input : UpdateDesiredStateInput R) (d : D)
      → check_state db room_id input d ≡ ok tt
      → input.manual_active && (input.mode == "AUTO") ≡ true
      → (is_some input.target_temp || is_some input.target_hum ≡ true)
        × HasCapability input.target_temp (has_temperature_capability db room_id d)
        × HasCapability input.target_hum (has_humidity_capability db room_id d)
  unfolding check_state
  check_state_lem room_id input d h auto =
      elim (Bool-cases (not (is_some input.target_temp) && not (is_some input.target_hum))) [
        | inl e ↦ absurd (ground (arith, h, auto, e))
        | inr e ↦
            elim (Result-cases
              (check_capability input.target_temp (has_temperature_capability db room_id d))) [
                | inr (x, k) ↦ absurd (ground (arith, h, auto, e, k))
                | inl (u, k) ↦ (
                  ground (arith, e),
                  check_capability_lem input.target_temp (has_temperature_capability db room_id d)
                      k,
                  check_capability_lem input.target_hum (has_humidity_capability db room_id d)
                      (ground (arith, h, auto, e, k)),
                )
              ]
      ]

  -- If `UpdateDesiredState` succeeds, then the room was found for the user, the temperature target is
  -- unset or in 5 to 40 and the humidity target unset or in 0 to 100 (neither below the lower bound
  -- nor above the upper one), the returned row, which was saved, has the mode, the targets and the
  -- override of the input, the override also where manual control is inactive, and one event was
  -- published, for the room.
  pub update_desired_state-WithinBounds :
      (room_id user_id : Uuid) (input : UpdateDesiredStateInput R) (w w' : ServiceState D)
      → (new : DesiredState R) → update_desired_state db room_id user_id input w ≡ ok (new, w')
      → ((room : RoomModel R) × (get_room db room_id user_id w.db ≡ ok room))
        × WithinBounds (float 5) (float 40) new.target_temp
        × WithinBounds (float 0) (float 100) new.target_hum
        × ((row : DesiredState R) × (find_desired_state db room_id w.db ≡ ok row)
            × (new ≡ stored row input))
        × (db.save_desired_state new w.db ≡ ok w'.db)
        × (w'.events ≡ desired_state_changed room_id ∷ w.events)
  update_desired_state-WithinBounds room_id user_id input w w' new h =
      let u = update_desired_state-Updated room_id user_id input w w' new h in
      let (temp, hum) = check_targets_lem input u.targets in
      (
        (u.room, u.owned),
        rw u.result temp,
        rw u.result hum,
        (u.row, u.found, u.result),
        u.saved,
        u.events,
      )

  -- If `UpdateDesiredState` succeeds for an input in the mode AUTO with manual control active, then a
  -- target is set, and the room was found to have the capability of each target that is set.
  pub update_desired_state-HasCapability :
      (room_id user_id : Uuid) (input : UpdateDesiredStateInput R) (w w' : ServiceState D)
      → (new : DesiredState R) → update_desired_state db room_id user_id input w ≡ ok (new, w')
      → input.manual_active && (input.mode == "AUTO") ≡ true
      → (is_some new.target_temp || is_some new.target_hum ≡ true)
        × HasCapability new.target_temp (has_temperature_capability db room_id w.db)
        × HasCapability new.target_hum (has_humidity_capability db room_id w.db)
  update_desired_state-HasCapability room_id user_id input w w' new h auto =
      let u = update_desired_state-Updated room_id user_id input w w' new h in
      let (some_target, temp, hum) = check_state_lem room_id input w.db u.state auto in
      (rw u.result some_target, rw u.result temp, rw u.result hum)
