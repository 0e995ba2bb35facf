-- ===== src/Api/RoomHandler.antt =====
-- api-service/internal/room/handler.go: the handlers of rooms and desired states. gin's binding is a
-- parameter: a request comes as its bound struct, or as none where the binding failed. So are
-- uuid.Parse and time.Parse for RFC 3339. The texts of the error bodies are left out.
pub mod Override
pub mod Unchanged
use climate_control.Prelude.{
  ℕ, String, Bool, true, false, Option, none, some, List, ◌==◌, string_eq, map, if◌then◌else◌,
}
use climate_control.Prelude.Int.{ℤ, pos, ltb_ℤ}
use climate_control.Prelude.Result.{Result, ok, err, ◌>>=◌, or_err}
use climate_control.Float.{Float64}
use climate_control.Time.{Instant}
use climate_control.Cache.{Uuid}
use climate_control.Api.{ServiceState, Reply, json, error, status}
use climate_control.Api.Rooms.{
  RoomModel, DesiredState, RoomWithCapabilities, RoomError, not_found, name_taken, no_capability,
  invalid_state, invalid_target, database, RoomTables, list_rooms, create_room, get_room_by_id,
  update_room, delete_owned_room, get_desired_state,
}
use climate_control.Api.Rooms.Targets.{UpdateDesiredStateInput, update_desired_state}

pub record RoomRequest (R : Type 0) : Type 0 where
  pub name : String
  pub deadband_temp : Option R
  pub deadband_hum : Option R

pub record UpdateDesiredStateRequest (R : Type 0) : Type 0 where
  pub mode : String
  pub manual_active : Bool
  pub target_temp : Option R
  pub target_hum : Option R
  pub manual_override : Option String

-- 9999-12-31T23:59:59Z
abbrev pub indefinite_override : Instant
indefinite_override = pos 253402300799000000000

-- The key manual_override_until of an answer.
pub data OverrideText : Type 0 where
  null indefinite : OverrideText
  timestamp : Instant → OverrideText

unfoldable pub override_text : Option Instant → OverrideText
override_text none = null
override_text (some t) =
    if ltb_ℤ t indefinite_override
    then timestamp t
    else if ltb_ℤ indefinite_override t
    then timestamp t
    else indefinite

-- ErrInvalidOverride
pub data OverrideError : Type 0 where
  invalid_override : OverrideError

pub record DesiredStateResponse (R : Type 0) : Type 0 where
  pub state : DesiredState R
  pub manual_override_until : OverrideText

unfoldable pub desired_state_response : {R : Type 0} → DesiredState R → DesiredStateResponse R
desired_state_response ds = record {
  state = ds;
  manual_override_until = override_text ds.manual_override_until;
}

unfoldable pub resolve_manual_override :
    (String → Option Instant) → Option String → Result OverrideError (Option Instant)
resolve_manual_override parse_time none = ok none
resolve_manual_override parse_time (some raw) =
    if raw == "indefinite"
    then ok (some indefinite_override)
    else (or_err invalid_override (parse_time raw) >>= λ t. ok (some t))

module _ {E B : Type 0} where
  abbrev pub not_found_reply : RoomError E → Reply B
  not_found_reply not_found = error 404
  not_found_reply _ = error 500

  abbrev pub name_taken_reply : RoomError E → Reply B
  name_taken_reply name_taken = error 409
  name_taken_reply _ = error 500

  abbrev pub update_room_reply : RoomError E → Reply B
  update_room_reply not_found = error 404
  update_room_reply name_taken = error 409
  update_room_reply _ = error 500

  abbrev pub update_desired_state_reply : RoomError E → Reply B
  update_desired_state_reply not_found = error 404
  update_desired_state_reply invalid_target = error 422
  update_desired_state_reply invalid_state = error 422
  update_desired_state_reply no_capability = error 422
  update_desired_state_reply _ = error 500

module _ {R D E : Type 0} ⦃f : Float64 R⦄ (db : RoomTables R D E) (user_id : Uuid) where
  unfoldable pub handle_list_rooms : ServiceState D → Reply (List (RoomWithCapabilities R))
  handle_list_rooms w = elim (list_rooms db user_id w.db) [
    | ok rms ↦ json 200 rms
    | err e ↦ error 500
  ]

  -- The request's deadbands are not passed on, and the answer has the zero value of the capabilities.
  unfoldable pub handle_create_room :
      Option (RoomRequest R) → ServiceState D → Reply (RoomWithCapabilities R) × ServiceState D
  handle_create_room none w = (error 400, w)
  handle_create_room (some req) w = elim (create_room db user_id req.name w) [
    | ok (rm, w') ↦ (
      json 201
          (record { room = rm; capabilities = record { temperature = false; humidity = false } }),
      w',
    )
    | err e ↦ (name_taken_reply e, w)
  ]

  unfoldable pub handle_get_room : Option Uuid → ServiceState D → Reply (RoomWithCapabilities R)
  handle_get_room none w = error 400
  handle_get_room (some id) w = elim (get_room_by_id db id user_id w.db) [
    | ok rm ↦ json 200 rm
    | err e ↦ not_found_reply e
  ]

  unfoldable pub handle_update_room :
      Option Uuid
      → Option (RoomRequest R)
      → ServiceState D
      → Reply (RoomWithCapabilities R) × ServiceState D
  handle_update_room none req w = (error 400, w)
  handle_update_room (some id) none w = (error 400, w)
  handle_update_room (some id) (some req) w =
      let (r, w') = update_room db id user_id req.name req.deadband_temp req.deadband_hum w in
      ((elim r [ ok rm ↦ json 200 rm | err e ↦ update_room_reply e ]), w')

  unfoldable pub handle_delete_room : Option Uuid → ServiceState D → Reply Unit × ServiceState D
  handle_delete_room none w = (error 400, w)
  handle_delete_room (some id) w = elim (delete_owned_room db id user_id w) [
    | ok w' ↦ (status 204, w')
    | err e ↦ (not_found_reply e, w)
  ]

  unfoldable pub handle_get_desired_state :
      Option Uuid → ServiceState D → Reply (DesiredStateResponse R)
  handle_get_desired_state none w = error 400
  handle_get_desired_state (some id) w = elim (get_desired_state db id user_id w.db) [
    | ok ds ↦ json 200 (desired_state_response ds)
    | err e ↦ not_found_reply e
  ]

  unfoldable pub input_of : UpdateDesiredStateRequest R → Option Instant → UpdateDesiredStateInput R
  input_of req until = record {
    mode = req.mode;
    manual_active = req.manual_active;
    target_temp = req.target_temp;
    target_hum = req.target_hum;
    manual_override_until = until;
  }

  unfoldable pub handle_update_desired_state :
      (String → Option Instant)
      → Option Uuid
      → Option (UpdateDesiredStateRequest R)
      → ServiceState D
      → Reply (DesiredStateResponse R) × ServiceState D
  handle_update_desired_state parse_time none req w = (error 400, w)
  handle_update_desired_state parse_time (some id) none w = (error 400, w)
  handle_update_desired_state parse_time (some id) (some req) w =
      elim (resolve_manual_override parse_time req.manual_override) [
        | err e ↦ (error 422, w)
        | ok until ↦ elim (update_desired_state db id user_id (input_of req until) w) [
          | ok (ds, w') ↦ (json 200 (desired_state_response ds), w')
          | err e ↦ (update_desired_state_reply e, w)
        ]
      ]
