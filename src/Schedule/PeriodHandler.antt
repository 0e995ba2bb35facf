-- ===== src/Schedule/PeriodHandler.antt =====
-- api-service/internal/schedule/handler.go: the requests for periods and the handlers that write
-- them. gin's binding is a parameter: a request comes as its bound struct, or as none where the
-- binding failed. So are uuid.Parse and the tests of a repository's error for ErrNotFound and
-- ErrPeriodNotFound. The texts of the error bodies are left out.
pub mod Valid
use climate_control.Prelude.{
  String, Bool, true, false, not, ◌&&◌, ◌||◌, Option, none, some, List, [], ◌∷◌, ◌==◌, string_eq,
  any, is_some, if◌then◌else◌,
}
use climate_control.Prelude.Int.{ℤ, pos, ltb_ℤ}
use climate_control.Prelude.Result.{Result, ok, err}
use climate_control.Float.{Float64, float}
use climate_control.Cache.{Uuid}
use climate_control.Api.{Reply, json, error, status}
use climate_control.Api.Rooms.Targets.{out_of_bounds}
use climate_control.Schedule.{
  PeriodInput, SchedulePeriod, Repository, World, ServiceError, period_not_found,
  invalid_time_range, period_overlap, repository, create_period, update_period, delete_period,
}

pub record PeriodRequest (R : Type 0) : Type 0 where
  pub name : Option String
  pub days_of_week : List ℤ
  pub start_time : String
  pub end_time : String
  pub mode : String
  pub target_temp : Option R
  pub target_hum : Option R

pub data RequestError : Type 0 where
  bad_day no_target bad_target_temp bad_target_hum : RequestError

module _ {R : Type 0} ⦃f : Float64 R⦄ where
  unfoldable pub validate_period_request : PeriodRequest R → Result {0, 0} RequestError Unit
  validate_period_request req =
      if any (λ d. ltb_ℤ d (pos 1) || ltb_ℤ (pos 7) d) req.days_of_week
      then err bad_day
      else if req.mode == "AUTO" && not (is_some req.target_temp) && not (is_some req.target_hum)
      then err no_target
      else if out_of_bounds (float 5) (float 40) req.target_temp
      then err bad_target_temp
      else if out_of_bounds (float 0) (float 100) req.target_hum
      then err bad_target_hum
      else ok tt

unfoldable pub to_period_input : {R : Type 0} → PeriodRequest R → PeriodInput R
to_period_input req = record {
  name = req.name;
  days_of_week = req.days_of_week;
  start_time = req.start_time;
  end_time = req.end_time;
  mode = req.mode;
  target_temp = req.target_temp;
  target_hum = req.target_hum;
}

module _ {E B : Type 0} (is_not_found : E → Bool) where
  abbrev pub create_period_reply : ServiceError E → Reply B
  create_period_reply (repository e) = if is_not_found e then error 404 else error 500
  create_period_reply invalid_time_range = error 422
  create_period_reply period_overlap = error 409
  create_period_reply _ = error 500

module _ {E B : Type 0} (is_period_not_found : E → Bool) where
  abbrev pub update_period_reply : ServiceError E → Reply B
  update_period_reply (repository e) = if is_period_not_found e then error 404 else error 500
  update_period_reply period_not_found = error 404
  update_period_reply invalid_time_range = error 422
  update_period_reply period_overlap = error 409
  update_period_reply _ = error 500

  abbrev pub delete_period_reply : ServiceError E → Reply B
  delete_period_reply (repository e) = if is_period_not_found e then error 404 else error 500
  delete_period_reply period_not_found = error 404
  delete_period_reply _ = error 500

module _ {R D E : Type 0} ⦃f : Float64 R⦄ (repo : Repository R D E) (is_not_found : E → Bool)
    (user_id : Uuid) where
  unfoldable pub handle_create_period :
      Option Uuid → Option (PeriodRequest R) → World D → Reply (SchedulePeriod R) × World D
  handle_create_period none req w = (error 400, w)
  handle_create_period (some id) none w = (error 400, w)
  handle_create_period (some id) (some req) w = elim (validate_period_request req) [
    | err e ↦ (error 422, w)
    | ok u ↦ elim (create_period repo id user_id (to_period_input req) w) [
      | err e ↦ (create_period_reply is_not_found e, w)
      | ok (p, w') ↦ (json 201 p, w')
    ]
  ]

module _ {R D E : Type 0} ⦃f : Float64 R⦄ (repo : Repository R D E) (is_period_not_found : E → Bool)
    (user_id : Uuid) where
  unfoldable pub handle_update_period :
      Option Uuid → Option (PeriodRequest R) → World D → Reply (SchedulePeriod R) × World D
  handle_update_period none req w = (error 400, w)
  handle_update_period (some id) none w = (error 400, w)
  handle_update_period (some id) (some req) w = elim (validate_period_request req) [
    | err e ↦ (error 422, w)
    | ok u ↦ elim (update_period repo id user_id (to_period_input req) w) [
      | err e ↦ (update_period_reply is_period_not_found e, w)
      | ok (p, w') ↦ (json 200 p, w')
    ]
  ]

  unfoldable pub handle_delete_period : Option Uuid → World D → Reply Unit × World D
  handle_delete_period none w = (error 400, w)
  handle_delete_period (some id) w = elim (delete_period repo id user_id w) [
    | err e ↦ (delete_period_reply is_period_not_found e, w)
    | ok w' ↦ (status 204, w')
  ]
