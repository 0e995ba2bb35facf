-- ===== src/Examples/Services.antt =====
-- Concrete runs of the schedules' service.
use climate_control.Prelude.{
  ◌≡◌, refl, String, true, false, none, some, [], ◌∷◌, ◌<◌, ◌==◌, Bool, string_eq, arith,
}
use climate_control.Prelude.Int.{ℤ, pos}
use climate_control.Prelude.Result.{ok, err}
use climate_control.Float.{hundredths}
use climate_control.Appdb.ParseTime.{parse_time_to_minutes}
use climate_control.Schedule.{
  Schedule, SchedulePeriod, PeriodInput, Repository, World, already_active, notify_schedule_changed,
  string_le, codes_le, activate, build_period, update_period, delete_period, get_period_by_id,
  notify_if_active,
}
use climate_control.Schedule.Periods.{build_period-parses}
use climate_control.Schedule.Activation.{StoresActive, activate-again}
use climate_control.Schedule.PeriodHandler.{
  PeriodRequest, validate_period_request, to_period_input, handle_update_period,
  handle_delete_period,
}
use climate_control.Schedule.PeriodHandler.Valid.{IsRequest, handle_update_period-IsRequest}
use climate_control.Api.{json, error}
use climate_control.Api.Rooms.Targets.{out_of_bounds}
use climate_control.Schedule.Notify.{events_after, update_period-events}

-- A database that is one schedule.
abbrev pub repository_of_one : Repository ℤ Schedule String
repository_of_one = record {
  get_room = λ id user d. ok id;
  create = λ s d. ok (s, s);
  get_by_id = λ id user d. ok d;
  update = λ s d. ok s;
  delete = λ id d. err "kept";
  activate = λ id room d. ok (record d { is_active = true });
  deactivate = λ id room d. ok (record d { is_active = false });
  create_period = λ p d. ok (p, d);
  get_period_by_id = λ id d. err "no period";
  update_period = λ p d. ok d;
  delete_period = λ id d. ok d;
  has_overlap = λ id days start finish exclude d. ok false;
  periods_have_capability = λ id room d. ok true;
}

repository_of_one-StoresActive : StoresActive repository_of_one
repository_of_one-StoresActive id user d d' sched found updated = ground (arith, found, updated)

abbrev pub weekdays : Schedule
weekdays = record { id = 2; room_id = 1; user_id = 9; name = "weekdays"; is_active = false }

abbrev before_call : World Schedule
before_call = record { db = weekdays; events = [] }

abbrev after_call : World Schedule
after_call = record { db = record weekdays { is_active = true }; events = 1 ∷ [] }

activate-again_example :
    (repository_of_one.periods_have_capability 2 1 weekdays ≡ ok true)
    × (after_call.events ≡ 1 ∷ [])
    × (activate repository_of_one 2 9 after_call ≡ err already_active)
unfolding activate notify_schedule_changed
activate-again_example =
    activate-again repository_of_one repository_of_one-StoresActive 2 9 before_call after_call
      (record weekdays { is_active = true }) refl

abbrev morning_input : PeriodInput ℤ
morning_input = record {
  name = none;
  days_of_week = pos 1 ∷ [];
  start_time = "09:05";
  end_time = "17:30";
  mode = "AUTO";
  target_temp = some (pos 2100);
  target_hum = none;
}

abbrev morning_period : SchedulePeriod ℤ
morning_period = record {
  id = 0;
  schedule_id = 2;
  name = none;
  days_of_week = pos 1 ∷ [];
  start_time = "09:05";
  end_time = "17:30";
  mode = "AUTO";
  target_temp = some (pos 2100);
  target_hum = none;
}

build_period-parses_example :
    (parse_time_to_minutes "09:05" ≡ ok (pos 545))
    × (parse_time_to_minutes "17:30" ≡ ok (pos 1050))
    × (545 < 1050)
unfolding build_period string_le codes_le
build_period-parses_example =
    build_period-parses repository_of_one 2 morning_input none weekdays morning_period 9 5 17 30
      refl refl (omega arith) (omega arith) (omega arith) (omega arith) refl

abbrev repository_of_periods : Repository ℤ Schedule String
repository_of_periods = record repository_of_one {
  get_period_by_id = λ id d. ok (record morning_period { id = 4 });
}

update_period-events_example :
    (old : SchedulePeriod ℤ) × (sched : Schedule) × (get_period_by_id repository_of_periods 4 9
        after_call.db
      ≡ ok (old, sched))
    × (4 ≡ old.id)
    × (2 ≡ old.schedule_id)
    × (string_le "17:30" "09:05" ≡ false)
    × ((1 ∷ 1 ∷ []) ≡ events_after sched after_call.events)
unfolding update_period get_period_by_id build_period notify_if_active notify_schedule_changed
    string_le codes_le
update_period-events_example =
    update_period-events repository_of_periods 4 9 morning_input after_call
      (record { db = after_call.db; events = 1 ∷ 1 ∷ [] }) (record morning_period { id = 4 }) refl

abbrev morning_request : PeriodRequest ℤ
morning_request = record {
  name = none;
  days_of_week = pos 1 ∷ [];
  start_time = "09:05";
  end_time = "17:30";
  mode = "AUTO";
  target_temp = some (pos 2100);
  target_hum = none;
}

abbrev updated_period : SchedulePeriod ℤ
updated_period = record morning_period { id = 4 }

abbrev after_update : World Schedule
after_update = record { db = after_call.db; events = 1 ∷ 1 ∷ [] }

abbrev is_period_not_found : String → Bool
is_period_not_found e = e == "schedule period not found"

-- No period is found.
abbrev repository_without_periods : Repository ℤ Schedule String
repository_without_periods = record repository_of_one {
  get_period_by_id = λ id d. err "schedule period not found";
}

handle_delete_period-unknown :
    handle_delete_period repository_without_periods is_period_not_found 9 (some 4) after_call
    ≡ (error 404, after_call)
unfolding handle_delete_period delete_period get_period_by_id
handle_delete_period-unknown = refl

handle_update_period-sample :
    handle_update_period repository_of_periods is_period_not_found 9
      (some 4)
      (some morning_request)
      after_call
    ≡ (json 200 updated_period, after_update)
unfolding handle_update_period validate_period_request out_of_bounds to_period_input update_period
    get_period_by_id build_period string_le codes_le notify_if_active notify_schedule_changed
handle_update_period-sample = refl

handle_update_period-IsRequest_example :
    (repository_of_periods.update_period updated_period after_call.db ≡ ok after_update.db)
    × IsRequest updated_period.days_of_week updated_period.mode updated_period.target_temp
        updated_period.target_hum
    × (string_le updated_period.end_time updated_period.start_time ≡ false)
handle_update_period-IsRequest_example =
    handle_update_period-IsRequest repository_of_periods is_period_not_found 9 4 morning_request
      after_call after_update updated_period handle_update_period-sample
