-- ===== src/Schedule/PeriodHandler/Valid.antt =====
-- The rows that an update of a period writes.
use climate_control.Prelude.{
  ◌≡◌, inl, inr, String, Bool, false, not, ◌&&◌, ◌||◌, Option, some, List, [], ◌∷◌, ◌==◌, string_eq,
  any, All, is_some, Bool-cases, arith,
}
use climate_control.Prelude.Int.{ℤ, pos, ltb_ℤ, ◌≤ℤ◌}
use climate_control.Prelude.Result.{ok, Result-cases}
use climate_control.Float.{Float64, float}
use climate_control.Cache.{Uuid}
use climate_control.Api.{json}
use climate_control.Api.Rooms.Targets.{out_of_bounds}
use climate_control.Api.Rooms.Targets.Accepted.{WithinBounds, out_of_bounds_lem}
use climate_control.Schedule.{
  PeriodInput, SchedulePeriod, Repository, World, notify_if_active, notify_schedule_changed,
  string_le, build_period, update_period, get_period_by_id,
}
use climate_control.Schedule.Periods.{build_period-times}
use climate_control.Schedule.PeriodHandler.{
  PeriodRequest, validate_period_request, to_period_input, handle_update_period,
}

-- From Monday to Sunday.
abbrev pub OnWeekdays : List ℤ → Type 0
OnWeekdays days = All (λ d. (pos 1 ≤ℤ d) × (d ≤ℤ pos 7)) days

any-OnWeekdays :
    (days : List ℤ) → any (λ d. ltb_ℤ d (pos 1) || ltb_ℤ (pos 7) d) days ≡ false → OnWeekdays days
any-OnWeekdays [] h = tt
any-OnWeekdays (d ∷ ds) h =
    ((ground (arith, h), ground (arith, h)), any-OnWeekdays ds (ground (arith, h)))

module _ {R : Type 0} ⦃f : Float64 R⦄ where
  -- Each day is from Monday to Sunday, the targets lie between their bounds, AUTO has a target.
  pub record IsRequest (days : List ℤ) (mode : String) (target_temp target_hum : Option R)
      : Type 0 where
    pub weekdays : OnWeekdays days
    pub temp : WithinBounds (float 5) (float 40) target_temp
    pub hum : WithinBounds (float 0) (float 100) target_hum
    pub has_target : mode == "AUTO" && not (is_some target_temp) && not (is_some target_hum) ≡ false

  validate_period_request-IsRequest :
      (req : PeriodRequest R)
      → validate_period_request req ≡ ok tt
      → IsRequest req.days_of_week req.mode req.target_temp req.target_hum
  unfolding validate_period_request
  validate_period_request-IsRequest req h =
      elim (Bool-cases (any (λ d. ltb_ℤ d (pos 1) || ltb_ℤ (pos 7) d) req.days_of_week)) [
        | inl a ↦ absurd (ground (arith, h, a))
        | inr a ↦
            elim (Bool-cases (
              req.mode == "AUTO"
              && not (is_some req.target_temp)
              && not (is_some req.target_hum))) [
                | inl b ↦ absurd (ground (arith, h, a, b))
                | inr b ↦ elim (Bool-cases (out_of_bounds (float 5) (float 40) req.target_temp)) [
                  | inl c ↦ absurd (ground (arith, h, a, b, c))
                  | inr c ↦ elim (Bool-cases (out_of_bounds (float 0) (float 100) req.target_hum)) [
                    | inl d ↦ absurd (ground (arith, h, a, b, c, d))
                    | inr d ↦ record {
                      weekdays = any-OnWeekdays req.days_of_week a;
                      temp = out_of_bounds_lem (float 5) (float 40) req.target_temp c;
                      hum = out_of_bounds_lem (float 0) (float 100) req.target_hum d;
                      has_target = b;
                    }
                  ]
                ]
              ]
      ]

module _ {R D E : Type 0} ⦃f : Float64 R⦄ (repo : Repository R D E) (is_period_not_found : E → Bool)
    (user_id : Uuid) where
  build_period-input :
      (schedule_id : Uuid) (input : PeriodInput R) (exclude_id : Option Uuid) (d : D)
      (p : SchedulePeriod R)
      → build_period repo schedule_id input exclude_id d ≡ ok p
      → (p.days_of_week ≡ input.days_of_week)
        × (p.mode ≡ input.mode)
        × (p.target_temp ≡ input.target_temp)
        × (p.target_hum ≡ input.target_hum)
  unfolding build_period
  build_period-input schedule_id input exclude_id d p h =
      elim (Bool-cases (string_le input.end_time input.start_time)) [
        | inl e ↦ absurd (ground (arith, h, e))
        | inr e ↦
            elim (Result-cases (
              repo.has_overlap schedule_id input.days_of_week input.start_time input.end_time
                exclude_id d)) [
                  | inr (x, k) ↦ absurd (ground (arith, h, e, k))
                  | inl (b, k) ↦ ground (arith, h, e, k)
                ]
      ]

  -- A row that holds what the input asks for; its end is not at or before its start as a text.
  record Written (input : PeriodInput R) (w w' : World D) (p : SchedulePeriod R) : Type 0 where
    saved : repo.update_period p w.db ≡ ok w'.db
    days : p.days_of_week ≡ input.days_of_week
    mode : p.mode ≡ input.mode
    temp : p.target_temp ≡ input.target_temp
    hum : p.target_hum ≡ input.target_hum
    order : string_le p.end_time p.start_time ≡ false

  update_period-Written :
      (id : Uuid) (input : PeriodInput R) (w w' : World D) (p : SchedulePeriod R)
      → update_period repo id user_id input w ≡ ok (p, w')
      → Written input w w' p
  unfolding update_period notify_if_active notify_schedule_changed
  update_period-Written id input w w' p h =
      elim (Result-cases (get_period_by_id repo id user_id w.db)) [
        | inr (x, e) ↦ absurd (ground (arith, h, e))
        | inl ((old, sched), e) ↦
            elim (Result-cases (build_period repo old.schedule_id input (some old.id) w.db)) [
              | inr (x, k) ↦ absurd (ground (arith, h, e, k))
              | inl (built, k) ↦
                  elim (Result-cases (repo.update_period (record built { id = old.id }) w.db)) [
                    | inr (x, l) ↦ absurd (ground (arith, h, e, k, l))
                    | inl (d, l) ↦
                        let (start, finish, order, _) =
                          build_period-times repo old.schedule_id input (some old.id) w.db built
                            k in
                        let (days, mode, temp, hum) =
                          build_period-input old.schedule_id input (some old.id) w.db built k in
                        record {
                          saved = ground (arith, h, e, k, l);
                          days = ground (arith, h, e, k, l, days);
                          mode = ground (arith, h, e, k, l, mode);
                          temp = ground (arith, h, e, k, l, temp);
                          hum = ground (arith, h, e, k, l, hum);
                          order = ground (arith, h, e, k, l, start, finish, order);
                        }
                  ]
            ]
      ]

  -- If PUT /schedule-periods/:id answers 200 with a row, then that row was saved, its days are from 1
  -- to 7, its targets are unset or within 5 to 40 and 0 to 100, it has a target if its mode is AUTO,
  -- and its end is not at or before its start as a text.
  pub handle_update_period-IsRequest :
      (id : Uuid) (req : PeriodRequest R) (w w' : World D) (p : SchedulePeriod R)
      → handle_update_period repo is_period_not_found user_id (some id) (some req) w
        ≡ (json 200 p, w')
      → (repo.update_period p w.db ≡ ok w'.db)
        × IsRequest p.days_of_week p.mode p.target_temp p.target_hum
        × (string_le p.end_time p.start_time ≡ false)
  unfolding handle_update_period to_period_input
  handle_update_period-IsRequest id req w w' p h =
      elim (Result-cases (validate_period_request req)) [
        | inr (x, e) ↦ absurd (ground (arith, h, e))
        | inl (u, e) ↦ elim (Result-cases (update_period repo id user_id (to_period_input req) w)) [
          | inr (x, k) ↦ absurd (ground (arith, h, e, k))
          | inl ((row, after), k) ↦
              let same : update_period repo id user_id (to_period_input req) w ≡ ok (p, w') =
                ground (arith, h, e, k) in
              let s = update_period-Written id (to_period_input req) w w' p same in
              let v = validate_period_request-IsRequest req e in
              (s.saved, rw (s.days, s.mode, s.temp, s.hum) v, s.order)
        ]
      ]
