-- ===== src/Schedule/Notify.antt =====
-- The events of the operations on periods.
use climate_control.Prelude.{◌≡◌, false, some, List, ◌∷◌, inl, inr, if◌then◌else◌, arith}
use climate_control.Prelude.Result.{ok, Result-cases}
use climate_control.Cache.{Uuid}
use climate_control.Schedule.{
  Schedule, SchedulePeriod, PeriodInput, Repository, World, build_period, string_le,
  get_period_by_id, update_period, notify_if_active, notify_schedule_changed,
}
use climate_control.Schedule.Periods.{build_period-times}

-- The events after a change to a period of a schedule: one more, for its room, if it is active.
abbrev pub events_after : Schedule → List Uuid → List Uuid
events_after sched events = if sched.is_active then sched.room_id ∷ events else events

notify_if_active-events :
    {D : Type 0} (sched : Schedule) (w : World D)
    → (notify_if_active sched w).events ≡ events_after sched w.events
unfolding notify_if_active notify_schedule_changed
notify_if_active-events sched w = ground arith

module _ {R D E : Type 0} (repo : Repository R D E) where
  -- If `UpdatePeriod` succeeds, then the period and its schedule were found for the user, the new row
  -- has the period's ID and schedule, its end is not at or before its start in the order of texts,
  -- and one event for the room was published if the schedule is active, and none otherwise.
  pub update_period-events :
      (period_id user_id : Uuid) (input : PeriodInput R) (w w' : World D)
      → (p : SchedulePeriod R) → update_period repo period_id user_id input w ≡ ok (p, w')
      → (old : SchedulePeriod R) × (sched : Schedule) × (get_period_by_id repo period_id user_id
            w.db
          ≡ ok (old, sched))
        × (p.id ≡ old.id)
        × (p.schedule_id ≡ old.schedule_id)
        × (string_le p.end_time p.start_time ≡ false)
        × (w'.events ≡ events_after sched w.events)
  unfolding update_period
  update_period-events period_id user_id input w w' p h =
      elim (Result-cases (get_period_by_id repo period_id user_id w.db)) [
        | inr (x, e) ↦ absurd (ground (arith, h, e))
        | inl ((old, sched), e) ↦
            elim (Result-cases (build_period repo old.schedule_id input (some old.id) w.db)) [
              | inr (x, k) ↦ absurd (ground (arith, h, e, k))
              | inl (built, k) ↦
                  elim (Result-cases (repo.update_period (record built { id = old.id }) w.db)) [
                    | inr (x, l) ↦ absurd (ground (arith, h, e, k, l))
                    | inl (d, l) ↦
                        let (start, finish, order, same) =
                          build_period-times repo old.schedule_id input (some old.id) w.db built
                            k in
                        (
                          old,
                          sched,
                          e,
                          ground (arith, h, e, k, l),
                          ground (arith, h, e, k, l, same),
                          ground (arith, h, e, k, l, start, finish, order),
                          ground (
                            arith,
                            h,
                            e,
                            k,
                            l,
                            notify_if_active-events sched (record w { db = d }),
                          ),
                        )
                  ]
            ]
      ]
