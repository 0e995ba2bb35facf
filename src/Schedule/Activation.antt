-- ===== src/Schedule/Activation.antt =====
-- `Service.Activate`: what a call that succeeds has checked, and a second call.
use climate_control.Prelude.{◌≡◌, refl, true, false, inl, inr, ◌∷◌, Bool-cases, arith}
use climate_control.Prelude.Result.{ok, err, Result-cases}
use climate_control.Cache.{Uuid}
use climate_control.Schedule.{
  Schedule, Repository, already_active, World, activate, notify_schedule_changed,
}

module _ {R D E : Type 0} (repo : Repository R D E) where
  -- An activated schedule is read back as active.
  abbrev pub StoresActive : Type 0
  StoresActive =
      (id user_id : Uuid) (d d' : D) (sched : Schedule)
      → repo.get_by_id id user_id d ≡ ok sched
      → repo.activate id sched.room_id d ≡ ok d'
      → repo.get_by_id id user_id d' ≡ ok (record sched { is_active = true })

  -- The queries behind a call that succeeds.
  record Activated (id user_id : Uuid) (w : World D) (s : Schedule) (w' : World D) : Type 0 where
    sched : Schedule
    found : repo.get_by_id id user_id w.db ≡ ok sched
    capable : repo.periods_have_capability id sched.room_id w.db ≡ ok true
    updated : repo.activate id sched.room_id w.db ≡ ok w'.db
    result : s ≡ record sched { is_active = true }
    events : w'.events ≡ sched.room_id ∷ w.events

  activate-Activated :
      (id user_id : Uuid) (w w' : World D) (s : Schedule)
      → activate repo id user_id w ≡ ok (s, w')
      → Activated id user_id w s w'
  unfolding activate notify_schedule_changed
  activate-Activated id user_id w w' s h = elim (Result-cases (repo.get_by_id id user_id w.db)) [
    | inr (x, e) ↦ absurd (ground (arith, h, e))
    | inl (sched, e) ↦ elim (Bool-cases sched.is_active) [
      | inl a ↦ absurd (ground (arith, h, e, a))
      | inr a ↦ elim (Result-cases (repo.periods_have_capability id sched.room_id w.db)) [
        | inr (x, k) ↦ absurd (ground (arith, h, e, a, k))
        | inl (false, k) ↦ absurd (ground (arith, h, e, a, k))
        | inl (true, k) ↦ elim (Result-cases (repo.activate id sched.room_id w.db)) [
          | inr (x, l) ↦ absurd (ground (arith, h, e, a, k, l))
          | inl (d, l) ↦ record {
            sched = sched;
            found = e;
            capable = k;
            updated = ground (arith, h, e, a, k, l);
            result = ground (arith, h, e, a, k, l);
            events = ground (arith, h, e, a, k, l);
          }
        ]
      ]
    ]
  ]

  -- Let the database read back a schedule that it activated as active. If `Activate` succeeds, then
  -- the room had the capabilities for the schedule's periods, exactly one event, for the schedule's
  -- room, was published, and a second call for the same schedule fails with ErrAlreadyActive.
  pub activate-again :
      StoresActive
      → (id user_id : Uuid) (w w' : World D) (s : Schedule)
      → activate repo id user_id w ≡ ok (s, w')
      → (repo.periods_have_capability id s.room_id w.db ≡ ok true)
        × (w'.events ≡ s.room_id ∷ w.events)
        × (activate repo id user_id w' ≡ err already_active)
  unfolding activate
  activate-again stores id user_id w w' s h =
      let a = activate-Activated id user_id w w' s h in
      let again = stores id user_id w.db w'.db a.sched a.found a.updated in
      (rw a.result a.capable, rw a.result a.events, rw (activate, again) refl)
