-- ===== src/System/Unstarted.antt =====
-- Which steps of the running service start a room.
use climate_control.Prelude.{
  ◌≡◌, refl, ◌∙◌, ap, sym, subst, String, Bool, true, false, ◌||◌, Option, none, some, ◌==◌, nat_eq,
  string_eq, eq_iff, Bool-cases, inl, inr, if◌then◌else◌, arith,
}
use climate_control.Prelude.Dict.{Dict, contains, contains-erase}
use climate_control.Prelude.Result.{ok, Result-cases}
use climate_control.Float.{Float64}
use climate_control.Cache.{Uuid}
use climate_control.Appdb.Reload.{reload_room, reload_device}
use climate_control.Scheduler.{Loop, Scheduler, remove_room}
use climate_control.Scheduler.Running.{running}
use climate_control.Scheduler.Reachable.{Reachable-running}
use climate_control.Stream.{
  Environment, Consumer, Message, FieldValue, DispatchError, extract_string, extract_room_id,
  reloaded_room, on_room_deleted, on_room_reload, on_device_changed, ack_unless_failed,
  dispatch_event, dispatch,
}
use climate_control.System.{refresh, ingest, control_tick}
use climate_control.System.Sound.{
  Running, Step, ingested, ticked, refreshed, dispatched, ran, Running-IsSane,
}

contains-remove_room-false :
    (id j : Uuid) (s : Scheduler)
    → contains j s.active_rooms ≡ false
    → contains j (remove_room id s).active_rooms ≡ false
unfolding remove_room
contains-remove_room-false id j s h = ground (arith, h, contains-erase id j s.active_rooms)

module _ {R : Type 0} (j : Uuid) where
  -- The room is not active.
  abbrev IsIdle : Consumer R → Type 0
  IsIdle c = contains j c.sched.active_rooms ≡ false

  ack_unless_failed-IsIdle :
      (env : Environment R) (id : String) (r : Consumer R × Option DispatchError)
      → IsIdle r.0
      → IsIdle (ack_unless_failed env id r)
  unfolding ack_unless_failed
  ack_unless_failed-IsIdle env id (c, none) h = h
  ack_unless_failed-IsIdle env id (c, some e) h = h

  IsIdle-if : (b : Bool) (x y : Consumer R) → IsIdle x → IsIdle y → IsIdle (if b then x else y)
  IsIdle-if true x y h k = h
  IsIdle-if false x y h k = k

  module _ (env : Environment R) where
    sched-reloaded_room : (id : Uuid) (c : Consumer R) → (reloaded_room env id c).0.sched ≡ c.sched
    unfolding reloaded_room
    sched-reloaded_room id c = ground arith

    sched-on_room_reload :
        (v : Dict String FieldValue) (c : Consumer R) → (on_room_reload env v c).0.sched ≡ c.sched
    unfolding on_room_reload
    sched-on_room_reload v c = elim (Result-cases (extract_room_id env v)) [
      | inr (x, k) ↦ rw (on_room_reload, k) refl
      | inl (id, k) ↦ rw (on_room_reload, k) (sched-reloaded_room id c)
    ]

    sched-on_device_changed :
        (v : Dict String FieldValue) (c : Consumer R)
        → (on_device_changed env v c).0.sched ≡ c.sched
    unfolding on_device_changed
    sched-on_device_changed v c = elim (Result-cases (extract_string v "hw_id")) [
      | inr (x, k) ↦ rw (on_device_changed, k) refl
      | inl (hw_id, k) ↦ elim (Result-cases (extract_room_id env v)) [
        | inr (x, l) ↦ rw (on_device_changed, k, l) refl
        | inl (id, l) ↦ elim (Result-cases (reload_device env.queries hw_id c.store)) [
          | inr (x, n) ↦ rw (on_device_changed, k, l, n) refl
          | inl (s, n) ↦
              rw (on_device_changed, k, l, n) (sched-reloaded_room id (record c { store = s }))
        ]
      ]
    ]

    on_room_deleted-IsIdle :
        (v : Dict String FieldValue) (c : Consumer R)
        → IsIdle c
        → IsIdle (on_room_deleted env v c).0
    unfolding on_room_deleted
    on_room_deleted-IsIdle v c h = elim (Result-cases (extract_room_id env v)) [
      | inr (x, k) ↦ rw (on_room_deleted, k) h
      | inl (id, k) ↦ rw (on_room_deleted, k) (contains-remove_room-false id j c.sched h)
    ]

    sched-IsIdle : (c c' : Consumer R) → c'.sched ≡ c.sched → IsIdle c → IsIdle c'
    sched-IsIdle c c' e h = subst (λ s. contains j s.active_rooms ≡ false) (sym e) h

    dispatch-IsIdle :
        (m : Message) (c : Consumer R)
        → ¬ (extract_string m.values "event" ≡ ok "room_created")
        → IsIdle c
        → IsIdle (dispatch env m c)
    unfolding dispatch dispatch_event
    dispatch-IsIdle m c other h = elim (Result-cases (extract_string m.values "event")) [
      | inr (x, e) ↦ rw (dispatch, e) h
      | inl (event, e) ↦ elim (Bool-cases (event == "room_created")) [
        | inl t ↦ absurd (other (e ∙ ap ok ((eq_iff event "room_created").0 t)))
        | inr t ↦
            rw (dispatch, e, dispatch_event, t)
              (IsIdle-if (event == "room_deleted") _ _
                (ack_unless_failed-IsIdle env m.id _ (on_room_deleted-IsIdle m.values c h))
                (IsIdle-if
                  (event == "room_config_changed"
                    || event == "desired_state_changed"
                    || event == "schedule_changed")
                  _ _
                  (ack_unless_failed-IsIdle env m.id _ (
                    sched-IsIdle c (on_room_reload env m.values c).0
                      (sched-on_room_reload m.values c) h))
                  (IsIdle-if (event == "device_assigned" || event == "device_unassigned") _ _
                    (ack_unless_failed-IsIdle env m.id _ (
                      sched-IsIdle c (on_device_changed env m.values c).0
                        (sched-on_device_changed m.values c) h))
                    h)))
      ]
    ]

module _ {R : Type 0} ⦃f : Float64 R⦄ where
  -- A step that dispatches no room_created message.
  abbrev pub IsQuiet : {c c' : Consumer R} → Step c c' → Type 0
  IsQuiet (dispatched env m match) = ¬ (extract_string m.values "event" ≡ ok "room_created")
  IsQuiet _ = Unit

  -- Any number of such steps.
  pub data QuietSteps (c : Consumer R) : Consumer R → Type 0 where
    stay : QuietSteps c c
    step :
        {c' c'' : Consumer R} → QuietSteps c c' → (s : Step c' c'') → IsQuiet s → QuietSteps c c''

  Step-IsIdle :
      (j : Uuid) (c c' : Consumer R) (s : Step c c') → IsQuiet s → IsIdle j c → IsIdle j c'
  unfolding ingest control_tick refresh
  Step-IsIdle j c c' (ingested write stale msg) quiet h = h
  Step-IsIdle j c c' (ticked tr stale id now r) quiet h = h
  Step-IsIdle j c c' (refreshed q id match r) quiet h =
      elim (Result-cases (reload_room q id c.store)) [
        | inl (s, e) ↦ rw (refresh, e) h
        | inr (x, e) ↦ rw (refresh, e) h
      ]
  Step-IsIdle j c c' (dispatched env m match) quiet h = dispatch-IsIdle j env m c quiet h

  QuietSteps-IsIdle : (j : Uuid) {c c' : Consumer R} → QuietSteps c c' → IsIdle j c → IsIdle j c'
  QuietSteps-IsIdle j stay h = h
  QuietSteps-IsIdle j {c} (step {c'} {c''} steps s quiet) h =
      Step-IsIdle j c' c'' s quiet (QuietSteps-IsIdle j steps h)

  QuietSteps-Running : {c c' : Consumer R} → Running c → QuietSteps c c' → Running c'
  QuietSteps-Running r stay = r
  QuietSteps-Running r (step steps s quiet) = ran (QuietSteps-Running r steps) s

  -- A room that is not active in a running service has no control loop and no cache refresh after any
  -- number of further steps, unless one of them dispatches a room_created message: neither the
  -- refreshes of other rooms nor other messages about it start it, also where they put it into the
  -- cache.
  pub QuietSteps-running :
      (j : Uuid) {c c' : Consumer R}
      → Running c
      → QuietSteps c c'
      → contains j c.sched.active_rooms ≡ false
      → (l : Loop) → running l j c'.sched.cancelled c'.sched.goroutines ≡ 0
  QuietSteps-running j r steps h l =
      Reachable-running (Running-IsSane (QuietSteps-Running r steps)).sched l j
      ∙ ap (λ b. if b then 1 else 0) (QuietSteps-IsIdle j steps h)
