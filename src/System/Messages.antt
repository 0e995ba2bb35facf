-- ===== src/System/Messages.antt =====
-- The sanity of the store and the scheduler, and that every message of the stream keeps it.
use climate_control.Prelude.{
  String, Bool, true, false, ◌||◌, Option, none, some, ◌==◌, nat_eq, string_eq, inl, inr,
  if◌then◌else◌,
}
use climate_control.Prelude.Dict.{Dict}
use climate_control.Prelude.Result.{Result-cases}
use climate_control.Cache.{Uuid}
use climate_control.Appdb.Reload.{reload_room, reload_device}
use climate_control.Scheduler.Reachable as Sched_reachable
use climate_control.Scheduler.Reachable.{booted, next, started, added, removed, Reachable-running}
use climate_control.Stream.{
  Environment, Consumer, Message, FieldValue, DispatchError, extract_string, extract_room_id,
  reloaded_room, on_room_created, on_room_deleted, on_room_reload, on_device_changed,
  ack_unless_failed, dispatch_event, dispatch,
}
use climate_control.System.Rooms.{
  IsSound, RowsMatch, delete_room-IsSound, reload_room-IsSound, reload_device-IsSound,
}

module _ {R : Type 0} where
  -- The rooms are sound, and the scheduler is one that the program makes.
  pub record IsSane (c : Consumer R) : Type 0 where
    pub rooms : IsSound c.store
    pub sched : Sched_reachable.Reachable c.sched

  ack_unless_failed-IsSane :
      (env : Environment R) (id : String) (r : Consumer R × Option DispatchError)
      → IsSane r.0
      → IsSane (ack_unless_failed env id r)
  unfolding ack_unless_failed
  ack_unless_failed-IsSane env id (c, none) h = record { rooms = h.rooms; sched = h.sched }
  ack_unless_failed-IsSane env id (c, some e) h = h

  IsSane-if : (b : Bool) (x y : Consumer R) → IsSane x → IsSane y → IsSane (if b then x else y)
  IsSane-if true x y h k = h
  IsSane-if false x y h k = k

  module _ (env : Environment R) (match : RowsMatch env.queries) where
    reloaded_room-IsSane :
        (id : Uuid) (c : Consumer R) → IsSane c → IsSane (reloaded_room env id c).0
    unfolding reloaded_room
    reloaded_room-IsSane id c h = elim (Result-cases (reload_room env.queries id c.store)) [
      | inl (s, k) ↦
          rw (reloaded_room, k)
            (record {
              rooms = reload_room-IsSound env.queries match id c.store s k h.rooms;
              sched = h.sched;
            })
      | inr (x, k) ↦ rw (reloaded_room, k) h
    ]

    on_room_created-IsSane :
        (v : Dict String FieldValue) (c : Consumer R)
        → IsSane c
        → IsSane (on_room_created env v c).0
    unfolding on_room_created
    on_room_created-IsSane v c h = elim (Result-cases (extract_room_id env v)) [
      | inr (x, k) ↦ rw (on_room_created, k) h
      | inl (id, k) ↦ elim (Result-cases (reload_room env.queries id c.store)) [
        | inl (s, l) ↦
            rw (on_room_created, k, l)
              (record {
                rooms = reload_room-IsSound env.queries match id c.store s l h.rooms;
                sched = next h.sched (added id);
              })
        | inr (x, l) ↦ rw (on_room_created, k, l) h
      ]
    ]

    on_room_deleted-IsSane :
        (v : Dict String FieldValue) (c : Consumer R)
        → IsSane c
        → IsSane (on_room_deleted env v c).0
    unfolding on_room_deleted
    on_room_deleted-IsSane v c h = elim (Result-cases (extract_room_id env v)) [
      | inr (x, k) ↦ rw (on_room_deleted, k) h
      | inl (id, k) ↦
          rw (on_room_deleted, k)
            (record {
              rooms = delete_room-IsSound c.store id h.rooms;
              sched = next h.sched (removed id);
            })
    ]

    on_room_reload-IsSane :
        (v : Dict String FieldValue) (c : Consumer R) → IsSane c → IsSane (on_room_reload env v c).0
    unfolding on_room_reload
    on_room_reload-IsSane v c h = elim (Result-cases (extract_room_id env v)) [
      | inr (x, k) ↦ rw (on_room_reload, k) h
      | inl (id, k) ↦ rw (on_room_reload, k) (reloaded_room-IsSane id c h)
    ]

    on_device_changed-IsSane :
        (v : Dict String FieldValue) (c : Consumer R)
        → IsSane c
        → IsSane (on_device_changed env v c).0
    unfolding on_device_changed
    on_device_changed-IsSane v c h = elim (Result-cases (extract_string v "hw_id")) [
      | inr (x, k) ↦ rw (on_device_changed, k) h
      | inl (hw_id, k) ↦ elim (Result-cases (extract_room_id env v)) [
        | inr (x, l) ↦ rw (on_device_changed, k, l) h
        | inl (id, l) ↦ elim (Result-cases (reload_device env.queries hw_id c.store)) [
          | inr (x, n) ↦ rw (on_device_changed, k, l, n) h
          | inl (s, n) ↦
              rw (on_device_changed, k, l, n)
                (reloaded_room-IsSane id (record c { store = s })
                  (record {
                    rooms = reload_device-IsSound env.queries hw_id c.store s n h.rooms;
                    sched = h.sched;
                  }))
        ]
      ]
    ]

    pub dispatch-IsSane : (m : Message) (c : Consumer R) → IsSane c → IsSane (dispatch env m c)
    unfolding dispatch dispatch_event
    dispatch-IsSane m c h = elim (Result-cases (extract_string m.values "event")) [
      | inr (x, e) ↦ rw (dispatch, e) (record { rooms = h.rooms; sched = h.sched })
      | inl (event, e) ↦
          rw (dispatch, e)
            (IsSane-if (event == "room_created") _ _
              (ack_unless_failed-IsSane env m.id _ (on_room_created-IsSane m.values c h))
              (IsSane-if (event == "room_deleted") _ _
                (ack_unless_failed-IsSane env m.id _ (on_room_deleted-IsSane m.values c h))
                (IsSane-if
                  (event == "room_config_changed"
                    || event == "desired_state_changed"
                    || event == "schedule_changed")
                  _ _ (ack_unless_failed-IsSane env m.id _ (on_room_reload-IsSane m.values c h))
                  (IsSane-if (event == "device_assigned" || event == "device_unassigned") _ _
                    (ack_unless_failed-IsSane env m.id _ (on_device_changed-IsSane m.values c h))
                    (record { rooms = h.rooms; sched = h.sched })))))
    ]
