-- ===== src/Stream/Failure.antt =====
-- What a message that is not acknowledged leaves behind.
use climate_control.Prelude.{
  ◌≡◌, refl, ◌∙◌, ap, sym, String, Bool, true, false, ◌||◌, Option, none, some, List, ◌∷◌, ◌==◌,
  string_eq, length, inl, inr, if◌then◌else◌, arith,
}
use climate_control.Prelude.Dict.{Dict}
use climate_control.Prelude.Result.{Result-cases}
use climate_control.Cache.{Uuid}
use climate_control.Appdb.Reload.{reload_room, reload_device}
use climate_control.Stream.{
  FieldValue, Message, Environment, Consumer, DispatchError, extract_string, extract_room_id,
  reloaded_room, on_room_created, on_room_deleted, on_room_reload, on_device_changed,
  ack_unless_failed, dispatch_event, dispatch,
}
use climate_control.Stream.Drain.{
  acked-on_room_created, acked-on_room_deleted, acked-on_room_reload, acked-on_device_changed,
}
use climate_control.Appdb.Reload.Effect.{reload_device-rooms}

module _ {R : Type 0} (env : Environment R) where
  -- The rooms and the scheduler are as before.
  abbrev pub RoomsUnchanged : Consumer R → Consumer R → Type 0
  RoomsUnchanged c c' = (c'.store.rooms ≡ c.store.rooms) × (c'.sched ≡ c.sched)

  -- A handler that fails leaves them so.
  abbrev FailsClean : Consumer R → Consumer R × Option DispatchError → Type 0
  FailsClean c r = (e : DispatchError) → r.1 ≡ some e → RoomsUnchanged c r.0

  reloaded_room-FailsClean : (id : Uuid) (c : Consumer R) → FailsClean c (reloaded_room env id c)
  unfolding reloaded_room
  reloaded_room-FailsClean id c e h = elim (Result-cases (reload_room env.queries id c.store)) [
    | inl (s, k) ↦ absurd (ground (arith, h, k))
    | inr (x, k) ↦ rw (reloaded_room, k) (refl, refl)
  ]

  on_room_created-FailsClean :
      (v : Dict String FieldValue) (c : Consumer R) → FailsClean c (on_room_created env v c)
  unfolding on_room_created
  on_room_created-FailsClean v c e h = elim (Result-cases (extract_room_id env v)) [
    | inr (x, k) ↦ rw (on_room_created, k) (refl, refl)
    | inl (id, k) ↦ elim (Result-cases (reload_room env.queries id c.store)) [
      | inl (s, l) ↦ absurd (ground (arith, h, k, l))
      | inr (x, l) ↦ rw (on_room_created, k, l) (refl, refl)
    ]
  ]

  on_room_deleted-FailsClean :
      (v : Dict String FieldValue) (c : Consumer R) → FailsClean c (on_room_deleted env v c)
  unfolding on_room_deleted
  on_room_deleted-FailsClean v c e h = elim (Result-cases (extract_room_id env v)) [
    | inr (x, k) ↦ rw (on_room_deleted, k) (refl, refl)
    | inl (id, k) ↦ absurd (ground (arith, h, k))
  ]

  on_room_reload-FailsClean :
      (v : Dict String FieldValue) (c : Consumer R) → FailsClean c (on_room_reload env v c)
  unfolding on_room_reload
  on_room_reload-FailsClean v c e h = elim (Result-cases (extract_room_id env v)) [
    | inr (x, k) ↦ rw (on_room_reload, k) (refl, refl)
    | inl (id, k) ↦
        let go : FailsClean c (on_room_reload env v c) =
          rw (on_room_reload, k) (reloaded_room-FailsClean id c) in
        go e h
  ]

  on_device_changed-FailsClean :
      (v : Dict String FieldValue) (c : Consumer R) → FailsClean c (on_device_changed env v c)
  unfolding on_device_changed
  on_device_changed-FailsClean v c = elim (Result-cases (extract_string v "hw_id")) [
    | inr (x, k) ↦ rw (on_device_changed, k) (λ e h. (refl, refl))
    | inl (hw_id, k) ↦ elim (Result-cases (extract_room_id env v)) [
      | inr (x, l) ↦ rw (on_device_changed, k, l) (λ e h. (refl, refl))
      | inl (id, l) ↦ elim (Result-cases (reload_device env.queries hw_id c.store)) [
        | inr (x, n) ↦ rw (on_device_changed, k, l, n) (λ e h. (refl, refl))
        | inl (s, n) ↦
            rw (on_device_changed, k, l, n)
              (λ e h.
                let (rooms, sched) = reloaded_room-FailsClean id (record c { store = s }) e h in
                (rooms ∙ reload_device-rooms env.queries hw_id c.store s n, sched))
      ]
    ]
  ]

  -- Acknowledged, or with the rooms and the scheduler as before.
  abbrev Settled : Message → Consumer R → Consumer R → Type 0
  Settled m c c' = (c'.acked ≡ c.acked) → RoomsUnchanged c c'

  longer : (id : String) (acked : List String) → ¬ (id ∷ acked ≡ acked)
  longer id acked e = omega (arith, ap length e)

  Settled-if :
      (m : Message) (c : Consumer R) (b : Bool) (x y : Consumer R)
      → Settled m c x
      → Settled m c y
      → Settled m c (if b then x else y)
  Settled-if m c true x y h k = h
  Settled-if m c false x y h k = k

  ack_unless_failed-Settled :
      (m : Message) (c : Consumer R) (r : Consumer R × Option DispatchError)
      → r.0.acked ≡ c.acked
      → FailsClean c r
      → Settled m c (ack_unless_failed env m.id r)
  unfolding ack_unless_failed
  ack_unless_failed-Settled m c (c', none) same clean e =
      absurd (longer m.id c'.acked (e ∙ sym same))
  ack_unless_failed-Settled m c (c', some x) same clean e = clean x refl

  -- If a dispatch does not acknowledge its message, then every room of the cache and the whole
  -- scheduler are as they were before it; a device that was reloaded first may have changed.
  pub dispatch-RoomsUnchanged :
      (m : Message) (c : Consumer R)
      → (dispatch env m c).acked ≡ c.acked
      → RoomsUnchanged c (dispatch env m c)
  unfolding dispatch dispatch_event
  dispatch-RoomsUnchanged m c = elim (Result-cases (extract_string m.values "event")) [
    | inr (x, e) ↦ rw (dispatch, e) (λ h. absurd (longer m.id c.acked h))
    | inl (event, e) ↦
        rw (dispatch, e)
          (Settled-if m c (event == "room_created") _ _
            (ack_unless_failed-Settled m c _ (acked-on_room_created env m.values c)
              (on_room_created-FailsClean m.values c))
            (Settled-if m c (event == "room_deleted") _ _
              (ack_unless_failed-Settled m c _ (acked-on_room_deleted env m.values c)
                (on_room_deleted-FailsClean m.values c))
              (Settled-if m c
                (event == "room_config_changed"
                  || event == "desired_state_changed"
                  || event == "schedule_changed")
                _ _
                (ack_unless_failed-Settled m c _ (acked-on_room_reload env m.values c)
                  (on_room_reload-FailsClean m.values c))
                (Settled-if m c (event == "device_assigned" || event == "device_unassigned") _ _
                  (ack_unless_failed-Settled m c _ (acked-on_device_changed env m.values c)
                    (on_device_changed-FailsClean m.values c))
                  (λ h. absurd (longer m.id c.acked h))))))
  ]
