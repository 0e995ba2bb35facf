-- ===== src/Appdb/Warm/Agree.antt =====
-- The store after the start against a reload of each room.
use climate_control.Prelude.{
  ◌≡◌, refl, ◌∙◌, ap, sym, subst, String, Bool, true, false, Option, none, some, List, [], ◌∷◌,
  ◌++◌, map, keep, ◌==◌, nat_eq, eq_iff, any, eq_refl, Bool-cases, All, inl, inr, if◌then◌else◌,
  arith,
}
use climate_control.Prelude.Dict.{Dict}
use climate_control.Prelude.Result.{Result, ok, ◌>>=◌, wrap_err, Result-cases}
use climate_control.Time.{Location}
use climate_control.Cache.{Uuid, RoomCache, Store, room, add_room, slice_at}
use climate_control.Cache.Laws.{room-add_room, room-add_device}
use climate_control.Appdb.{
  RoomRow, DesiredStateRow, ActivePeriodRow, DeviceRow, ActuatorRow, Queries, LoadError,
}
use climate_control.Appdb.Assembly.{
  BuildError, build_room_cache, build_actuator_hw_ids, add_devices, add_actuators,
}
use climate_control.Appdb.Reload.{load_room, actuators_by_device}
use climate_control.Appdb.Warm.{
  WarmRows, Index, index_rows, state_at, warm_room, add_rooms, warm_devices, fill, group_by,
}
use climate_control.Appdb.Warm.Grouping.{
  slice_at-group_by, group_actuators_lem, is_in_room, slice_at-group_devices, lookup-index_by,
}

-- The ID is one of the devices'.
abbrev pub is_one_of : List DeviceRow → Uuid → Bool
is_one_of ds j = any (λ d. d.id == j) ds

module _ {R : Type 0} where
  -- The queries for one room answer with those of the rows that are the room's: one desired state, the
  -- periods and devices in the same order, and the actuators of the devices asked for.
  pub record Answers (q : Queries R) (rows : WarmRows R) (id : Uuid) : Type 0 where
    pub state : DesiredStateRow R
    pub one_state : keep (λ d. d.room_id == id) rows.desired_states ≡ state ∷ []
    pub states : q.desired_state_row id ≡ some state
    pub periods : q.active_period_rows id ≡ some (keep (λ p. p.room_id == id) rows.periods)
    pub devices : q.device_rows id ≡ some (keep (is_in_room id) rows.devices)
    pub actuators :
        (ds : List DeviceRow)
        → q.actuator_rows (map (λ d. d.id) ds)
          ≡ some (keep (λ a. is_one_of ds a.device_id) rows.actuators)

-- The entries of the map for these devices are all that the hw_ids depend on.
add_devices-cong :
    (ds : List DeviceRow) (m n : Dict Uuid (List ActuatorRow)) (result : Dict String (List String))
    → All (λ d. slice_at d.id m ≡ slice_at d.id n) ds
    → add_devices ds m result ≡ add_devices ds n result
unfolding add_devices
add_devices-cong [] m n result h = refl
add_devices-cong (d ∷ ds) m n result (e, h) =
    ap (λ acts. add_devices ds m (add_actuators d.hw_id acts result)) e
    ∙ add_devices-cong ds m n _ h

keep-keep :
    {A : Type 0} (p p' : A → Bool) (xs : List A)
    → ((x : A) → p x ≡ true → p' x ≡ true)
    → keep p (keep p' xs) ≡ keep p xs
keep-keep p p' [] h = refl
keep-keep p p' (x ∷ xs) h = elim (Bool-cases (p' x)) [
  | inl e ↦ rw e (ap (λ l. if p x then x ∷ l else l) (keep-keep p p' xs h))
  | inr e ↦ elim (Bool-cases (p x)) [
    | inl t ↦ absurd (ground (arith, h x t, e))
    | inr t ↦ rw (e, t) (keep-keep p p' xs h)
  ]
]

is_one_of-All :
    (ds ys : List DeviceRow)
    → ((j : Uuid) → is_one_of ys j ≡ true → is_one_of ds j ≡ true)
    → All (λ d. is_one_of ds d.id ≡ true) ys
is_one_of-All ds [] h = tt
is_one_of-All ds (y ∷ ys) h =
    (h y.id (ground (arith, eq_refl y.id)), is_one_of-All ds ys (λ j k. h j (ground (arith, k))))

-- A group of the devices' actuators is the group of all actuators.
slice_at-keep :
    (ds : List DeviceRow) (acts : List ActuatorRow) (j : Uuid)
    → is_one_of ds j ≡ true
    → slice_at j (group_by (λ a. a.device_id) (keep (λ a. is_one_of ds a.device_id) acts) [])
      ≡ slice_at j (group_by (λ a. a.device_id) acts [])
slice_at-keep ds acts j h =
    slice_at-group_by (λ a. a.device_id) (keep (λ a. is_one_of ds a.device_id) acts) j
    ∙ (keep-keep (λ a. a.device_id == j) (λ a. is_one_of ds a.device_id) acts
          (λ a e. subst (λ i. is_one_of ds i ≡ true) (sym ((eq_iff a.device_id j).0 e)) h)
        ∙ sym (slice_at-group_by (λ a. a.device_id) acts j))

slices-keep :
    (ds ys : List DeviceRow) (acts : List ActuatorRow)
    → All (λ d. is_one_of ds d.id ≡ true) ys
    → All
        (λ d.
          slice_at d.id (group_by (λ a. a.device_id) (keep (λ a. is_one_of ds a.device_id) acts) [])
          ≡ slice_at d.id (group_by (λ a. a.device_id) acts []))
        ys
slices-keep ds [] acts h = tt
slices-keep ds (y ∷ ys) acts (e, h) = (slice_at-keep ds acts y.id e, slices-keep ds ys acts h)

module _ {R : Type 0} where
  build_room_cache-cong :
      (load : String → Option Location) (rm : RoomRow R) (state : DesiredStateRow R)
      → (ps : List (ActivePeriodRow R)) (ds : List DeviceRow) (m n : Dict Uuid (List ActuatorRow))
      → build_actuator_hw_ids ds m ≡ build_actuator_hw_ids ds n
      → build_room_cache load rm state ps ds m ≡ build_room_cache load rm state ps ds n
  unfolding build_room_cache
  build_room_cache-cong load rm state ps ds m n h = rw h refl

  module _ (q : Queries R) (rows : WarmRows R) (rm : RoomRow R) (a : Answers q rows rm.id) where
    abbrev all_actuators : Dict Uuid (List ActuatorRow)
    all_actuators = group_by (λ a. a.device_id) rows.actuators []

    -- The entry of the room, with a map of actuators.
    abbrev entry : List DeviceRow → Dict Uuid (List ActuatorRow) → Result BuildError (RoomCache R)
    entry ds acts =
        build_room_cache q.load_location rm a.state (keep (λ p. p.room_id == rm.id) rows.periods) ds
          acts

    -- The query for the devices' actuators serves as well as the map of all.
    entry-actuators_by_device :
        (ds : List DeviceRow)
        → (actuators_by_device q ds >>= λ acts.
            wrap_err (λ e. LoadError.build_room_cache) (entry ds acts))
          ≡ wrap_err (λ e. LoadError.build_room_cache) (entry ds all_actuators)
    unfolding actuators_by_device build_actuator_hw_ids add_devices
    entry-actuators_by_device [] =
        ap (wrap_err (λ e. LoadError.build_room_cache))
          (build_room_cache-cong q.load_location rm a.state _ [] [] _ refl)
    entry-actuators_by_device (d ∷ ds) =
        rw (actuators_by_device, a.actuators (d ∷ ds), group_actuators_lem)
          (ap (wrap_err (λ e. LoadError.build_room_cache)) (
            build_room_cache-cong q.load_location rm a.state _ (d ∷ ds) _ _ (
              add_devices-cong (d ∷ ds) _ _ [] (
                slices-keep (d ∷ ds) (d ∷ ds) rows.actuators
                  (is_one_of-All (d ∷ ds) (d ∷ ds) (λ j h. h))))))

    -- A reload builds the entry that the start builds.
    load_room-warm_room :
        load_room q rm.id rm
        ≡ wrap_err
            (λ e. LoadError.build_room_cache)
            (warm_room q.load_location (index_rows rows) rm)
    unfolding load_room warm_room index_rows state_at
    load_room-warm_room = rw (
      load_room,
      a.states,
      a.periods,
      a.devices,
      entry-actuators_by_device,
      warm_room,
      slice_at-group_by,
      slice_at-group_devices,
      state_at,
      lookup-index_by (λ d. d.room_id) rows.desired_states [] rm.id a.state a.one_state,
    )

  module _ (q : Queries R) (rows : WarmRows R) where
    -- Rooms with other IDs leave the entry of a room alone.
    room-add_rooms_other :
        (id : Uuid) (rms : List (RoomRow R)) (s : Store R)
        → All (λ r. (r.id == id) ≡ false) rms
        → (add_rooms q.load_location (index_rows rows) rms s).1 ≡ none
        → room (add_rooms q.load_location (index_rows rows) rms s).0 id ≡ room s id
    unfolding add_rooms
    room-add_rooms_other id [] s h e = refl
    room-add_rooms_other id (rm ∷ rms) s (ne, h) e =
        elim (Result-cases (warm_room q.load_location (index_rows rows) rm)) [
          | inr (x, k) ↦ absurd (ground (arith, e, k))
          | inl (rc, k) ↦
              rw (add_rooms, k)
                (room-add_rooms_other id rms (add_room rm.id rc s) h (ground (arith, e, k))
                  ∙ (room-add_room s rm.id id rc ∙ ap (λ b. if b then some rc else room s id) ne))
        ]

    room-add_rooms :
        (earlier later : List (RoomRow R)) (rm : RoomRow R) (s : Store R)
        → All (λ r. (r.id == rm.id) ≡ false) later
        → (add_rooms q.load_location (index_rows rows) (earlier ++ rm ∷ later) s).1 ≡ none
        → (rc : RoomCache R) × (warm_room q.load_location (index_rows rows) rm ≡ ok rc)
          × (room (add_rooms q.load_location (index_rows rows) (earlier ++ rm ∷ later) s).0 rm.id
              ≡ some rc)
    unfolding add_rooms
    room-add_rooms [] later rm s h e =
        elim (Result-cases (warm_room q.load_location (index_rows rows) rm)) [
          | inr (x, k) ↦ absurd (ground (arith, e, k))
          | inl (rc, k) ↦ (
            rc,
            k,
            rw (add_rooms, k)
                (room-add_rooms_other rm.id later (add_room rm.id rc s) h (ground (arith, e, k))
                  ∙ (room-add_room s rm.id rm.id rc
                      ∙ ap (λ b. if b then some rc else room s rm.id) (eq_refl rm.id))),
          )
        ]
    room-add_rooms (r ∷ earlier) later rm s h e =
        elim (Result-cases (warm_room q.load_location (index_rows rows) r)) [
          | inr (x, k) ↦ absurd (ground (arith, e, k))
          | inl (rc, k) ↦
              rw (add_rooms, k)
                (room-add_rooms earlier later rm (add_room r.id rc s) h (ground (arith, e, k)))
        ]

    room-warm_devices :
        (index : Index R) (ds : List DeviceRow) (s : Store R) (id : Uuid)
        → room (warm_devices index ds s) id ≡ room s id
    unfolding warm_devices
    room-warm_devices index [] s id = refl
    room-warm_devices index (d ∷ ds) s id =
        room-warm_devices index ds _ id ∙ room-add_device s d.hw_id id _

    room-fill :
        (s : Store R) (id : Uuid)
        → (fill q.load_location rows s).1 ≡ none
        → room (fill q.load_location rows s).0 id
          ≡ room (add_rooms q.load_location (index_rows rows) rows.rooms s).0 id
    unfolding fill
    room-fill s id e = rw (fill, e) (room-warm_devices (index_rows rows) rows.devices _ id)

    -- Let the rows that the start has read hold a room's row, none later with the same ID, and let
    -- the queries for that room answer with its part of the rows. If the store is filled without an
    -- error, then the room's entry is the one that a reload builds for that row.
    pub fill-load_room :
        (earlier later : List (RoomRow R)) (rm : RoomRow R) (s : Store R)
        → rows.rooms ≡ earlier ++ rm ∷ later
        → All (λ r. (r.id == rm.id) ≡ false) later
        → Answers q rows rm.id
        → (fill q.load_location rows s).1 ≡ none
        → (rc : RoomCache R) × (load_room q rm.id rm ≡ ok rc)
          × (room (fill q.load_location rows s).0 rm.id ≡ some rc)
    unfolding fill
    fill-load_room earlier later rm s split h a e =
        let (rc, built, found) =
          room-add_rooms earlier later rm s h
            (subst (λ l. (add_rooms q.load_location (index_rows rows) l s).1 ≡ none) split e) in
        (
          rc,
          load_room-warm_room q rows rm a ∙ ap (wrap_err (λ e. LoadError.build_room_cache)) built,
          room-fill s rm.id e
              ∙ subst
                  (λ l. room (add_rooms q.load_location (index_rows rows) l s).0 rm.id ≡ some rc)
                  (sym split) found,
        )
