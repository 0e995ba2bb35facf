-- ===== src/System/Rooms.antt =====
-- What every cached room satisfies, and that each operation on the store keeps it.
use climate_control.Prelude.{
  ◌≡◌, ◌∙◌, ap, sym, subst, String, Bool, true, false, Option, none, some, List, [], ◌∷◌, ◌==◌,
  nat_eq, string_eq, eq_iff, is_some, Option-cases, Bool-cases, inl, inr, arith,
}
use climate_control.Prelude.Dict.{Dict, KeysDistinct, lookup}
use climate_control.Prelude.Result.{ok, Result-cases}
use climate_control.Float.{Float64}
use climate_control.Time.{Instant, Duration, Location}
use climate_control.Cache.{
  Uuid, RoomCache, DeviceCache, Store, room, device, add_room, delete_room, add_device,
  delete_device, get_room_id, owns_room, new_store,
}
use climate_control.Cache.Laws.{
  room-add_room, room-delete_room, room-add_device, room-delete_device,
}
use climate_control.Appdb.{
  RoomRow, DesiredStateRow, ActivePeriodRow, DeviceRow, ActuatorRow, Queries,
}
use climate_control.Appdb.Assembly.{build_room_cache, build_actuator_hw_ids}
use climate_control.Appdb.Actuators.{build_actuator_hw_ids-KeysDistinct}
use climate_control.Appdb.Reload.{
  load_room, keep_runtime, fetch_room_row, reload_room, reload_device, actuators_by_device,
}
use climate_control.Appdb.Reload.Effect.{
  Reloaded, gone, loaded, reload_room-Reloaded, reload_device-rooms,
}
use climate_control.Ingestion.{
  TelemetryMessage, SensorReading, ResolvedReading, resolve_readings, record_readings, process,
}
use climate_control.Scheduler.Tick.{Transport, after_tick, tick}

-- The entry belongs to the ID, has a time zone, and has one list of devices for each actuator type.
pub record IsRoom {R : Type 0} (id : Uuid) (rc : RoomCache R) : Type 0 where
  pub own_id : rc.room_id ≡ id
  pub zone : is_some rc.location ≡ true
  pub distinct : KeysDistinct rc.actuator_hw_ids

-- The query for a room returns the row with its ID, or the zero row, as its WHERE clause says.
abbrev pub RowsMatch : {R : Type 0} → Queries R → Type 0
RowsMatch {R} q =
    (id : Uuid) (row : RoomRow R) → q.room_row id ≡ some row → (row.id == 0) ≡ false → row.id ≡ id

module _ {R : Type 0} where
  abbrev pub IsSound : Store R → Type 0
  IsSound s = (id : Uuid) (rc : RoomCache R) → room s id ≡ some rc → IsRoom id rc

  pub add_room-IsSound :
      (s : Store R) (id : Uuid) (rc : RoomCache R)
      → IsRoom id rc
      → IsSound s
      → IsSound (add_room id rc s)
  add_room-IsSound s id rc h sound j x e = elim (Bool-cases (id == j)) [
    | inl t ↦
        let q : rc ≡ x = ground (arith, e, t, room-add_room s id j rc) in
        subst (λ r. IsRoom j r) q (subst (λ i. IsRoom i rc) ((eq_iff id j).0 t) h)
    | inr t ↦ sound j x (ground (arith, e, t, room-add_room s id j rc))
  ]

  pub delete_room-IsSound : (s : Store R) (id : Uuid) → IsSound s → IsSound (delete_room id s)
  delete_room-IsSound s id sound j x e = elim (Bool-cases (id == j)) [
    | inl t ↦ absurd (ground (arith, e, t, room-delete_room s id j))
    | inr t ↦ sound j x (ground (arith, e, t, room-delete_room s id j))
  ]

  pub new_store-IsSound : IsSound (new_store {R = R})
  unfolding new_store room lookup
  new_store-IsSound id rc e = absurd (ground (arith, e))

  build_room_cache-fields :
      (load : String → Option Location) (rm : RoomRow R) (state : DesiredStateRow R)
      → (ps : List (ActivePeriodRow R)) (ds : List DeviceRow) (acts : Dict Uuid (List ActuatorRow))
        (rc : RoomCache R)
      → build_room_cache load rm state ps ds acts ≡ ok rc
      → (rc.room_id ≡ rm.id)
        × (is_some rc.location ≡ true)
        × (rc.actuator_hw_ids ≡ build_actuator_hw_ids ds acts)
  unfolding build_room_cache
  build_room_cache-fields load rm state ps ds acts rc h = ground arith

  pub build_room_cache-IsRoom :
      (load : String → Option Location) (rm : RoomRow R) (state : DesiredStateRow R)
      → (ps : List (ActivePeriodRow R)) (ds : List DeviceRow) (acts : Dict Uuid (List ActuatorRow))
        (rc : RoomCache R)
      → build_room_cache load rm state ps ds acts ≡ ok rc
      → IsRoom rm.id rc
  build_room_cache-IsRoom load rm state ps ds acts rc h =
      let (a, b, c) = build_room_cache-fields load rm state ps ds acts rc h in
      record { own_id = a; zone = b; distinct = rw c (build_actuator_hw_ids-KeysDistinct ds acts) }

  keep_runtime-IsRoom :
      (o : Option (RoomCache R)) (id : Uuid) (rc : RoomCache R)
      → IsRoom id rc
      → IsRoom id (keep_runtime o rc)
  unfolding keep_runtime
  keep_runtime-IsRoom none id rc h = h
  keep_runtime-IsRoom (some old) id rc h = record {
    own_id = h.own_id;
    zone = h.zone;
    distinct = h.distinct;
  }

  load_room-IsRoom :
      (q : Queries R) (id : Uuid) (rm : RoomRow R) (rc : RoomCache R)
      → load_room q id rm ≡ ok rc
      → IsRoom rm.id rc
  unfolding load_room
  load_room-IsRoom q id rm rc h = elim (Option-cases (q.desired_state_row id)) [
    | inl a ↦ absurd (ground (arith, h, a))
    | inr (state, a) ↦ elim (Option-cases (q.active_period_rows id)) [
      | inl b ↦ absurd (ground (arith, h, a, b))
      | inr (ps, b) ↦ elim (Option-cases (q.device_rows id)) [
        | inl c ↦ absurd (ground (arith, h, a, b, c))
        | inr (ds, c) ↦ elim (Result-cases (actuators_by_device q ds)) [
          | inr (x, d) ↦ absurd (ground (arith, h, a, b, c, d))
          | inl (acts, d) ↦
              elim (Result-cases (build_room_cache q.load_location rm state ps ds acts)) [
                | inr (x, k) ↦ absurd (ground (arith, h, a, b, c, d, k))
                | inl (new, k) ↦
                    let same : new ≡ rc = ground (arith, h, a, b, c, d, k) in
                    subst (IsRoom rm.id) same
                      (build_room_cache-IsRoom q.load_location rm state ps ds acts new k)
              ]
        ]
      ]
    ]
  ]

  fetched_id :
      (q : Queries R)
      → RowsMatch q
      → (id : Uuid) (rm : RoomRow R) → fetch_room_row q id ≡ ok (some rm)
      → rm.id ≡ id
  unfolding fetch_room_row
  fetched_id q match id rm h = elim (Option-cases (q.room_row id)) [
    | inl a ↦ absurd (ground (arith, h, a))
    | inr (row, a) ↦ elim (Bool-cases (row.id == 0)) [
      | inl z ↦ absurd (ground (arith, h, a, z))
      | inr z ↦
          let same : row ≡ rm = ground (arith, h, a, z) in
          subst (λ r. r.id ≡ id) same (match id row a z)
    ]
  ]

  pub reload_room-IsSound :
      (q : Queries R)
      → RowsMatch q
      → (id : Uuid) (s s' : Store R) → reload_room q id s ≡ ok s'
      → IsSound s
      → IsSound s'
  reload_room-IsSound q match id s s' h sound = go (reload_room-Reloaded q id s s' h)
    where
      go : Reloaded q id s s' → IsSound s'
      go (gone e p) = rw p (delete_room-IsSound s id sound)
      go (loaded rm rc e l p) =
          let own : rm.id ≡ id = fetched_id q match id rm e in
          rw p (
            add_room-IsSound s id _
              (keep_runtime-IsRoom (room s id) id rc
                (subst (λ i. IsRoom i rc) own (load_room-IsRoom q id rm rc l)))
              sound)

  -- Stores with the same rooms.
  same_rooms-IsSound :
      (s s' : Store R) → ((id : Uuid) → room s' id ≡ room s id) → IsSound s → IsSound s'
  same_rooms-IsSound s s' same sound id rc e = sound id rc (sym (same id) ∙ e)

  pub add_device-IsSound :
      (s : Store R) (h : String) (dc : DeviceCache) → IsSound s → IsSound (add_device h dc s)
  add_device-IsSound s h dc = same_rooms-IsSound s _ (λ id. room-add_device s h id dc)

  delete_device-IsSound : (s : Store R) (h : String) → IsSound s → IsSound (delete_device h s)
  delete_device-IsSound s h = same_rooms-IsSound s _ (λ id. room-delete_device s h id)

  pub reload_device-IsSound :
      (q : Queries R) (hw_id : String) (s s' : Store R)
      → reload_device q hw_id s ≡ ok s'
      → IsSound s
      → IsSound s'
  unfolding room
  reload_device-IsSound q hw_id s s' h =
      same_rooms-IsSound s s'
        (λ id. ap (λ rooms. lookup id rooms) (reload_device-rooms q hw_id s s' h))

  record_readings-IsSound :
      (write : List (SensorReading R) → Bool) (stale : Duration) (msg : TelemetryMessage R)
      → (id : Uuid) (rc : RoomCache R) (rrs : List (ResolvedReading R)) (s : Store R) → IsRoom id rc
      → IsSound s
      → IsSound (record_readings write stale msg id rc rrs s).0
  unfolding record_readings
  record_readings-IsSound write stale msg id rc [] s h sound = sound
  record_readings-IsSound write stale msg id rc (rr ∷ rrs) s h sound =
      add_room-IsSound s id _ (record { own_id = h.own_id; zone = h.zone; distinct = h.distinct })
        sound

  pub process-IsSound :
      (write : List (SensorReading R) → Bool) (stale : Duration) (msg : TelemetryMessage R)
      (s : Store R)
      → IsSound s
      → IsSound (process write stale msg s).0
  unfolding process owns_room
  process-IsSound write stale msg s sound = elim (Option-cases (device s msg.hw_id)) [
    | inl a ↦ rw (process, a) sound
    | inr (dc, a) ↦ elim (Option-cases (get_room_id dc)) [
      | inl b ↦ rw (process, a, b) sound
      | inr (id, b) ↦ elim (Option-cases (room s id)) [
        | inl c ↦ rw (process, a, b, c) sound
        | inr (rc, c) ↦
            rw (process, a, b, c)
              (record_readings-IsSound write stale msg id rc
                (resolve_readings dc.sensors msg.readings) s (sound id rc c) sound)
      ]
    ]
  ]

module _ {R : Type 0} ⦃f : Float64 R⦄ where
  pub tick-IsSound :
      (tr : Transport) (stale : Duration) (id : Uuid) (now : Instant) (s : Store R)
      → IsSound s
      → IsSound (tick tr stale id now s).0
  unfolding tick after_tick
  tick-IsSound tr stale id now s sound = elim (Option-cases (room s id)) [
    | inl a ↦ rw (tick, a) sound
    | inr (rc, a) ↦
        let h = sound id rc a in
        rw (tick, a)
          (add_room-IsSound s id _
            (record { own_id = h.own_id; zone = h.zone; distinct = h.distinct }) sound)
  ]
