-- ===== src/System/Sound.antt =====
-- The running service from its start: an invariant of its rooms and its goroutines.
use climate_control.Prelude.{
  ℕ, ◌≡◌, subst, String, Bool, Option, some, List, [], ◌∷◌, ◌+◌, length, nat_eq, string_eq,
  Option-cases, inl, inr, if◌then◌else◌, arith,
}
use climate_control.Prelude.Dict.{contains}
use climate_control.Prelude.Result.{ok, Result-cases}
use climate_control.Float.{Float64}
use climate_control.Time.{Instant, Duration, Location}
use climate_control.Cache.{Uuid, RoomCache, Store, room, add_room, new_store, room_ids}
use climate_control.Appdb.{RoomRow, DeviceRow, Queries}
use climate_control.Appdb.Reload.{reload_room}
use climate_control.Appdb.Warm.{
  BulkQueries, WarmRows, Index, index_rows, warm_room, add_rooms, warm_devices, fill, read_rows,
  warm_owned, warm_cache,
}
use climate_control.Ingestion.{TelemetryMessage, SensorReading}
use climate_control.Scheduler.{
  Loop, control_loop, cache_refresh, Scheduler, new_scheduler, start, start_rooms,
}
use climate_control.Scheduler.Running.{running}
use climate_control.Scheduler.Reachable.{booted, started, Reachable-running}
use climate_control.Scheduler.Reachable
use climate_control.Scheduler.Tick.{Transport}
use climate_control.Stream.{Environment, Consumer, Message, dispatch}
use climate_control.System.{Runs, boot, refresh, ingest, control_tick}
use climate_control.System.Rooms.{
  IsRoom, IsSound, RowsMatch, add_room-IsSound, new_store-IsSound, build_room_cache-IsRoom,
  reload_room-IsSound, add_device-IsSound, process-IsSound, tick-IsSound,
}
use climate_control.System.Messages.{IsSane, dispatch-IsSane}

start_rooms-Reachable :
    (a b n i : ℕ) (ids : List Uuid) (s : Scheduler)
    → Reachable.Reachable s
    → Reachable.Reachable (start_rooms a b n i ids s)
unfolding start_rooms
start_rooms-Reachable a b n i [] s r = r
start_rooms-Reachable a b n i (id ∷ ids) s r =
    start_rooms-Reachable a b n (i + 1) ids _ (Reachable.next r (started id _ _))

module _ {R : Type 0} where
  warm_room-IsRoom :
      (load : String → Option Location) (index : Index R) (rm : RoomRow R) (rc : RoomCache R)
      → warm_room load index rm ≡ ok rc
      → IsRoom rm.id rc
  unfolding warm_room
  warm_room-IsRoom load index rm rc h = build_room_cache-IsRoom load rm _ _ _ _ rc h

  add_rooms-IsSound :
      (load : String → Option Location) (index : Index R) (rms : List (RoomRow R)) (s : Store R)
      → IsSound s
      → IsSound (add_rooms load index rms s).0
  unfolding add_rooms
  add_rooms-IsSound load index [] s h = h
  add_rooms-IsSound load index (rm ∷ rms) s h = elim (Result-cases (warm_room load index rm)) [
    | inr (x, k) ↦ rw (add_rooms, k) h
    | inl (rc, k) ↦
        rw (add_rooms, k)
          (add_rooms-IsSound load index rms (add_room rm.id rc s)
            (add_room-IsSound s rm.id rc (warm_room-IsRoom load index rm rc k) h))
  ]

  warm_devices-IsSound :
      (index : Index R) (ds : List DeviceRow) (s : Store R)
      → IsSound s
      → IsSound (warm_devices index ds s)
  unfolding warm_devices
  warm_devices-IsSound index [] s h = h
  warm_devices-IsSound index (d ∷ ds) s h =
      warm_devices-IsSound index ds _ (add_device-IsSound s d.hw_id _ h)

  fill-IsSound :
      (load : String → Option Location) (rows : WarmRows R) (s : Store R)
      → IsSound s
      → IsSound (fill load rows s).0
  unfolding fill
  fill-IsSound load rows s h =
      elim (Option-cases (add_rooms load (index_rows rows) rows.rooms s).1) [
        | inl e ↦
            rw (fill, e)
              (warm_devices-IsSound (index_rows rows) rows.devices _
                (add_rooms-IsSound load (index_rows rows) rows.rooms s h))
        | inr (x, e) ↦ rw (fill, e) (add_rooms-IsSound load (index_rows rows) rows.rooms s h)
      ]

  warm_owned-IsSound :
      (bulk : BulkQueries R) (q : Queries R) (ids : List Uuid) (s : Store R)
      → IsSound s
      → IsSound (warm_owned bulk q ids s).0
  unfolding warm_owned
  warm_owned-IsSound bulk q [] s h = h
  warm_owned-IsSound bulk q (id ∷ ids) s h = elim (Result-cases (read_rows bulk q (id ∷ ids))) [
    | inr (x, e) ↦ rw (warm_owned, e) h
    | inl (rows, e) ↦ rw (warm_owned, e) (fill-IsSound q.load_location rows s h)
  ]

  warm_cache-IsSound :
      (bulk : BulkQueries R) (q : Queries R) (s : Store R)
      → IsSound s
      → IsSound (warm_cache bulk q s).0
  unfolding warm_cache
  warm_cache-IsSound bulk q s h = elim (Option-cases bulk.room_ids) [
    | inl e ↦ rw (warm_cache, e) h
    | inr (ids, e) ↦ rw (warm_cache, e) (warm_owned-IsSound bulk q _ s h)
  ]

  boot-IsSane :
      (bulk : BulkQueries R) (q : Queries R) (a b : ℕ) (c : Consumer R)
      → boot bulk q a b ≡ ok c
      → IsSane c
  unfolding boot start
  boot-IsSane bulk q a b c h = elim (Option-cases (warm_cache bulk q new_store).1) [
    | inr (x, e) ↦ absurd (ground (arith, h, e))
    | inl e ↦
        let s = (warm_cache bulk q new_store).0 in
        let same : record { store = s; sched = start a b s new_scheduler; acked = [] } ≡ c =
          ground (arith, h, e) in
        subst IsSane same (record {
          rooms = warm_cache-IsSound bulk q new_store new_store-IsSound;
          sched =
              start_rooms-Reachable a b (length (room_ids s)) 0 (room_ids s) new_scheduler booted;
        })
  ]

module _ {R : Type 0} ⦃f : Float64 R⦄ where
  -- What happens to the service: telemetry, the ticks of the goroutines that run, and messages.
  pub data Step (c : Consumer R) : Consumer R → Type 0 where
    ingested :
        (write : List (SensorReading R) → Bool) (stale : Duration) (msg : TelemetryMessage R)
        → Step c (ingest write stale msg c)
    ticked :
        (tr : Transport) (stale : Duration) (id : Uuid) (now : Instant)
        → Runs control_loop id c
        → Step c (control_tick tr stale id now c)
    refreshed :
        (q : Queries R) (id : Uuid)
        → RowsMatch q
        → Runs cache_refresh id c
        → Step c (refresh q id c)
    dispatched :
        (env : Environment R) (m : Message) → RowsMatch env.queries → Step c (dispatch env m c)

  pub data Running : Consumer R → Type 0 where
    up :
        (bulk : BulkQueries R) (q : Queries R) (tick_interval refresh_interval : ℕ) (c : Consumer R)
        → boot bulk q tick_interval refresh_interval ≡ ok c
        → Running c
    ran : {c c' : Consumer R} → Running c → Step c c' → Running c'

  Step-IsSane : (c c' : Consumer R) → Step c c' → IsSane c → IsSane c'
  unfolding ingest control_tick refresh
  Step-IsSane c c' (ingested write stale msg) h = record {
    rooms = process-IsSound write stale msg c.store h.rooms;
    sched = h.sched;
  }
  Step-IsSane c c' (ticked tr stale id now r) h = record {
    rooms = tick-IsSound tr stale id now c.store h.rooms;
    sched = h.sched;
  }
  Step-IsSane c c' (refreshed q id match r) h = elim (Result-cases (reload_room q id c.store)) [
    | inl (s, e) ↦
        rw (refresh, e)
          (record { rooms = reload_room-IsSound q match id c.store s e h.rooms; sched = h.sched })
    | inr (x, e) ↦ rw (refresh, e) h
  ]
  Step-IsSane c c' (dispatched env m match) h = dispatch-IsSane env match m c h

  pub Running-IsSane : {c : Consumer R} → Running c → IsSane c
  Running-IsSane (up bulk q a b c e) = boot-IsSane bulk q a b c e
  Running-IsSane (ran {c} {c'} r s) = Step-IsSane c c' s (Running-IsSane r)

  -- In every state of the service after its start, where the query for a room returns the row with its
  -- ID or none: the entry of each cached room has that room's ID, a time zone and one list of devices
  -- for each actuator type, and each room has one control loop and one cache refresh running if it is
  -- active, and none otherwise.
  pub Running-IsSound :
      {c : Consumer R}
      → Running c
      → ((id : Uuid) (rc : RoomCache R) → room c.store id ≡ some rc → IsRoom id rc)
        × ((l : Loop) (id : Uuid)
            → running l id c.sched.cancelled c.sched.goroutines
              ≡ (if contains id c.sched.active_rooms then 1 else 0))
  Running-IsSound r = ((Running-IsSane r).rooms, Reachable-running (Running-IsSane r).sched)
