-- ===== src/Ingestion/Effect.antt =====
-- What `Process` does to the store, as the control loop sees it.
use mathlib.Core.List.{append-nil, append_assoc}
use climate_control.Prelude.{
  ◌≡◌, refl, ◌∙◌, ap, String, Bool, false, some, List, [], ◌∷◌, ◌++◌, ◌&&◌, ◌==◌, nat_eq, string_eq,
  eq_iff, eq_refl, keep, keep-append, Bool-cases, inl, inr, if◌then◌else◌, arith,
}
use climate_control.Prelude.Int.{◌≤ℤ◌}
use climate_control.Prelude.Dict.{Dict, insert, lookup-insert, contains, contains-lookup}
use climate_control.Float.{Float64}
use climate_control.Time.{Instant, Duration}
use climate_control.Cache.{
  Uuid, TimestampedReading, SensorEntry, DeviceCache, RoomCache, Store, device, room, owns_room,
  get_room_id, slice_at,
}
use climate_control.Cache.Laws.{room-add_room, device-add_room}
use climate_control.Control.Average.{mean_of, fresh_average-mean_of}
use climate_control.Control.Evaluate.{is_fresh, fresh_average}
use climate_control.Ingestion.{
  Reading, TelemetryMessage, SensorReading, ResolvedReading, trim_stale, resolve_readings,
  store_reading, store_readings, record_readings, process,
}
use climate_control.Ingestion.Trim.{IsThreshold, keep-trim_stale}

module _ {R : Type 0} where
  abbrev stamped : Instant → Reading R → TimestampedReading R
  stamped t r = record { value = r.value; timestamp = t }

  -- The readings of a kind in a message, stamped with its time, if the device has such a sensor.
  abbrev pub arrivals :
      String → Instant → Dict String SensorEntry → List (Reading R) → List (TimestampedReading R)
  arrivals k t sensors [] = []
  arrivals k t sensors (r ∷ rs) =
      if r.kind == k && contains k sensors
      then stamped t r ∷ arrivals k t sensors rs
      else arrivals k t sensors rs

  -- The same of the resolved readings.
  abbrev stamped_of : String → Instant → List (ResolvedReading R) → List (TimestampedReading R)
  stamped_of k t [] = []
  stamped_of k t (rr ∷ rrs) =
      if rr.reading.kind == k then stamped t rr.reading ∷ stamped_of k t rrs else stamped_of k t rrs

  stamped_of-resolve_readings :
      (k : String) (t : Instant) (sensors : Dict String SensorEntry) (rs : List (Reading R))
      → stamped_of k t (resolve_readings sensors rs) ≡ arrivals k t sensors rs
  unfolding resolve_readings
  stamped_of-resolve_readings k t sensors [] = refl
  stamped_of-resolve_readings k t sensors (r ∷ rs) = ground (
    arith,
    stamped_of-resolve_readings k t sensors rs,
    contains-lookup k sensors,
    eq_iff r.kind k,
  )

  slice_at-insert :
      (k j : String) (xs : List (TimestampedReading R))
      (m : Dict String (List (TimestampedReading R)))
      → slice_at j (insert k xs m) ≡ (if k == j then xs else slice_at j m)
  unfolding slice_at
  slice_at-insert k j xs m = ground (arith, lookup-insert k j xs m)

  slice_at-store_reading :
      (t : Instant) (stale : Duration) (rr : ResolvedReading R)
      (m : Dict String (List (TimestampedReading R))) (k : String)
      → slice_at k (store_reading t stale rr m) ≡ (
          if rr.reading.kind == k
          then trim_stale (slice_at k m ++ stamped t rr.reading ∷ []) t stale
          else slice_at k m)
  unfolding store_reading
  slice_at-store_reading t stale rr m k =
      let kind = rr.reading.kind in
      simp slice_at-insert (ground (arith, eq_refl kind, eq_iff kind k))

  -- What later ticks count of the stored readings.
  keep-store_reading :
      (t now : Instant) (stale : Duration) (rr : ResolvedReading R)
      (m : Dict String (List (TimestampedReading R))) (k : String)
      → IsThreshold stale
      → t ≤ℤ now
      → keep (is_fresh now stale) (slice_at k (store_reading t stale rr m))
        ≡ keep (is_fresh now stale) (slice_at k m)
          ++ keep (is_fresh now stale) (stamped_of k t (rr ∷ []))
  keep-store_reading t now stale rr m k ok later = elim (Bool-cases (rr.reading.kind == k)) [
    | inl same ↦
        rw (slice_at-store_reading, same, ← keep-append)
          (keep-trim_stale (slice_at k m ++ stamped t rr.reading ∷ []) t now stale ok later)
    | inr other ↦ rw (slice_at-store_reading, other, append-nil)
  ]

  stamped_of-cons :
      (k : String) (t : Instant) (rr : ResolvedReading R) (rrs : List (ResolvedReading R))
      → stamped_of k t (rr ∷ rrs) ≡ stamped_of k t (rr ∷ []) ++ stamped_of k t rrs
  stamped_of-cons k t rr rrs = ground arith

  keep-store_readings :
      (t now : Instant) (stale : Duration) (rrs : List (ResolvedReading R))
      (m : Dict String (List (TimestampedReading R))) (k : String)
      → IsThreshold stale
      → t ≤ℤ now
      → keep (is_fresh now stale) (slice_at k (store_readings t stale rrs m))
        ≡ keep (is_fresh now stale) (slice_at k m ++ stamped_of k t rrs)
  unfolding store_readings
  keep-store_readings t now stale [] m k ok later = rw append-nil
  keep-store_readings t now stale (rr ∷ rrs) m k ok later =
      keep-store_readings t now stale rrs (store_reading t stale rr m) k ok later
      ∙ rw (
        stamped_of-cons k t rr rrs,
        keep-append,
        keep-store_reading t now stale rr m k ok later,
        keep-append,
        keep-append,
        append_assoc,
      )

module _ {R : Type 0} ⦃f : Float64 R⦄ (write : List (SensorReading R) → Bool)
    (stale : Duration) where
  pub record_readings_frame :
      (msg : TelemetryMessage R) (id : Uuid) (rc : RoomCache R) (rrs : List (ResolvedReading R))
      (s : Store R)
      → ((h : String) → device (record_readings write stale msg id rc rrs s).0 h ≡ device s h)
        × ((j : Uuid)
            → (id == j) ≡ false
            → room (record_readings write stale msg id rc rrs s).0 j ≡ room s j)
  unfolding record_readings
  record_readings_frame msg id rc [] s = ((λ h. refl), (λ j ne. refl))
  record_readings_frame msg id rc (rr ∷ rrs) s =
      ((λ h. rw device-add_room), (λ j ne. rw (room-add_room, ne)))

  recorded :
      (msg : TelemetryMessage R) (id : Uuid) (rc : RoomCache R) (sensors : Dict String SensorEntry)
      (s : Store R)
      → room s id ≡ some rc
      → (latest : Dict String (List (TimestampedReading R))) × (room
            (record_readings write stale msg id rc (resolve_readings sensors msg.readings) s).0
            id
          ≡ some (record rc { latest_readings = latest }))
        × (latest
            ≡ store_readings msg.timestamp stale
                (resolve_readings sensors msg.readings)
                rc.latest_readings)
  recorded msg id rc sensors s found = go (resolve_readings sensors msg.readings)
    where
      go :
          (rrs : List (ResolvedReading R))
          → (latest : Dict String (List (TimestampedReading R))) × (room
                (record_readings write stale msg id rc rrs s).0
                id
              ≡ some (record rc { latest_readings = latest }))
            × (latest ≡ store_readings msg.timestamp stale rrs rc.latest_readings)
      go [] = (rc.latest_readings, unfold record_readings in found, unfold store_readings in refl)
      go (rr ∷ rrs) = (
        store_readings msg.timestamp stale (rr ∷ rrs) rc.latest_readings,
        unfold record_readings in rw (room-add_room, eq_refl id),
        refl,
      )

  pub process-found :
      (msg : TelemetryMessage R) (s : Store R) (dc : DeviceCache) (id : Uuid) (rc : RoomCache R)
      → device s msg.hw_id ≡ some dc
      → dc.room_id ≡ some id
      → room s id ≡ some rc
      → process write stale msg s
        ≡ record_readings write stale msg id rc (resolve_readings dc.sensors msg.readings) s
  unfolding process get_room_id owns_room
  process-found msg s dc id rc known assigned found = ground arith

  -- For a message of a device that is assigned to a cached room, sent no later than an instant, with a
  -- threshold within a Duration: afterwards the room is as before but for its readings, and for each
  -- kind of sensor the average of the fresh readings at that instant is the mean of those among the old
  -- readings and the message's readings of that kind, for which the device has a sensor.
  pub process-average :
      (msg : TelemetryMessage R) (s : Store R) (dc : DeviceCache) (id : Uuid) (rc : RoomCache R)
      (k : String) (now : Instant)
      → IsThreshold stale
      → msg.timestamp ≤ℤ now
      → device s msg.hw_id ≡ some dc
      → dc.room_id ≡ some id
      → room s id ≡ some rc
      → (latest : Dict String (List (TimestampedReading R))) × (room
            (process write stale msg s).0
            id
          ≡ some (record rc { latest_readings = latest }))
        × (fresh_average (slice_at k latest) now stale
            ≡ mean_of (
                keep (is_fresh now stale) (
                  slice_at k rc.latest_readings
                  ++ arrivals k msg.timestamp dc.sensors msg.readings)))
  process-average msg s dc id rc k now ok later known assigned found =
      let (latest, stored, e) = recorded msg id rc dc.sensors s found in
      (
        latest,
        rw (process-found msg s dc id rc known assigned found) stored,
        fresh_average-mean_of (slice_at k latest) now stale
            ∙ ap mean_of (
                rw e (
                  keep-store_readings msg.timestamp now stale
                    (resolve_readings dc.sensors msg.readings) rc.latest_readings k ok later
                  ∙ rw (stamped_of-resolve_readings k msg.timestamp dc.sensors msg.readings))),
      )
