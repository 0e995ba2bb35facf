-- ===== src/Ingestion/Rows.antt =====
-- The rows that `Process` hands to the database, and what it leaves alone.
use climate_control.Prelude.{
  ◌≡◌, refl, String, Bool, false, none, some, List, [], ◌∷◌, ◌==◌, nat_eq, string_eq, arith,
}
use climate_control.Prelude.Dict.{Dict, lookup}
use climate_control.Float.{Float64}
use climate_control.Time.{Instant, Duration}
use climate_control.Cache.{Uuid, SensorEntry, DeviceCache, RoomCache, Store, device, room}
use climate_control.Ingestion.{
  Reading, TelemetryMessage, SensorReading, ResolvedReading, Outcome, dropped, written,
  write_failed, resolve_readings, db_readings, record_readings, process,
}
use climate_control.Ingestion.Effect.{process-found, record_readings_frame}

module _ {R : Type 0} where
  -- The rows of an outcome, whether the database took them or not.
  abbrev pub rows_of : Outcome R → List (SensorReading R)
  rows_of dropped = []
  rows_of (written rows) = rows
  rows_of (write_failed rows) = rows

  -- One row for each reading of a kind that the device has a sensor for.
  abbrev pub expected_rows :
      Uuid → Instant → Dict String SensorEntry → List (Reading R) → List (SensorReading R)
  expected_rows id t sensors [] = []
  expected_rows id t sensors (r ∷ rs) = elim (lookup r.kind sensors) [
    | none ↦ expected_rows id t sensors rs
    | some e ↦
        record {
          time = t;
          sensor_id = e.sensor_id;
          room_id = some id;
          value = r.value;
          raw_value = r.value;
        }
        ∷ expected_rows id t sensors rs
  ]

  db_readings-resolve_readings :
      (id : Uuid) (t : Instant) (sensors : Dict String SensorEntry) (rs : List (Reading R))
      → db_readings id t (resolve_readings sensors rs) ≡ expected_rows id t sensors rs
  unfolding db_readings resolve_readings
  db_readings-resolve_readings id t sensors [] = refl
  db_readings-resolve_readings id t sensors (r ∷ rs) =
      ground (arith, db_readings-resolve_readings id t sensors rs)

  module _ (write : List (SensorReading R) → Bool) (stale : Duration) where
    rows_of-record_readings :
        (msg : TelemetryMessage R) (id : Uuid) (rc : RoomCache R) (rrs : List (ResolvedReading R))
        (s : Store R)
        → rows_of (record_readings write stale msg id rc rrs s).1 ≡ db_readings id msg.timestamp rrs
    unfolding record_readings db_readings
    rows_of-record_readings msg id rc [] s = refl
    rows_of-record_readings msg id rc (rr ∷ rrs) s = ground arith

module _ {R : Type 0} ⦃f : Float64 R⦄ (write : List (SensorReading R) → Bool)
    (stale : Duration) where
  -- For a message of a device that the cache assigns to a cached room, whatever room the message
  -- names: the rows for the database, also those of a write that fails, are one for each reading whose
  -- kind the device has a sensor for, in the order of the readings, with the time of the message, the
  -- ID of the sensor, the room that the cache assigns, and the value of the reading as its value and
  -- its raw value. No device changes, and no other room.
  pub process-rows :
      (msg : TelemetryMessage R) (s : Store R) (dc : DeviceCache) (id : Uuid) (rc : RoomCache R)
      → device s msg.hw_id ≡ some dc
      → dc.room_id ≡ some id
      → room s id ≡ some rc
      → (other : Uuid) → (id == other) ≡ false
      → (hw_id : String)
      → (rows_of (process write stale msg s).1
          ≡ expected_rows id msg.timestamp dc.sensors msg.readings)
        × (device (process write stale msg s).0 hw_id ≡ device s hw_id)
        × (room (process write stale msg s).0 other ≡ room s other)
  process-rows msg s dc id rc known assigned found other ne hw_id =
      let rrs = resolve_readings dc.sensors msg.readings in
      let (devices, rooms) = record_readings_frame write stale msg id rc rrs s in
      rw (process-found write stale msg s dc id rc known assigned found) (
        rw (rows_of-record_readings write stale msg id rc rrs s)
            (db_readings-resolve_readings id msg.timestamp dc.sensors msg.readings),
        devices hw_id,
        rooms other ne,
      )
