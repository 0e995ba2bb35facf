-- ===== src/Ingestion.antt =====
-- device-service/internal/ingestion: `Process` and `trimStale` of ingestion.go, the messages of
-- message.go. The write of the rows to TimescaleDB is a parameter, which says whether it succeeds.
-- What the process logs and the debug output are left out.
pub mod Trim
pub mod Effect
pub mod Rows
use climate_control.Prelude.{
  String, Bool, true, false, Option, none, some, List, [], ◌∷◌, ◌++◌, ◌==◌, nat_eq, string_eq,
  if◌then◌else◌,
}
use climate_control.Prelude.Dict.{Dict, lookup, insert}
use climate_control.Time.{Instant, Duration, add_neg, before}
use climate_control.Cache.{
  Uuid, TimestampedReading, SensorEntry, DeviceCache, RoomCache, Store, device, room, add_room,
  owns_room, get_room_id, slice_at,
}

pub record Reading (R : Type 0) : Type 0 where
  pub kind : String  -- Type
  pub value : R

pub record TelemetryMessage (R : Type 0) : Type 0 where
  pub hw_id : String
  pub room_id : Option Uuid
  pub readings : List (Reading R)
  pub timestamp : Instant

-- metricsdb.SensorReading
pub record SensorReading (R : Type 0) : Type 0 where
  pub time : Instant
  pub sensor_id : Uuid
  pub room_id : Option Uuid
  pub value : R
  pub raw_value : R

pub record ResolvedReading (R : Type 0) : Type 0 where
  pub entry : SensorEntry
  pub reading : Reading R

-- How a call of `Process` ends: it drops the message, or it hands rows to the database, and returns
-- the database's error or nil.
pub data Outcome (R : Type 0) : Type 0 where
  dropped : Outcome R
  written : List (SensorReading R) → Outcome R
  write_failed : List (SensorReading R) → Outcome R

module _ {R : Type 0} where
  -- The loop that counts the stale readings at the head, and the slice behind them.
  unfoldable pub drop_before : Instant → List (TimestampedReading R) → List (TimestampedReading R)
  drop_before cutoff [] = []
  drop_before cutoff (r ∷ rs) = if before r.timestamp cutoff then drop_before cutoff rs else r ∷ rs

  unfoldable pub trim_stale :
      List (TimestampedReading R) → Instant → Duration → List (TimestampedReading R)
  trim_stale readings now threshold = drop_before (add_neg now threshold) readings

  unfoldable pub resolve_readings :
      Dict String SensorEntry → List (Reading R) → List (ResolvedReading R)
  resolve_readings sensors [] = []
  resolve_readings sensors (r ∷ rs) =
      let rest = resolve_readings sensors rs in
      elim (lookup r.kind sensors) [
        | none ↦ rest
        | some e ↦ record { entry = e; reading = r } ∷ rest
      ]

  -- the body of the loop under the room's lock: append the reading, then trim
  unfoldable pub store_reading :
      Instant
      → Duration
      → ResolvedReading R
      → Dict String (List (TimestampedReading R))
      → Dict String (List (TimestampedReading R))
  store_reading timestamp stale rr latest =
      let kind = rr.reading.kind in
      let appended =
        insert kind
          (slice_at kind latest ++ record { value = rr.reading.value; timestamp = timestamp } ∷ [])
          latest in
      insert kind (trim_stale (slice_at kind appended) timestamp stale) appended

  unfoldable pub store_readings :
      Instant
      → Duration
      → List (ResolvedReading R)
      → Dict String (List (TimestampedReading R))
      → Dict String (List (TimestampedReading R))
  store_readings timestamp stale [] latest = latest
  store_readings timestamp stale (rr ∷ rrs) latest =
      store_readings timestamp stale rrs (store_reading timestamp stale rr latest)

  unfoldable pub db_readings : Uuid → Instant → List (ResolvedReading R) → List (SensorReading R)
  db_readings room_id timestamp [] = []
  db_readings room_id timestamp (rr ∷ rrs) =
      record {
        time = timestamp;
        sensor_id = rr.entry.sensor_id;
        room_id = some room_id;
        value = rr.reading.value;
        raw_value = rr.reading.value;
      }
      ∷ db_readings room_id timestamp rrs

  -- the part of `Process` behind the room's lookup
  unfoldable pub record_readings :
      (List (SensorReading R) → Bool)
      → Duration
      → TelemetryMessage R
      → Uuid
      → RoomCache R
      → List (ResolvedReading R)
      → Store R
      → Store R × Outcome R
  record_readings write stale msg room_id rc [] s = (s, dropped)
  record_readings write stale msg room_id rc (rr ∷ rrs) s =
      let latest = store_readings msg.timestamp stale (rr ∷ rrs) rc.latest_readings in
      let rows = db_readings room_id msg.timestamp (rr ∷ rrs) in
      (
        add_room room_id (record rc { latest_readings = latest }) s,
        if write rows then written rows else write_failed rows,
      )

  unfoldable pub process :
      (List (SensorReading R) → Bool)
      → Duration
      → TelemetryMessage R
      → Store R
      → Store R × Outcome R
  process write stale msg s = elim (device s msg.hw_id) [
    | none ↦ (s, dropped)
    | some dc ↦ elim (get_room_id dc) [
      | none ↦ (s, dropped)
      | some room_id ↦
          if owns_room s room_id
          then (elim (room s room_id) [
            | none ↦ (s, dropped)
            | some rc ↦
                record_readings write stale msg room_id rc
                  (resolve_readings dc.sensors msg.readings) s
          ])
          else (s, dropped)
    ]
  ]
