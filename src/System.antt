-- ===== src/System.antt =====
-- device-service/cmd/main.go: the start of the service and what then happens to its store and its
-- scheduler, as steps: a telemetry message, a tick and a refresh of a room's goroutines, a message of
-- the stream. Each step runs as a whole. The answers of the database may differ from step to step.
pub mod Rooms
pub mod Messages
pub mod Sound
pub mod Ticked
pub mod Unstarted
pub mod Created
use climate_control.Prelude.{ℕ, ◌≡◌, ◌<◌, Bool, false, Option, none, some, List, [], ◌∷◌, nat_eq}
use climate_control.Prelude.Result.{Result, ok, err}
use climate_control.Float.{Float64}
use climate_control.Time.{Instant, Duration}
use climate_control.Cache.{Uuid, Store, new_store, room}
use climate_control.Ingestion.{TelemetryMessage, SensorReading, process}
use climate_control.Appdb.{Queries, LoadError}
use climate_control.Appdb.Reload.{reload_room}
use climate_control.Appdb.Warm.{BulkQueries, warm_cache}
use climate_control.Scheduler.{Loop, control_loop, cache_refresh, Scheduler, new_scheduler, start}
use climate_control.Scheduler.Running.{running}
use climate_control.Scheduler.Tick.{Transport, tick}
use climate_control.Stream.{Environment, Consumer, Message, dispatch}

-- A loop of the room runs: it was launched and its context is not cancelled.
abbrev pub Runs : {R : Type 0} → Loop → Uuid → Consumer R → Type 0
Runs l id c = 0 < running l id c.sched.cancelled c.sched.goroutines

module _ {R : Type 0} where
  -- the store and the scheduler when `main` has started them, or the error that ends it
  unfoldable pub boot : BulkQueries R → Queries R → ℕ → ℕ → Result LoadError (Consumer R)
  boot bulk q tick_interval refresh_interval =
      let (s, e) = warm_cache bulk q new_store in
      elim e [
        | some x ↦ err x
        | none ↦ ok (record {
          store = s;
          sched = start tick_interval refresh_interval s new_scheduler;
          acked = [];
        })
      ]

  -- the body of `runCacheRefresh`: an error is logged and leaves the store alone
  unfoldable pub refresh : Queries R → Uuid → Consumer R → Consumer R
  refresh q id c = elim (reload_room q id c.store) [ err e ↦ c | ok s ↦ record c { store = s } ]

module _ {R : Type 0} ⦃f : Float64 R⦄ where
  unfoldable pub ingest :
      (List (SensorReading R) → Bool) → Duration → TelemetryMessage R → Consumer R → Consumer R
  ingest write stale msg c = record c { store = (process write stale msg c.store).0 }

  unfoldable pub control_tick : Transport → Duration → Uuid → Instant → Consumer R → Consumer R
  control_tick tr stale id now c = record c { store = (tick tr stale id now c.store).0 }
