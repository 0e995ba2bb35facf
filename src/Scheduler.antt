-- ===== src/Scheduler.antt =====
-- device-service/internal/scheduler/scheduler.go: the rooms' contexts and goroutines. A context is a
-- number, and so is its cancel function; the numbers are handed out in order. A goroutine that is
-- launched runs until its context is cancelled (`runControlLoop` and `runCacheRefresh` return then).
pub mod Reachable
pub mod Running
pub mod Stagger
pub mod Tick
use climate_control.Prelude.{
  ℕ, ◌+◌, ◌*◌, ◌/◌, ◌%◌, ◌^◌, Bool, true, false, not, ◌&&◌, Option, none, some, List, [], ◌∷◌, ◌==◌,
  nat_eq, ltb, any, keep, length, if◌then◌else◌,
}
use climate_control.Prelude.Int.{ℤ, pos, negsuc, sub_ℕ, wrap_signed}
use climate_control.Prelude.Dict.{Dict, lookup, insert, erase}
use climate_control.Time.{Duration}
use climate_control.Cache.{Uuid, Store, room_ids}

pub data Loop : Type 0 where
  control_loop cache_refresh : Loop

pub record Goroutine : Type 0 where
  pub loop : Loop
  pub room_id : Uuid
  pub ctx : ℕ
  pub stagger : Duration

pub record Scheduler : Type 0 where
  pub active_rooms : Dict Uuid ℕ  -- room_id → context to cancel
  pub cancelled : List ℕ
  pub next_ctx : ℕ
  pub goroutines : List Goroutine

unfoldable pub new_scheduler : Scheduler
new_scheduler = record { active_rooms = []; cancelled = []; next_ctx = 0; goroutines = [] }

-- `existing()`, if the room has a context
unfoldable pub cancel_existing : Option ℕ → List ℕ → List ℕ
cancel_existing none cancelled = cancelled
cancel_existing (some c) cancelled = c ∷ cancelled

unfoldable pub start_room : Uuid → Duration → Duration → Scheduler → Scheduler
start_room room_id control_stagger refresh_stagger s =
    let ctx = s.next_ctx in
    record {
      active_rooms = insert room_id ctx s.active_rooms;
      cancelled = cancel_existing (lookup room_id s.active_rooms) s.cancelled;
      next_ctx = ctx + 1;
      goroutines =
          record { loop = control_loop; room_id = room_id; ctx = ctx; stagger = control_stagger }
          ∷ record { loop = cache_refresh; room_id = room_id; ctx = ctx; stagger = refresh_stagger }
          ∷ s.goroutines;
    }

unfoldable pub add_room : Uuid → Scheduler → Scheduler
add_room room_id s = start_room room_id (pos 0) (pos 0) s

unfoldable pub remove_room : Uuid → Scheduler → Scheduler
remove_room room_id s = elim (lookup room_id s.active_rooms) [
  | none ↦ s
  | some c ↦ record s { active_rooms = erase room_id s.active_rooms; cancelled = c ∷ s.cancelled }
]

-- Go's division of an int64 by a positive one, which rounds towards zero
unfoldable pub quotient : ℤ → ℕ → ℤ
quotient (pos a) n = pos (a / n)
quotient (negsuc a) n = sub_ℕ 0 ((a + 1) / n)

-- time.Duration(i) * interval / time.Duration(n), in int64
unfoldable pub stagger_of : ℕ → ℕ → ℕ → Duration
stagger_of i n interval = quotient (wrap_signed 64 (pos (i * interval))) n

-- the loop of `Start`, at its index i
unfoldable pub start_rooms : ℕ → ℕ → ℕ → ℕ → List Uuid → Scheduler → Scheduler
start_rooms tick_interval refresh_interval n i [] s = s
start_rooms tick_interval refresh_interval n i (id ∷ ids) s =
    start_rooms tick_interval refresh_interval n (i + 1) ids (
      start_room id (if ltb 1 n then stagger_of i n tick_interval else pos 0)
        (if ltb 1 n then stagger_of i n refresh_interval else pos 0) s)

module _ {R : Type 0} where
  unfoldable pub start : ℕ → ℕ → Store R → Scheduler → Scheduler
  start tick_interval refresh_interval store s =
      let ids = room_ids store in start_rooms tick_interval refresh_interval (length ids) 0 ids s
