-- ===== src/Control.antt =====
-- device-service/internal/control/control.go: one control tick of a room. `Evaluate` is a pure
-- function of the room's cache; what it appends and writes through pointers is threaded through.
-- A range over a map goes in the order of the dictionary's entries.
pub mod Evaluate
pub mod Priority
pub mod Average
pub mod Commands
pub mod Logging
pub mod Context
use climate_control.Prelude.{
  ℕ, ◌+◌, ◌*◌, String, Bool, true, false, not, ◌&&◌, ◌||◌, Option, none, some, List, [], ◌∷◌, ◌++◌,
  ◌==◌, nat_eq, string_eq, if◌then◌else◌,
}
use climate_control.Prelude.Int.{ℤ, pos, ltb_ℤ, leb_ℤ, ◌-ℤ◌, wrap_signed}
use climate_control.Prelude.Dict.{Dict, lookup, contains}
use climate_control.Float.{Float64, ◌⊕◌, ◌⊖◌, ◌⊘◌, ◌≺◌, float}
use climate_control.Time.{Instant, Duration, Location, utc, time_sub, after, weekday, hour, minute}
use climate_control.Cache.{
  Uuid, TimestampedReading, Targets, SchedulePeriodCache, RoomCache, bit_at, flag_at, slice_at,
  target_at,
}

pub record ActuatorCommand : Type 0 where
  pub hw_id : String
  pub actuator_type : String
  pub state : Bool

-- metricsdb.ControlLogEntry; an int16 is the integer that it stands for
pub record ControlLogEntry (R : Type 0) : Type 0 where
  pub time : Instant
  pub room_id : Uuid
  pub avg_temp : Option R
  pub avg_hum : Option R
  pub mode : String
  pub target_temp : Option R
  pub target_hum : Option R
  pub control_source : String
  pub heater_cmd : Option ℤ
  pub humidifier_cmd : Option ℤ
  pub deadband_temp : Option R
  pub deadband_hum : Option R
  pub reading_count_temp : Option ℤ
  pub reading_count_hum : Option ℤ
  pub schedule_period_id : Option Uuid

pub record TickResult (R : Type 0) : Type 0 where
  pub commands : List ActuatorCommand
  pub log_entry : ControlLogEntry R
  pub last_active_period : Option (SchedulePeriodCache R)

pub record EffectiveState (R : Type 0) : Type 0 where
  pub mode : String
  pub targets : Targets R
  pub source : String
  pub period : Option (SchedulePeriodCache R)

abbrev pub location_or_utc : Option Location → Location
location_or_utc none = utc
location_or_utc (some loc) = loc

-- ISO 8601: Sunday = 7
unfoldable pub day_of_week : Location → Instant → ℕ
day_of_week loc now = let d = weekday loc now in if d == 0 then 7 else d

unfoldable pub minutes_of_day : Location → Instant → ℕ
minutes_of_day loc now = hour loc now * 60 + minute loc now

-- `ManualOverrideUntil != nil` and its `After(now)`
abbrev pub not_expired : Option Instant → Instant → Bool
not_expired none now = false
not_expired (some u) now = after u now

module _ {R : Type 0} where
  unfoldable pub manual_override : RoomCache R → Instant → Bool
  manual_override rc now =
      rc.desired_state.manual_active && not_expired rc.desired_state.manual_override_until now

  -- the two `continue` tests of the loop over the active periods
  unfoldable pub covers : ℕ → ℕ → SchedulePeriodCache R → Bool
  covers day now_minutes p =
      if not (bit_at p.days_of_week day)
      then false
      else if ltb_ℤ (pos now_minutes) p.start_minutes || leb_ℤ p.end_minutes (pos now_minutes)
      then false
      else true

  unfoldable pub find_period : ℕ → ℕ → List (SchedulePeriodCache R) → Option (SchedulePeriodCache R)
  find_period day now_minutes [] = none
  find_period day now_minutes (p ∷ ps) =
      if covers day now_minutes p then some p else find_period day now_minutes ps

  unfoldable pub in_grace : ℕ → ℕ → SchedulePeriodCache R → Bool
  in_grace day now_minutes p =
      let since_end = pos now_minutes -ℤ p.end_minutes in
      bit_at p.days_of_week day && leb_ℤ (pos 0) since_end && ltb_ℤ since_end (pos 1)

  unfoldable pub grace_period :
      ℕ → ℕ → Option (SchedulePeriodCache R) → Option (SchedulePeriodCache R)
  grace_period day now_minutes none = none
  grace_period day now_minutes (some p) = if in_grace day now_minutes p then some p else none

  abbrev pub off_state : EffectiveState R
  off_state = record { mode = "OFF"; targets = none; source = "none"; period = none }

  abbrev pub from_period : String → SchedulePeriodCache R → EffectiveState R
  from_period source p = record {
    mode = p.mode;
    targets = p.targets;
    source = source;
    period = some p;
  }

  abbrev pub manual_state : RoomCache R → EffectiveState R
  manual_state rc = record {
    mode = rc.desired_state.mode;
    targets = rc.desired_state.targets;
    source = "manual_override";
    period = none;
  }

  unfoldable pub resolve_effective_state : RoomCache R → Instant → EffectiveState R
  resolve_effective_state rc now =
      let loc = location_or_utc rc.location in
      let day = day_of_week loc now in
      let now_minutes = minutes_of_day loc now in
      if manual_override rc now
      then manual_state rc
      else elim (find_period day now_minutes rc.active_periods) [
        | some p ↦ from_period "schedule" p
        | none ↦ elim (grace_period day now_minutes rc.last_active_period) [
          | some p ↦ from_period "grace_period" p
          | none ↦ off_state
        ]
      ]
