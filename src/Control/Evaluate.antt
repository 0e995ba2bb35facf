-- ===== src/Control/Evaluate.antt =====
-- device-service/internal/control/control.go: `Evaluate` and its helpers.
use climate_control.Prelude.{
  ℕ, ◌+◌, String, Bool, true, false, not, ◌||◌, Option, none, some, List, [], ◌∷◌, ◌++◌, ◌==◌,
  nat_eq, string_eq, is_some, if◌then◌else◌,
}
use climate_control.Prelude.Int.{ℤ, pos, leb_ℤ, wrap_signed}
use climate_control.Prelude.Dict.{Dict, lookup, contains}
use climate_control.Float.{Float64, ◌⊕◌, ◌⊖◌, ◌⊘◌, ◌≺◌, float}
use climate_control.Time.{Instant, Duration, time_sub}
use climate_control.Cache.{
  TimestampedReading, Targets, SchedulePeriodCache, RoomCache, flag_at, slice_at, target_at,
}
use climate_control.Control.{
  ActuatorCommand, ControlLogEntry, TickResult, EffectiveState, resolve_effective_state,
}

-- int16(n)
unfoldable pub int16 : ℕ → ℤ
unfolding wrap_signed
int16 n = wrap_signed 16 (pos n)

module _ {R : Type 0} where
  unfoldable pub set_cmd : String → ℤ → ControlLogEntry R → ControlLogEntry R
  set_cmd actuator_type v entry =
      if actuator_type == "heater"
      then elim entry.heater_cmd [ none ↦ entry | some _ ↦ record entry { heater_cmd = some v } ]
      else if actuator_type == "humidifier"
      then elim entry.humidifier_cmd [
        | none ↦ entry
        | some _ ↦ record entry { humidifier_cmd = some v }
      ]
      else entry

-- the loop that appends a command for each hw_id
unfoldable pub append_commands :
    String → Bool → List String → List ActuatorCommand → List ActuatorCommand
append_commands actuator_type state [] commands = commands
append_commands actuator_type state (h ∷ hs) commands =
    append_commands actuator_type state hs
      (commands ++ record { hw_id = h; actuator_type = actuator_type; state = state } ∷ [])

module _ {R : Type 0} where
  unfoldable pub command_all_off :
      Dict String (List String)
      → ControlLogEntry R
      → List ActuatorCommand
      → ControlLogEntry R × List ActuatorCommand
  command_all_off [] entry commands = (entry, commands)
  command_all_off ((actuator_type, hw_ids) ∷ m) entry commands =
      command_all_off m (set_cmd actuator_type (pos 0) entry)
        (append_commands actuator_type false hw_ids commands)

module _ {R : Type 0} where
  unfoldable pub is_fresh : Instant → Duration → TimestampedReading R → Bool
  is_fresh now threshold r = leb_ℤ (time_sub now r.timestamp) threshold

  -- the entry before any reading is looked at: 0 for each actuator type that the room has
  unfoldable pub init_entry : RoomCache R → Instant → EffectiveState R → ControlLogEntry R
  init_entry rc now es = record {
    time = now;
    room_id = rc.room_id;
    avg_temp = none;
    avg_hum = none;
    mode = es.mode;
    target_temp = none;
    target_hum = none;
    control_source = es.source;
    heater_cmd = if contains "heater" rc.actuator_hw_ids then some (pos 0) else none;
    humidifier_cmd = if contains "humidifier" rc.actuator_hw_ids then some (pos 0) else none;
    deadband_temp = none;
    deadband_hum = none;
    reading_count_temp = none;
    reading_count_hum = none;
    schedule_period_id = elim es.period [ none ↦ none | some p ↦ some p.id ];
  }

  unfoldable pub log_averages : R × ℕ × Bool → R × ℕ × Bool → ControlLogEntry R → ControlLogEntry R
  log_averages (temp_avg, temp_count, has_temp) (hum_avg, hum_count, has_hum) entry =
      let e =
        if has_temp
        then record entry { avg_temp = some temp_avg; reading_count_temp = some (int16 temp_count) }
        else entry in
      if has_hum
      then record e { avg_hum = some hum_avg; reading_count_hum = some (int16 hum_count) }
      else e

  unfoldable pub log_targets : RoomCache R → Targets R → ControlLogEntry R → ControlLogEntry R
  log_targets rc none entry = entry
  log_targets rc (some m) entry =
      let target_temp = target_at "temperature" (some m) in
      let target_hum = target_at "humidity" (some m) in
      record entry {
        target_temp = target_temp;
        target_hum = target_hum;
        deadband_temp = if is_some target_temp then some rc.deadband_temp else entry.deadband_temp;
        deadband_hum = if is_some target_hum then some rc.deadband_hum else entry.deadband_hum;
      }

module _ {R : Type 0} ⦃f : Float64 R⦄ where
  unfoldable pub sum_fresh : Instant → Duration → R → ℕ → List (TimestampedReading R) → R × ℕ
  sum_fresh now threshold sum count [] = (sum, count)
  sum_fresh now threshold sum count (r ∷ rs) =
      sum_fresh now threshold (if is_fresh now threshold r then sum ⊕ r.value else sum)
        (if is_fresh now threshold r then count + 1 else count) rs

  unfoldable pub fresh_average : List (TimestampedReading R) → Instant → Duration → R × ℕ × Bool
  fresh_average readings now threshold =
      let (sum, count) = sum_fresh now threshold (float 0) 0 readings in
      if count == 0 then (float 0, 0, false) else (sum ⊘ float count, count, true)

  -- the three branches of the `switch`
  unfoldable pub bang_bang : R → R → R → Bool → Bool
  bang_bang avg target deadband current =
      if avg ≺ target ⊖ deadband then true else if target ⊕ deadband ≺ avg then false else current

  unfoldable pub evaluate_or_off :
      RoomCache R
      → String
      → String
      → R
      → Bool
      → Targets R
      → R
      → ControlLogEntry R
      → List ActuatorCommand
      → ControlLogEntry R × List ActuatorCommand
  evaluate_or_off rc actuator_type sensor_type avg has_readings targets deadband entry commands =
      elim (lookup actuator_type rc.actuator_hw_ids) [
        | none ↦ (entry, commands)
        | some hw_ids ↦ elim (target_at sensor_type targets) [
          | none ↦ (
            set_cmd actuator_type (pos 0) entry,
            append_commands actuator_type false hw_ids commands,
          )
          | some target ↦
              if not has_readings
              then (
                set_cmd actuator_type (pos 0) entry,
                append_commands actuator_type false hw_ids commands,
              )
              else let desired =
                  bang_bang avg target deadband (flag_at actuator_type rc.actuator_states) in
                (
                  set_cmd actuator_type (if desired then pos 1 else pos 0) entry,
                  append_commands actuator_type desired hw_ids commands,
                )
        ]
      ]

  unfoldable pub evaluate : RoomCache R → Instant → Duration → TickResult R
  evaluate rc now stale_threshold =
      let es = resolve_effective_state rc now in
      let temp = fresh_average (slice_at "temperature" rc.latest_readings) now stale_threshold in
      let hum = fresh_average (slice_at "humidity" rc.latest_readings) now stale_threshold in
      let entry = log_targets rc es.targets (log_averages temp hum (init_entry rc now es)) in
      let last : Option (SchedulePeriodCache R) =
        if es.source == "schedule" || es.source == "grace_period" then es.period else none in
      if es.mode == "OFF"
      then (let (e, commands) = command_all_off rc.actuator_hw_ids entry [] in
          record { commands = commands; log_entry = e; last_active_period = last })
      else (let (e, commands) =
            evaluate_or_off rc "heater" "temperature" temp.0 temp.2 es.targets rc.deadband_temp
              entry [] in
          let (e', commands') =
            evaluate_or_off rc "humidifier" "humidity" hum.0 hum.2 es.targets rc.deadband_hum e
              commands in
          record { commands = commands'; log_entry = e'; last_active_period = last })
