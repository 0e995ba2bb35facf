-- ===== src/Control/Context.antt =====
-- What the log entry of a tick says beside the commands, in every mode.
use climate_control.Prelude.{
  ℕ, ◌≡◌, refl, sym, subst, ◌∙◌, ◌||◌, String, Bool, false, none, some, List, [], ◌∷◌, ◌==◌,
  string_eq, is_some, arith, Bool-cases, Option-cases, inl, inr,
}
use climate_control.Prelude.Int.{ℤ, pos}
use climate_control.Prelude.Dict.{Dict}
use climate_control.Float.{Float64}
use climate_control.Time.{Instant, Duration}
use climate_control.Cache.{Targets, RoomCache, slice_at}
use climate_control.Control.{
  ActuatorCommand, ControlLogEntry, resolve_effective_state, manual_override, location_or_utc,
  day_of_week, minutes_of_day, find_period, grace_period,
}
use climate_control.Control.Evaluate.{
  set_cmd, append_commands, command_all_off, fresh_average, evaluate_or_off, init_entry,
  log_averages, log_targets, evaluate,
}

module _ {R : Type 0} where
  -- An entry with its two command fields blanked.
  abbrev pub context : ControlLogEntry R → ControlLogEntry R
  context e = record e { heater_cmd = none; humidifier_cmd = none }

  context-set_cmd :
      (t : String) (v : ℤ) (e : ControlLogEntry R) → context (set_cmd t v e) ≡ context e
  unfolding set_cmd
  context-set_cmd t v e = ground arith

  context-command_all_off :
      (m : Dict String (List String)) (e : ControlLogEntry R) (cs : List ActuatorCommand)
      → context (command_all_off m e cs).0 ≡ context e
  unfolding command_all_off
  context-command_all_off [] e cs = refl
  context-command_all_off ((t, hs) ∷ m) e cs =
      context-command_all_off m (set_cmd t (pos 0) e) (append_commands t false hs cs)
      ∙ context-set_cmd t (pos 0) e

module _ {R : Type 0} ⦃f : Float64 R⦄ where
  context-evaluate_or_off :
      (rc : RoomCache R) (t sensor : String) (avg : R) (has : Bool) (targets : Targets R)
      (deadband : R) (e : ControlLogEntry R) (cs : List ActuatorCommand)
      → context (evaluate_or_off rc t sensor avg has targets deadband e cs).0 ≡ context e
  unfolding evaluate_or_off
  context-evaluate_or_off rc t sensor avg has targets deadband e cs =
      ground (arith, context-set_cmd t (pos 0) e, context-set_cmd t (pos 1) e)

  module _ (rc : RoomCache R) (now : Instant) (threshold : Duration) where
    -- The entry as it stands before the commands.
    abbrev pub described : ControlLogEntry R
    described =
        let es = resolve_effective_state rc now in
        log_targets rc es.targets (
          log_averages (fresh_average (slice_at "temperature" rc.latest_readings) now threshold)
            (fresh_average (slice_at "humidity" rc.latest_readings) now threshold)
            (init_entry rc now es))

    context-evaluate : context (evaluate rc now threshold).log_entry ≡ context described
    unfolding evaluate
    context-evaluate = elim (Bool-cases ((resolve_effective_state rc now).mode == "OFF")) [
      | inl off ↦ rw off (context-command_all_off rc.actuator_hw_ids described [])
      | inr auto ↦ rw auto (
          context-evaluate_or_off rc "humidifier" "humidity" _ _ _ _ _ _
          ∙ context-evaluate_or_off rc "heater" "temperature" _ _ _ _ _ _)
    ]

module _ {R : Type 0} where
  -- The fields that are null together, and the sources that name a period.
  pub record IsPaired (e : ControlLogEntry R) : Type 0 where
    pub temp : is_some e.target_temp ≡ is_some e.deadband_temp
    pub hum : is_some e.target_hum ≡ is_some e.deadband_hum
    pub temp_count : is_some e.avg_temp ≡ is_some e.reading_count_temp
    pub hum_count : is_some e.avg_hum ≡ is_some e.reading_count_hum
    pub period_source :
        is_some e.schedule_period_id
        ≡ (e.control_source == "schedule" || e.control_source == "grace_period")

  -- The state names a period exactly if its source is the schedule or the grace period.
  resolve-period :
      (rc : RoomCache R) (now : Instant)
      → let es = resolve_effective_state rc now in
        is_some es.period ≡ (es.source == "schedule" || es.source == "grace_period")
  unfolding resolve_effective_state
  resolve-period rc now =
      let day = day_of_week (location_or_utc rc.location) now in
      let m = minutes_of_day (location_or_utc rc.location) now in
      elim (Bool-cases (manual_override rc now)) [
        | inl e ↦ rw e
        | inr e ↦ elim (Option-cases (find_period day m rc.active_periods)) [
          | inr (p, found) ↦ rw (e, found)
          | inl missing ↦ elim (Option-cases (grace_period day m rc.last_active_period)) [
            | inr (p, g) ↦ rw (e, missing, g)
            | inl g ↦ rw (e, missing, g)
          ]
        ]
      ]

  IsPaired-init_entry :
      (rc : RoomCache R) (now : Instant)
      → IsPaired (init_entry rc now (resolve_effective_state rc now))
  unfolding init_entry
  IsPaired-init_entry rc now = ground (arith, resolve-period rc now)

  IsPaired-log_averages :
      (t h : R × ℕ × Bool) (e : ControlLogEntry R) → IsPaired e → IsPaired (log_averages t h e)
  unfolding log_averages
  IsPaired-log_averages (a, n, x) (b, m, y) e p = ground arith

  -- `log_targets` runs on an entry that has no target and no deadband yet.
  IsPaired-log_targets :
      (rc : RoomCache R) (ts : Targets R) (e : ControlLogEntry R)
      → (e.deadband_temp ≡ none)
      → (e.deadband_hum ≡ none)
      → IsPaired e
      → IsPaired (log_targets rc ts e)
  unfolding log_targets
  IsPaired-log_targets rc none e n m p = p
  IsPaired-log_targets rc (some ts) e n m p = ground arith

  log_averages-deadbands :
      (t h : R × ℕ × Bool) (e : ControlLogEntry R)
      → ((log_averages t h e).deadband_temp ≡ e.deadband_temp)
        × ((log_averages t h e).deadband_hum ≡ e.deadband_hum)
  unfolding log_averages
  log_averages-deadbands (a, n, x) (b, m, y) e = ground arith

  IsPaired-context : {e : ControlLogEntry R} → IsPaired (context e) → IsPaired e
  IsPaired-context p = ground arith

  context-IsPaired : {e : ControlLogEntry R} → IsPaired e → IsPaired (context e)
  context-IsPaired p = ground arith

module _ {R : Type 0} ⦃f : Float64 R⦄ where
  IsPaired-described :
      (rc : RoomCache R) (now : Instant) (threshold : Duration)
      → IsPaired (described rc now threshold)
  IsPaired-described rc now threshold =
      let es = resolve_effective_state rc now in
      let t = fresh_average (slice_at "temperature" rc.latest_readings) now threshold in
      let h = fresh_average (slice_at "humidity" rc.latest_readings) now threshold in
      let e = init_entry rc now es in
      let d = log_averages-deadbands t h e in
      IsPaired-log_targets rc es.targets (log_averages t h e) (unfold init_entry in d.0)
        (unfold init_entry in d.1) (IsPaired-log_averages t h e (IsPaired-init_entry rc now))

  -- In the log entry of every tick, a deadband is null exactly when its target is, a count of readings
  -- exactly when its average is, and a period is named exactly when the control source is the
  -- schedule or the grace period.
  pub evaluate-IsPaired :
      (rc : RoomCache R) (now : Instant) (threshold : Duration)
      → IsPaired (evaluate rc now threshold).log_entry
  evaluate-IsPaired rc now threshold = IsPaired-context (
      subst IsPaired (sym (context-evaluate rc now threshold))
        (context-IsPaired (IsPaired-described rc now threshold)))
