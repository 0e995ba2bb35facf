-- ===== src/Scheduler/Tick/Again.antt =====
-- A tick against the next one: what it remembers changes no decision at the same instant.
use mathlib.Core.Path.{ap₂}
use climate_control.Prelude.{
  ℕ, ◌≡◌, refl, ◌∙◌, ap, sym, String, Bool, true, false, ◌||◌, Option, none, some, ◌==◌, nat_eq,
  string_eq, Bool-cases, Option-cases, inl, inr, if◌then◌else◌, arith,
}
use climate_control.Prelude.Dict.{Dict, contains, KeysDistinct}
use climate_control.Float.{Float64}
use climate_control.Time.{Instant, Duration}
use climate_control.Cache.{SchedulePeriodCache, RoomCache, flag_at, slice_at, target_at}
use climate_control.Control.{
  EffectiveState, location_or_utc, day_of_week, minutes_of_day, manual_override, find_period,
  grace_period, resolve_effective_state,
}
use climate_control.Control.Evaluate.{bang_bang, evaluate}
use climate_control.Control.Priority.{grace_period-some}
use climate_control.Control.Commands.{decided, commands_for, commands_of}
use climate_control.Control.Logging.{
  cmds, cmd_if, temp_average, hum_average, commanded_heater, commanded_humidifier,
  evaluate-commands,
}
use climate_control.Scheduler.Tick.{Transport, remembered, publish_commands, after_tick}
use climate_control.Scheduler.Tick.States.{publish_commands-flag_at}

module _ {R : Type 0} where
  -- The period that a tick reports for an effective state.
  abbrev reported : EffectiveState R → Option (SchedulePeriodCache R)
  reported es = if es.source == "schedule" || es.source == "grace_period" then es.period else none

  -- With no override and no period, a tick leaves the last active period as it is.
  remembered-same :
      (rc : RoomCache R) (now : Instant)
      → let loc = location_or_utc rc.location in
        manual_override rc now ≡ false
        → find_period (day_of_week loc now) (minutes_of_day loc now) rc.active_periods ≡ none
        → remembered (reported (resolve_effective_state rc now)) rc.last_active_period
          ≡ rc.last_active_period
  unfolding resolve_effective_state
  remembered-same rc now e missing =
      let day = day_of_week (location_or_utc rc.location) now in
      let m = minutes_of_day (location_or_utc rc.location) now in
      elim (Option-cases (grace_period day m rc.last_active_period)) [
        | inl g ↦ rw (e, missing, g)
        | inr (p, g) ↦
            rw (e, missing, g) (sym (grace_period-some day m rc.last_active_period p g).0)
      ]

  resolve-remembered :
      (rc : RoomCache R) (now : Instant) (states : Dict String Bool)
      (last : Option (SchedulePeriodCache R))
      → (let loc = location_or_utc rc.location in
          manual_override rc now ≡ false
          → find_period (day_of_week loc now) (minutes_of_day loc now) rc.active_periods ≡ none
          → last ≡ rc.last_active_period)
      → resolve_effective_state
          (record rc { actuator_states = states; last_active_period = last })
          now
        ≡ resolve_effective_state rc now
  unfolding resolve_effective_state manual_override
  resolve-remembered rc now states last same = elim (Bool-cases (manual_override rc now)) [
    | inl e ↦ rw e
    | inr e ↦
        let loc = location_or_utc rc.location in
        elim (Option-cases
          (find_period (day_of_week loc now) (minutes_of_day loc now) rc.active_periods)) [
            | inl missing ↦ rw (e, missing, same e missing)
            | inr (p, found) ↦ rw (e, found)
          ]
  ]

module _ {R : Type 0} ⦃f : Float64 R⦄ where
  evaluate-reported :
      (rc : RoomCache R) (now : Instant) (threshold : Duration)
      → (evaluate rc now threshold).last_active_period ≡ reported (resolve_effective_state rc now)
  unfolding evaluate
  evaluate-reported rc now threshold =
      elim (Bool-cases ((resolve_effective_state rc now).mode == "OFF")) [
        | inl off ↦ rw off
        | inr auto ↦ rw auto
      ]

  resolve-after_tick :
      (tr : Transport) (rc : RoomCache R) (now : Instant) (threshold : Duration)
      → resolve_effective_state (after_tick tr (evaluate rc now threshold) rc) now
        ≡ resolve_effective_state rc now
  unfolding after_tick
  resolve-after_tick tr rc now threshold =
      resolve-remembered rc now
        (publish_commands tr (evaluate rc now threshold).commands rc.actuator_states)
        (remembered (evaluate rc now threshold).last_active_period rc.last_active_period)
        λ e missing. rw (evaluate-reported rc now threshold) (remembered-same rc now e missing)

  -- A decision is stable once it is what the room remembers.
  bang_bang_twice :
      (avg target deadband : R) (current b : Bool)
      → bang_bang avg target deadband (if b then bang_bang avg target deadband current else current)
        ≡ bang_bang avg target deadband current
  unfolding bang_bang
  bang_bang_twice avg target deadband current b = ground arith

  decided_again :
      (rc new : RoomCache R) (t : String) (avg : R × ℕ × Bool) (target : Option R) (deadband : R)
      (b : Bool)
      → flag_at t new.actuator_states
        ≡ (if b then decided rc t avg target deadband else flag_at t rc.actuator_states)
      → decided new t avg target deadband ≡ decided rc t avg target deadband
  decided_again rc new t (avg, n, has) none deadband b e = refl
  decided_again rc new t (avg, n, false) (some target) deadband b e = refl
  decided_again rc new t (avg, n, true) (some target) deadband b e =
      rw e (bang_bang_twice avg target deadband (flag_at t rc.actuator_states) b)

  -- A room that keeps its settings and readings, and remembers what was commanded, decides alike.
  module _ (rc new : RoomCache R) (now : Instant) (threshold : Duration)
      (same_state : resolve_effective_state new now ≡ resolve_effective_state rc now)
      (same_readings : new.latest_readings ≡ rc.latest_readings)
      (same_temp : new.deadband_temp ≡ rc.deadband_temp)
      (same_hum : new.deadband_hum ≡ rc.deadband_hum) where
    heater_again :
        (b : Bool)
        → flag_at "heater" new.actuator_states
          ≡ (if b then commanded_heater rc now threshold else flag_at "heater" rc.actuator_states)
        → commanded_heater new now threshold ≡ commanded_heater rc now threshold
    heater_again b e =
        let es = resolve_effective_state rc now in
        rw (same_state, same_readings, same_temp)
          (elim (Bool-cases (es.mode == "OFF")) [
            | inl off ↦ rw off
            | inr auto ↦ rw auto (
                decided_again rc new "heater" (temp_average rc now threshold)
                  (target_at "temperature" es.targets) rc.deadband_temp b (rw auto at e))
          ])

    humidifier_again :
        (b : Bool)
        → flag_at "humidifier" new.actuator_states ≡ (
            if b
            then commanded_humidifier rc now threshold
            else flag_at "humidifier" rc.actuator_states)
        → commanded_humidifier new now threshold ≡ commanded_humidifier rc now threshold
    humidifier_again b e =
        let es = resolve_effective_state rc now in
        rw (same_state, same_readings, same_hum)
          (elim (Bool-cases (es.mode == "OFF")) [
            | inl off ↦ rw off
            | inr auto ↦ rw auto (
                decided_again rc new "humidifier" (hum_average rc now threshold)
                  (target_at "humidity" es.targets) rc.deadband_hum b (rw auto at e))
          ])

  -- For a room with one entry for each actuator type: a second tick at the same instant, on the room
  -- as the first tick leaves it, sends the heaters and the humidifiers the commands of the first tick
  -- and logs the same command values, whichever of the first tick's commands were delivered.
  pub tick_again :
      (link : Transport) (rc : RoomCache R) (now : Instant) (threshold : Duration)
      → KeysDistinct rc.actuator_hw_ids
      → let first = evaluate rc now threshold in
        let second = evaluate (after_tick link first rc) now threshold in
        (commands_of "heater" second.commands ≡ commands_of "heater" first.commands)
        × (commands_of "humidifier" second.commands ≡ commands_of "humidifier" first.commands)
        × (cmds second.log_entry ≡ cmds first.log_entry)
  unfolding after_tick
  tick_again link rc now threshold distinct =
      let first = evaluate rc now threshold in
      let sent = evaluate-commands rc now threshold distinct in
      let new = after_tick link first rc in
      let again = evaluate-commands new now threshold distinct in
      let same = resolve-after_tick link rc now threshold in
      let heater = heater_again rc new now threshold same refl refl refl _ (
        publish_commands-flag_at link "heater" (commanded_heater rc now threshold)
          (slice_at "heater" rc.actuator_hw_ids) first.commands rc.actuator_states sent.0) in
      let humidifier = humidifier_again rc new now threshold same refl refl refl _ (
        publish_commands-flag_at link "humidifier" (commanded_humidifier rc now threshold)
          (slice_at "humidifier" rc.actuator_hw_ids) first.commands rc.actuator_states sent.1) in
      (
        again.0
            ∙ ap (λ (b : Bool). commands_for "heater" b (slice_at "heater" rc.actuator_hw_ids))
                heater
            ∙ sym sent.0,
        again.1
            ∙ ap
                (λ (b : Bool).
                  commands_for "humidifier" b (slice_at "humidifier" rc.actuator_hw_ids))
                humidifier
            ∙ sym sent.1,
        again.2
            ∙ ap₂
                (λ (b c : Bool). (
                  cmd_if (contains "heater" rc.actuator_hw_ids) b,
                  cmd_if (contains "humidifier" rc.actuator_hw_ids) c,
                ))
                heater humidifier
            ∙ sym sent.2,
      )
