-- ===== src/Control/Logging.antt =====
-- The commands of a tick and its log entry tell one story, in every mode.
use mathlib.Core.List.{append-nil}
use climate_control.Prelude.{
  ℕ, ◌≡◌, refl, ap, String, Bool, false, Option, none, some, List, [], ◌∷◌, ◌++◌, ◌==◌, string_eq,
  Bool-cases, inl, inr, keep, keep-append, All, if◌then◌else◌, arith,
}
use climate_control.Prelude.Int.{ℤ, pos}
use climate_control.Prelude.Dict.{Dict, contains, KeysDistinct}
use climate_control.Float.{Float64}
use climate_control.Time.{Instant, Duration}
use climate_control.Cache.{Targets, RoomCache, slice_at, target_at}
use climate_control.Control.{
  ActuatorCommand, ControlLogEntry, EffectiveState, resolve_effective_state,
}
use climate_control.Control.Evaluate.{
  is_fresh, set_cmd, append_commands, command_all_off, fresh_average, evaluate_or_off, init_entry,
  log_averages, log_targets, evaluate,
}
use climate_control.Control.Average.{mean_of, fresh_average-mean_of}
use climate_control.Control.Commands.{
  decided, cmd_value, commands_for, commands_of, command_all_off_lem, commands_of-all_off,
  commands_of-commands_for, commands_of-other, evaluate_or_off-commands, evaluate_or_off-entry,
}

-- The field of an actuator type that the room has, or has not.
abbrev pub cmd_if : Bool → Bool → Option ℤ
cmd_if present b = if present then some (cmd_value b) else none

module _ {R : Type 0} where
  -- The two command fields of an entry.
  abbrev pub cmds : ControlLogEntry R → Option ℤ × Option ℤ
  cmds e = (e.heater_cmd, e.humidifier_cmd)

  cmds-log_averages :
      (t h : R × ℕ × Bool) (e : ControlLogEntry R) → cmds (log_averages t h e) ≡ cmds e
  unfolding log_averages
  cmds-log_averages (a, n, x) (b, m, y) e = ground arith

  cmds-log_targets :
      (rc : RoomCache R) (ts : Targets R) (e : ControlLogEntry R)
      → cmds (log_targets rc ts e) ≡ cmds e
  unfolding log_targets
  cmds-log_targets rc none e = refl
  cmds-log_targets rc (some m) e = refl

  cmds-set_cmd_off :
      (t : String) (e : ControlLogEntry R) (x y : Bool)
      → cmds e ≡ (cmd_if x false, cmd_if y false)
      → cmds (set_cmd t (pos 0) e) ≡ (cmd_if x false, cmd_if y false)
  unfolding set_cmd
  cmds-set_cmd_off t e x y h = ground arith

  cmds-command_all_off :
      (m : Dict String (List String)) (e : ControlLogEntry R) (cs : List ActuatorCommand)
      (x y : Bool)
      → cmds e ≡ (cmd_if x false, cmd_if y false)
      → cmds (command_all_off m e cs).0 ≡ (cmd_if x false, cmd_if y false)
  unfolding command_all_off
  cmds-command_all_off [] e cs x y h = h
  cmds-command_all_off ((t, hs) ∷ m) e cs x y h =
      cmds-command_all_off m (set_cmd t (pos 0) e) (append_commands t false hs cs) x y
        (cmds-set_cmd_off t e x y h)

  cmds-init_entry :
      (rc : RoomCache R) (now : Instant) (es : EffectiveState R)
      → cmds (init_entry rc now es) ≡ (
        cmd_if (contains "heater" rc.actuator_hw_ids) false,
        cmd_if (contains "humidifier" rc.actuator_hw_ids) false,
      )
  unfolding init_entry
  cmds-init_entry rc now es = refl

  -- `setCmd` on a field that is set.
  cmds-set_heater :
      (e : ControlLogEntry R) (x y b c : Bool)
      → cmds e ≡ (cmd_if x c, cmd_if y false)
      → cmds (if x then set_cmd "heater" (cmd_value b) e else e) ≡ (cmd_if x b, cmd_if y false)
  unfolding set_cmd
  cmds-set_heater e x y b c h = ground arith

  cmds-set_humidifier :
      (e : ControlLogEntry R) (x y b c d : Bool)
      → cmds e ≡ (cmd_if x b, cmd_if y c)
      → cmds (if y then set_cmd "humidifier" (cmd_value d) e else e) ≡ (cmd_if x b, cmd_if y d)
  unfolding set_cmd
  cmds-set_humidifier e x y b c d h = ground arith

heater_part :
    (b c : Bool) (hs us : List String)
    → commands_of "heater" (commands_for "heater" b hs ++ commands_for "humidifier" c us)
      ≡ commands_for "heater" b hs
heater_part b c hs us =
    rw (keep-append, commands_of-commands_for, commands_of-other "heater" "humidifier" c us refl)
      (append-nil (commands_for "heater" b hs))

humidifier_part :
    (b c : Bool) (hs us : List String)
    → commands_of "humidifier" (commands_for "heater" b hs ++ commands_for "humidifier" c us)
      ≡ commands_for "humidifier" c us
humidifier_part b c hs us =
    rw (keep-append, commands_of-other "humidifier" "heater" b hs refl)
      (commands_of-commands_for "humidifier" c us)

All-false :
    (t : String) (b : Bool) (hs : List String)
    → b ≡ false
    → All (λ c. c.state ≡ false) (commands_for t b hs)
All-false t b [] e = tt
All-false t b (h ∷ hs) e = (e, All-false t b hs e)

module _ {R : Type 0} ⦃f : Float64 R⦄ (rc : RoomCache R) (now : Instant)
    (threshold : Duration) where
  abbrev pub temp_average : R × ℕ × Bool
  temp_average = fresh_average (slice_at "temperature" rc.latest_readings) now threshold

  abbrev pub hum_average : R × ℕ × Bool
  hum_average = fresh_average (slice_at "humidity" rc.latest_readings) now threshold

  -- What a tick commands the heaters and the humidifiers.
  abbrev pub commanded_heater : Bool
  commanded_heater =
      let es = resolve_effective_state rc now in
      if es.mode == "OFF"
      then false
      else decided rc "heater" temp_average (target_at "temperature" es.targets) rc.deadband_temp

  abbrev pub commanded_humidifier : Bool
  commanded_humidifier =
      let es = resolve_effective_state rc now in
      if es.mode == "OFF"
      then false
      else decided rc "humidifier" hum_average (target_at "humidity" es.targets) rc.deadband_hum

  abbrev first_entry : ControlLogEntry R
  first_entry =
      let es = resolve_effective_state rc now in
      log_targets rc es.targets (log_averages temp_average hum_average (init_entry rc now es))

  cmds-first_entry : cmds first_entry ≡ (
    cmd_if (contains "heater" rc.actuator_hw_ids) false,
    cmd_if (contains "humidifier" rc.actuator_hw_ids) false,
  )
  cmds-first_entry = rw (cmds-log_targets, cmds-log_averages) (cmds-init_entry rc now _)

  -- The heater's step and then the humidifier's, from an empty list of commands.
  both_commands :
      (ts : Targets R) (e e' : ControlLogEntry R) (b c : Bool)
      → b ≡ decided rc "heater" temp_average (target_at "temperature" ts) rc.deadband_temp
      → c ≡ decided rc "humidifier" hum_average (target_at "humidity" ts) rc.deadband_hum
      → (evaluate_or_off rc "humidifier" "humidity" hum_average.0 hum_average.2 ts rc.deadband_hum
          e'
          (evaluate_or_off rc "heater" "temperature" temp_average.0 temp_average.2 ts
            rc.deadband_temp e []).1).1
        ≡ commands_for "heater" b (slice_at "heater" rc.actuator_hw_ids)
          ++ commands_for "humidifier" c (slice_at "humidifier" rc.actuator_hw_ids)
  both_commands ts e e' b c hb hc =
      rw (hb, hc)
        (rw (
          evaluate_or_off-commands rc "humidifier" "humidity" hum_average,
          evaluate_or_off-commands rc "heater" "temperature" temp_average,
        ))

  both_cmds :
      (ts : Targets R) (e : ControlLogEntry R) (cs : List ActuatorCommand) (b c x y : Bool)
      → b ≡ decided rc "heater" temp_average (target_at "temperature" ts) rc.deadband_temp
      → c ≡ decided rc "humidifier" hum_average (target_at "humidity" ts) rc.deadband_hum
      → x ≡ contains "heater" rc.actuator_hw_ids
      → y ≡ contains "humidifier" rc.actuator_hw_ids
      → cmds e ≡ (cmd_if x false, cmd_if y false)
      → cmds
          (evaluate_or_off rc "humidifier" "humidity" hum_average.0 hum_average.2 ts rc.deadband_hum
            (evaluate_or_off rc "heater" "temperature" temp_average.0 temp_average.2 ts
              rc.deadband_temp e []).0
            cs).0
        ≡ (cmd_if x b, cmd_if y c)
  both_cmds ts e cs b c x y hb hc hx hy h =
      rw
        (
          evaluate_or_off-entry rc "humidifier" "humidity" hum_average,
          evaluate_or_off-entry rc "heater" "temperature" temp_average,
          ← hx,
          ← hy,
          ← hb,
          ← hc,
        )
        (cmds-set_humidifier _ x y b false c (cmds-set_heater e x y b false h))

  -- For a room whose map of actuators has one entry for each type: in every mode, a tick sends each
  -- heater and each humidifier of the room exactly one command, in the order of its list, all of a type
  -- with the commanded state; and the log entry has that state as 1 or 0 for the types that the room
  -- has, and null for the others.
  pub evaluate-commands :
      KeysDistinct rc.actuator_hw_ids
      → let result = evaluate rc now threshold in
        let heaters = slice_at "heater" rc.actuator_hw_ids in
        let humidifiers = slice_at "humidifier" rc.actuator_hw_ids in
        (commands_of "heater" result.commands ≡ commands_for "heater" commanded_heater heaters)
        × (commands_of "humidifier" result.commands
            ≡ commands_for "humidifier" commanded_humidifier humidifiers)
        × (cmds result.log_entry ≡ (
          cmd_if (contains "heater" rc.actuator_hw_ids) commanded_heater,
          cmd_if (contains "humidifier" rc.actuator_hw_ids) commanded_humidifier,
        ))
  unfolding evaluate
  evaluate-commands distinct =
      let es = resolve_effective_state rc now in
      let on =
        decided rc "heater" temp_average (target_at "temperature" es.targets) rc.deadband_temp in
      let heaters = slice_at "heater" rc.actuator_hw_ids in
      elim (Bool-cases (es.mode == "OFF")) [
        | inl off ↦ rw off (
          rw command_all_off_lem (commands_of-all_off "heater" rc.actuator_hw_ids distinct),
          rw command_all_off_lem (commands_of-all_off "humidifier" rc.actuator_hw_ids distinct),
          cmds-command_all_off rc.actuator_hw_ids first_entry [] _ _ cmds-first_entry,
        )
        | inr auto ↦ rw auto (
          rw (both_commands es.targets first_entry _ _ _ refl refl) (heater_part _ _ _ _),
          rw (both_commands es.targets first_entry _ _ _ refl refl)
              (humidifier_part on _ heaters _),
          both_cmds es.targets first_entry _ _ _ _ _ refl refl refl refl cmds-first_entry,
        )
      ]

  stale_mean :
      temp_average
      ≡ mean_of (keep (is_fresh now threshold) (slice_at "temperature" rc.latest_readings))
  stale_mean = fresh_average-mean_of (slice_at "temperature" rc.latest_readings) now threshold

  stale_off :
      (es : EffectiveState R)
      → temp_average ≡ mean_of []
      → (if es.mode == "OFF"
          then false
          else decided rc "heater" temp_average
              (target_at "temperature" es.targets)
              rc.deadband_temp)
        ≡ false
  stale_off es e = rw e (ground arith)

  -- With one entry for each actuator type, and no reading of the temperature that is fresh at the
  -- instant, every command that a tick sends to a heater is OFF.
  pub evaluate-stale_heater :
      KeysDistinct rc.actuator_hw_ids
      → keep (is_fresh now threshold) (slice_at "temperature" rc.latest_readings) ≡ []
      → All (λ c. c.state ≡ false) (commands_of "heater" (evaluate rc now threshold).commands)
  evaluate-stale_heater distinct stale = rw (evaluate-commands distinct).0 (
      All-false "heater" commanded_heater (slice_at "heater" rc.actuator_hw_ids)
        (stale_off (resolve_effective_state rc now) (cc (stale_mean, ap mean_of stale))))
