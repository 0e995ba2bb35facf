-- ===== src/Control/Commands.antt =====
-- Which commands a tick sends, and that its log entry tells them.
use climate_control.Prelude.{
  ℕ, ◌≡◌, refl, sym, subst, ◌∙◌, String, Bool, true, false, Option, none, some, List, [], ◌∷◌, ◌++◌,
  inl, inr, ◌==◌, string_eq, eq_iff, eq_refl, Bool-cases, Option-cases, keep, keep-append,
  if◌then◌else◌, arith,
}
use mathlib.Core.List.{append-nil, append_assoc}
use climate_control.Prelude.Int.{ℤ, pos}
use climate_control.Prelude.Dict.{Dict, lookup, contains, KeysDistinct, contains-lookup}
use climate_control.Float.{Float64}
use climate_control.Cache.{Targets, RoomCache, flag_at, slice_at, target_at}
use climate_control.Control.{ActuatorCommand, ControlLogEntry}
use climate_control.Control.Evaluate.{
  set_cmd, append_commands, command_all_off, bang_bang, evaluate_or_off,
}

-- One command for each device.
abbrev pub commands_for : String → Bool → List String → List ActuatorCommand
commands_for t b [] = []
commands_for t b (h ∷ hs) = record { hw_id = h; actuator_type = t; state = b } ∷ commands_for t b hs

-- OFF for every device of the room.
abbrev pub all_off : Dict String (List String) → List ActuatorCommand
all_off [] = []
all_off ((t, hs) ∷ m) = commands_for t false hs ++ all_off m

-- The number that the log keeps for a commanded state.
abbrev pub cmd_value : Bool → ℤ
cmd_value b = if b then pos 1 else pos 0

append_commands_lem :
    (t : String) (b : Bool) (hs : List String) (cs : List ActuatorCommand)
    → append_commands t b hs cs ≡ cs ++ commands_for t b hs
unfolding append_commands
append_commands_lem t b [] cs = sym (append-nil cs)
append_commands_lem t b (h ∷ hs) cs =
    append_commands_lem t b hs (cs ++ record { hw_id = h; actuator_type = t; state = b } ∷ [])
    ∙ append_assoc cs (record { hw_id = h; actuator_type = t; state = b } ∷ [])
        (commands_for t b hs)

module _ {R : Type 0} where
  pub command_all_off_lem :
      (m : Dict String (List String)) (e : ControlLogEntry R) (cs : List ActuatorCommand)
      → (command_all_off m e cs).1 ≡ cs ++ all_off m
  unfolding command_all_off
  command_all_off_lem [] e cs = sym (append-nil cs)
  command_all_off_lem ((t, hs) ∷ m) e cs =
      command_all_off_lem m (set_cmd t (pos 0) e) (append_commands t false hs cs)
      ∙ rw append_commands_lem (append_assoc cs (commands_for t false hs) (all_off m))

module _ {R : Type 0} ⦃f : Float64 R⦄ where
  -- The state that a tick in AUTO decides for an actuator type: OFF with no target or no fresh reading.
  abbrev pub decided : RoomCache R → String → R × ℕ × Bool → Option R → R → Bool
  decided rc t (avg, count, has) none deadband = false
  decided rc t (avg, count, has) (some target) deadband =
      if has then bang_bang avg target deadband (flag_at t rc.actuator_states) else false

  evaluate_or_off_lem :
      (rc : RoomCache R) (t sensor : String) (avg : R × ℕ × Bool) (targets : Targets R)
      (deadband : R) (e : ControlLogEntry R) (cs : List ActuatorCommand)
      → evaluate_or_off rc t sensor avg.0 avg.2 targets deadband e cs ≡ (
          let b = decided rc t avg (target_at sensor targets) deadband in
          elim (lookup t rc.actuator_hw_ids) [
            | none ↦ (e, cs)
            | some hs ↦ (set_cmd t (cmd_value b) e, cs ++ commands_for t b hs)
          ])
  unfolding evaluate_or_off
  evaluate_or_off_lem rc t sensor avg targets deadband e cs =
      elim (Option-cases (lookup t rc.actuator_hw_ids)) [
        | inl missing ↦ ground arith
        | inr (hs, found) ↦
            ground (arith, append_commands_lem t false hs cs, append_commands_lem t true hs cs)
      ]

  -- The log entry of a type's step, and the commands that it adds.
  pub evaluate_or_off-commands :
      (rc : RoomCache R) (t sensor : String) (avg : R × ℕ × Bool) (targets : Targets R)
      (deadband : R) (e : ControlLogEntry R) (cs : List ActuatorCommand)
      → (evaluate_or_off rc t sensor avg.0 avg.2 targets deadband e cs).1
        ≡ cs
          ++ commands_for t
              (decided rc t avg (target_at sensor targets) deadband)
              (slice_at t rc.actuator_hw_ids)
  unfolding slice_at
  evaluate_or_off-commands rc t sensor avg targets deadband e cs =
      elim (Option-cases (lookup t rc.actuator_hw_ids)) [
        | inl missing ↦
            ground (arith, evaluate_or_off_lem rc t sensor avg targets deadband e cs, append-nil cs)
        | inr (hs, found) ↦
            ground (arith, evaluate_or_off_lem rc t sensor avg targets deadband e cs)
      ]

  pub evaluate_or_off-entry :
      (rc : RoomCache R) (t sensor : String) (avg : R × ℕ × Bool) (targets : Targets R)
      (deadband : R) (e : ControlLogEntry R) (cs : List ActuatorCommand)
      → (evaluate_or_off rc t sensor avg.0 avg.2 targets deadband e cs).0 ≡ (
          if contains t rc.actuator_hw_ids
          then set_cmd t (cmd_value (decided rc t avg (target_at sensor targets) deadband)) e
          else e)
  evaluate_or_off-entry rc t sensor avg targets deadband e cs =
      elim (Option-cases (lookup t rc.actuator_hw_ids)) [
        | inl missing ↦ ground (
          arith,
          evaluate_or_off_lem rc t sensor avg targets deadband e cs,
          contains-lookup t rc.actuator_hw_ids,
        )
        | inr (hs, found) ↦ ground (
          arith,
          evaluate_or_off_lem rc t sensor avg targets deadband e cs,
          contains-lookup t rc.actuator_hw_ids,
        )
      ]

-- The commands for one actuator type.
abbrev pub commands_of : String → List ActuatorCommand → List ActuatorCommand
commands_of t cs = keep (λ c. c.actuator_type == t) cs

pub commands_of-commands_for :
    (t : String) (b : Bool) (hs : List String)
    → commands_of t (commands_for t b hs) ≡ commands_for t b hs
commands_of-commands_for t b [] = refl
commands_of-commands_for t b (h ∷ hs) = ground (arith, eq_refl t, commands_of-commands_for t b hs)

pub commands_of-other :
    (t u : String) (b : Bool) (hs : List String)
    → (u == t) ≡ false
    → commands_of t (commands_for u b hs) ≡ []
commands_of-other t u b [] ne = refl
commands_of-other t u b (h ∷ hs) ne = ground (arith, commands_of-other t u b hs)

commands_of-missing :
    (t : String) (m : Dict String (List String))
    → contains t m ≡ false
    → commands_of t (all_off m) ≡ []
unfolding contains
commands_of-missing t [] h = refl
commands_of-missing t ((u, hs) ∷ m) h =
    rw keep-append (ground (arith, commands_of-other t u false hs, commands_of-missing t m))

slice_at-cons :
    (t u : String) (hs : List String) (m : Dict String (List String))
    → slice_at t ((u, hs) ∷ m) ≡ (if u == t then hs else slice_at t m)
unfolding slice_at lookup
slice_at-cons t u hs m = ground arith

commands_of-head :
    (t u : String) (hs : List String) (m : Dict String (List String))
    → (u == t) ≡ true
    → contains u m ≡ false
    → commands_of t (commands_for u false hs ++ all_off m) ≡ commands_for t false hs
commands_of-head t u hs m same fresh =
    subst
      (λ k.
        contains k m ≡ false
        → commands_of t (commands_for k false hs ++ all_off m) ≡ commands_for t false hs)
      (sym ((eq_iff u t).0 same))
      (λ missing.
        rw (keep-append, commands_of-commands_for, commands_of-missing t m missing, append-nil))
      fresh

pub commands_of-all_off :
    (t : String) (m : Dict String (List String))
    → KeysDistinct m
    → commands_of t (all_off m) ≡ commands_for t false (slice_at t m)
commands_of-all_off t [] h = unfold slice_at lookup in refl
commands_of-all_off t ((u, hs) ∷ m) h = elim (Bool-cases (u == t)) [
  | inl same ↦ rw (slice_at-cons, same) (commands_of-head t u hs m same h.0)
  | inr ne ↦
      rw (slice_at-cons, ne, keep-append, commands_of-other t u false hs ne)
        (commands_of-all_off t m h.1)
]
