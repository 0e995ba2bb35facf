-- ===== src/Scheduler/Tick/States.antt =====
-- What a tick remembers of the states that it commanded.
use climate_control.Prelude.{
  ◌≡◌, refl, ◌∙◌, String, Bool, ◌&&◌, List, [], ◌∷◌, ◌==◌, string_eq, eq_refl, any, Bool-cases, inl,
  inr, if◌then◌else◌, arith,
}
use climate_control.Prelude.Dict.{Dict, insert, lookup-insert}
use climate_control.Cache.{flag_at}
use climate_control.Control.{ActuatorCommand}
use climate_control.Control.Commands.{commands_for, commands_of}
use climate_control.Scheduler.Tick.{Transport, delivered, publish_commands}

flag_at-insert :
    (k j : String) (b : Bool) (m : Dict String Bool)
    → flag_at j (insert k b m) ≡ (if k == j then b else flag_at j m)
unfolding flag_at
flag_at-insert k j b m = ground (arith, lookup-insert k j b m)

-- Some command of the list is delivered.
abbrev pub any_delivered : Transport → List ActuatorCommand → Bool
any_delivered tr cs = any (delivered tr) cs

-- The states after one command.
abbrev after_command : Transport → ActuatorCommand → Dict String Bool → Dict String Bool
after_command tr c states = if delivered tr c then insert c.actuator_type c.state states else states

flag_at-after_command :
    (tr : Transport) (t : String) (c : ActuatorCommand) (m : Dict String Bool)
    → flag_at t (after_command tr c m)
      ≡ (if delivered tr c && c.actuator_type == t then c.state else flag_at t m)
flag_at-after_command tr t c m = ground (arith, flag_at-insert c.actuator_type t c.state m)

-- Only the commands of a type touch its state.
flag_at-commands_of :
    (tr : Transport) (t : String) (cs : List ActuatorCommand) (m n : Dict String Bool)
    → flag_at t m ≡ flag_at t n
    → flag_at t (publish_commands tr cs m) ≡ flag_at t (publish_commands tr (commands_of t cs) n)
unfolding publish_commands
flag_at-commands_of tr t [] m n e = e
flag_at-commands_of tr t (c ∷ cs) m n e = elim (Bool-cases (c.actuator_type == t)) [
  | inl same ↦ rw same (
      flag_at-commands_of tr t cs (after_command tr c m) (after_command tr c n)
        (ground (arith, flag_at-after_command tr t c m, flag_at-after_command tr t c n)))
  | inr other ↦ rw other (
      flag_at-commands_of tr t cs (after_command tr c m) n
        (ground (arith, flag_at-after_command tr t c m)))
]

flag_at-commands_for :
    (tr : Transport) (t : String) (b : Bool) (hs : List String) (m : Dict String Bool)
    → flag_at t (publish_commands tr (commands_for t b hs) m)
      ≡ (if any_delivered tr (commands_for t b hs) then b else flag_at t m)
unfolding publish_commands
flag_at-commands_for tr t b [] m = refl
flag_at-commands_for tr t b (h ∷ hs) m =
    let c : ActuatorCommand = record { hw_id = h; actuator_type = t; state = b } in
    ground (
      arith,
      flag_at-commands_for tr t b hs (after_command tr c m),
      flag_at-after_command tr t c m,
      eq_refl t,
    )

-- If all commands of a type carry one state, then after the loop that is the remembered state of the
-- type, provided that one of them is delivered; if none is, the remembered state is the old one.
pub publish_commands-flag_at :
    (tr : Transport) (t : String) (b : Bool) (hs : List String) (cs : List ActuatorCommand)
    (states : Dict String Bool)
    → commands_of t cs ≡ commands_for t b hs
    → flag_at t (publish_commands tr cs states)
      ≡ (if any_delivered tr (commands_for t b hs) then b else flag_at t states)
publish_commands-flag_at tr t b hs cs states e =
    flag_at-commands_of tr t cs states states refl ∙ rw e (flag_at-commands_for tr t b hs states)
