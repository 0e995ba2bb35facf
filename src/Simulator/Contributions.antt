-- ===== src/Simulator/Contributions.antt =====
-- The contributions of the actuators to a simulated room and the heat input derived from them.
use climate_control.Prelude.{
  ◌≡◌, refl, ◌∙◌, String, Bool, true, false, not, Option, none, some, List, [], ◌∷◌, ◌++◌, ◌==◌,
  string_eq, eq_refl, eq_iff, if◌then◌else◌, arith,
}
use climate_control.Prelude.Int.{ltb_ℤ}
use climate_control.Prelude.Dict.{Dict, lookup, insert, erase, lookup-insert}
use climate_control.Float.{Float64, ◌⊕◌, float}
use climate_control.Time.{Instant, Duration, time_sub}
use climate_control.Simulator.{
  EnvironmentModel, RoomState, ActuatorConfig, Command, actuator_name_to_measurement,
  new_room_state, value_at, add_rates, sum_contributions, recompute_heat_input, set_contribution,
  clear_contribution, advance_room, contribution_key, on_command, watchdog,
}

insert-insert :
    {V : Type 0} (k : String) (v : V) (m : Dict String V) → insert k v (insert k v m) ≡ insert k v m
unfolding insert
insert-insert k v [] = ground (arith, eq_refl k)
insert-insert k v ((j, w) ∷ m) = ground (arith, eq_refl k, insert-insert k v m)

erase-erase : {V : Type 0} (k : String) (m : Dict String V) → erase k (erase k m) ≡ erase k m
unfolding erase
erase-erase k [] = refl
erase-erase k ((j, w) ∷ m) = ground (arith, erase-erase k m)

module _ {R : Type 0} ⦃f : Float64 R⦄ where
  set_contribution-again :
      (hw_id : String) (rates : Dict String R) (rs : RoomState R)
      → set_contribution hw_id rates (set_contribution hw_id rates rs)
        ≡ set_contribution hw_id rates rs
  unfolding set_contribution recompute_heat_input
  set_contribution-again hw_id rates rs = rw (insert-insert hw_id rates rs.contributions) refl

  clear_contribution-again :
      (hw_id : String) (rs : RoomState R)
      → clear_contribution hw_id (clear_contribution hw_id rs) ≡ clear_contribution hw_id rs
  unfolding clear_contribution recompute_heat_input
  clear_contribution-again hw_id rs = rw (erase-erase hw_id rs.contributions) refl

  -- A command that comes again to the same actuator leaves the room as the first one left it; only the
  -- time of the last command may differ.
  on_command-again :
      (hw_id : String) (act : ActuatorConfig R) (msg : Option Command)
      → (now later : Instant) (s : RoomState R × Instant)
      → (on_command hw_id act msg later (on_command hw_id act msg now s)).0
        ≡ (on_command hw_id act msg now s).0
  unfolding on_command
  on_command-again hw_id act none now later s = refl
  on_command-again hw_id act (some msg) now later (rs, last) = ground (
    arith,
    set_contribution-again (contribution_key hw_id act) ((act.typ, act.rate) ∷ []) rs,
    clear_contribution-again (contribution_key hw_id act) rs,
  )

  -- What happens to a room: its tick, and for each of its actuators a command or the watchdog's tick.
  pub data Step : RoomState R → RoomState R → Type 0 where
    ticked :
        {rs : RoomState R} (model : EnvironmentModel R) (seconds : R) (draw : String → R)
        → Step rs (advance_room model seconds draw rs)
    commanded :
        {rs : RoomState R} (hw_id : String) (act : ActuatorConfig R) (msg : Option Command)
        → (now last : Instant) → Step rs (on_command hw_id act msg now (rs, last)).0
    watched :
        {rs : RoomState R} (hw_id : String) (act : ActuatorConfig R) (timeout : Duration)
        → (now last : Instant) → Step rs (watchdog hw_id act timeout now (rs, last)).0

  pub data Reachable : RoomState R → Type 0 where
    started : (ambient : Dict String R) → Reachable (new_room_state ambient)
    stepped : {rs rs' : RoomState R} → Reachable rs → Step rs rs' → Reachable rs'

  -- The rates of a type among the rates of one actuator, and among all the contributions.
  abbrev pub rates_of : String → Dict String R → List R
  rates_of typ [] = []
  rates_of typ ((k, rate) ∷ rates) =
      if k == typ then rate ∷ rates_of typ rates else rates_of typ rates

  abbrev pub contributed : String → Dict String (Dict String R) → List R
  contributed typ [] = []
  contributed typ ((hw_id, rates) ∷ cs) = rates_of typ rates ++ contributed typ cs

  -- ((acc + r1) + r2) + ...
  abbrev pub sum_from : R → List R → R
  sum_from acc [] = acc
  sum_from acc (r ∷ rs) = sum_from (acc ⊕ r) rs

  sum_from-append :
      (acc : R) (rs qs : List R) → sum_from acc (rs ++ qs) ≡ sum_from (sum_from acc rs) qs
  sum_from-append acc [] qs = refl
  sum_from-append acc (r ∷ rs) qs = sum_from-append (acc ⊕ r) rs qs

  value_at-insert :
      (typ k : String) (v : R) (m : Dict String R)
      → value_at typ (insert k v m) ≡ (if k == typ then v else value_at typ m)
  unfolding value_at
  value_at-insert typ k v m = ground (arith, lookup-insert k typ v m)

  value_at-add_rates :
      (typ : String) (rates heat : Dict String R)
      → value_at typ (add_rates rates heat) ≡ sum_from (value_at typ heat) (rates_of typ rates)
  unfolding add_rates
  value_at-add_rates typ [] heat = refl
  value_at-add_rates typ ((k, rate) ∷ rates) heat = ground (
    arith,
    value_at-add_rates typ rates (insert k (value_at k heat ⊕ rate) heat),
    value_at-insert typ k (value_at k heat ⊕ rate) heat,
    eq_iff k typ,
  )

  value_at-sum_contributions :
      (typ : String) (cs : Dict String (Dict String R)) (heat : Dict String R)
      → value_at typ (sum_contributions cs heat) ≡ sum_from (value_at typ heat) (contributed typ cs)
  unfolding sum_contributions
  value_at-sum_contributions typ [] heat = refl
  value_at-sum_contributions typ ((hw_id, rates) ∷ cs) heat =
      value_at-sum_contributions typ cs (add_rates rates heat)
      ∙ rw (value_at-add_rates, sum_from-append)

  -- For each type, the heat input is the sum, from 0, of the rates contributed to it, in their order.
  abbrev HeatAgrees : RoomState R → Type 0
  HeatAgrees rs =
      (typ : String)
      → value_at typ rs.heat_input ≡ sum_from (float 0) (contributed typ rs.contributions)

  recompute_heat_input-HeatAgrees : (rs : RoomState R) → HeatAgrees (recompute_heat_input rs)
  unfolding recompute_heat_input value_at lookup
  recompute_heat_input-HeatAgrees rs typ = value_at-sum_contributions typ rs.contributions []

  HeatAgrees-if :
      (b : Bool) (x y : RoomState R × Instant)
      → HeatAgrees x.0
      → HeatAgrees y.0
      → HeatAgrees (if b then x else y).0
  HeatAgrees-if true x y h k = h
  HeatAgrees-if false x y h k = k

  on_command-HeatAgrees :
      (hw_id : String) (act : ActuatorConfig R) (msg : Option Command)
      → (now last : Instant) (rs : RoomState R) → HeatAgrees rs
      → HeatAgrees (on_command hw_id act msg now (rs, last)).0
  unfolding on_command set_contribution clear_contribution
  on_command-HeatAgrees hw_id act none now last rs h = h
  on_command-HeatAgrees hw_id act (some msg) now last rs h =
      HeatAgrees-if (not (actuator_name_to_measurement msg.actuator_type == act.typ)) _ _ h (
        HeatAgrees-if msg.state _ _ (recompute_heat_input-HeatAgrees _)
          (recompute_heat_input-HeatAgrees _))

  watchdog-HeatAgrees :
      (hw_id : String) (act : ActuatorConfig R) (timeout : Duration)
      → (now last : Instant) (rs : RoomState R) → HeatAgrees rs
      → HeatAgrees (watchdog hw_id act timeout now (rs, last)).0
  unfolding watchdog clear_contribution
  watchdog-HeatAgrees hw_id act timeout now last rs h =
      HeatAgrees-if (ltb_ℤ (time_sub now last) timeout) _ _ h (recompute_heat_input-HeatAgrees _)

  Step-HeatAgrees : (rs rs' : RoomState R) → Step rs rs' → HeatAgrees rs → HeatAgrees rs'
  unfolding advance_room
  Step-HeatAgrees rs rs' (ticked model seconds draw) h = h
  Step-HeatAgrees rs rs' (commanded hw_id act msg now last) h =
      on_command-HeatAgrees hw_id act msg now last rs h
  Step-HeatAgrees rs rs' (watched hw_id act timeout now last) h =
      watchdog-HeatAgrees hw_id act timeout now last rs h

  -- In a room that starts as `newRoomState` builds it, after any sequence of room ticks, commands and
  -- watchdog ticks, the heat input of each type is the sum, from 0, of the rates that the
  -- contributions hold for the type, in the order of their entries.
  pub Reachable-HeatAgrees :
      (rs : RoomState R)
      → Reachable rs
      → (typ : String)
      → value_at typ rs.heat_input ≡ sum_from (float 0) (contributed typ rs.contributions)
  unfolding new_room_state value_at lookup
  Reachable-HeatAgrees rs (started ambient) typ = refl
  Reachable-HeatAgrees rs' (stepped {rs} r s) typ =
      Step-HeatAgrees rs rs' s (Reachable-HeatAgrees rs r) typ
