-- ===== src/Simulator/Config/Exclusive.antt =====
-- What `resolveSimulation` makes sure of in the rooms it returns.
use climate_control.Prelude.{
  ◌≡◌, inl, inr, String, false, List, [], ◌∷◌, string_eq, is_some, All, ◌&&◌, Bool-cases, arith,
  subst,
}
use climate_control.Prelude.Int.{pos, ◌<ℤ◌}
use climate_control.Prelude.Dict.{lookup}
use climate_control.Prelude.Result.{ok, or_err, Result-cases}
use climate_control.Float.{Float64, ◌≺◌, float}
use climate_control.Simulator.Config.{
  SimulatedRoom, UserGroup, Simulation, RawRoom, RawUserGroup, RawSimulationBlock,
  room_template_not_found,
}
use climate_control.Simulator.Config.Parts.{resolve_desired_state, resolve_schedule}
use climate_control.Simulator.Config.Resolve.{
  Templates, resolve_devices, resolve_room, resolve_rooms, resolve_groups, resolve_simulation,
  resolve_time_scale,
}

module _ {R : Type 0} where
  -- The room is not given both a desired state and a schedule.
  abbrev pub IsExclusive : SimulatedRoom R → Type 0
  IsExclusive rm = is_some rm.desired_state && is_some rm.schedule ≡ false

  abbrev pub ExclusiveRooms : List (UserGroup R) → Type 0
  ExclusiveRooms groups = All (λ g. All IsExclusive g.rooms) groups

module _ {R : Type 0} ⦃f : Float64 R⦄ (tpls : Templates R) where
  resolve_room-IsExclusive :
      (rr : RawRoom R) (rm : SimulatedRoom R) → resolve_room tpls rr ≡ ok rm → IsExclusive rm
  unfolding resolve_room
  resolve_room-IsExclusive rr rm h =
      elim (Result-cases
        (or_err (room_template_not_found rr.template) (lookup rr.template tpls.rooms))) [
          | inr (x, k) ↦ absurd (ground (arith, h, k))
          | inl (tpl, k) ↦ elim (Result-cases (resolve_devices tpls rr.devices)) [
            | inr (x, l) ↦ absurd (ground (arith, h, k, l))
            | inl (devices, l) ↦
                elim (Result-cases (resolve_desired_state rr tpls.desired_states)) [
                  | inr (x, m) ↦ absurd (ground (arith, h, k, l, m))
                  | inl (ds, m) ↦ elim (Result-cases (resolve_schedule rr tpls.schedules)) [
                    | inr (x, n) ↦ absurd (ground (arith, h, k, l, m, n))
                    | inl (sched, n) ↦ elim (Bool-cases (is_some ds && is_some sched)) [
                      | inl e ↦ absurd (ground (arith, h, k, l, m, n, e))
                      | inr e ↦ ground (arith, h, k, l, m, n, e)
                    ]
                  ]
                ]
          ]
        ]

  resolve_rooms-IsExclusive :
      (rrs : List (RawRoom R)) (rms : List (SimulatedRoom R))
      → resolve_rooms tpls rrs ≡ ok rms
      → All IsExclusive rms
  unfolding resolve_rooms
  resolve_rooms-IsExclusive [] [] h = tt
  resolve_rooms-IsExclusive [] (rm ∷ rms) h = absurd (ground (arith, h))
  resolve_rooms-IsExclusive (rr ∷ rrs) rms h = elim (Result-cases (resolve_room tpls rr)) [
    | inr (x, e) ↦ absurd (ground (arith, h, e))
    | inl (rm, e) ↦ elim (Result-cases (resolve_rooms tpls rrs)) [
      | inr (x, k) ↦ absurd (ground (arith, h, e, k))
      | inl (rest, k) ↦
          let all : All IsExclusive (rm ∷ rest) =
            (resolve_room-IsExclusive rr rm e, resolve_rooms-IsExclusive rrs rest k) in
          let same : (rm ∷ rest) ≡ rms = ground (arith, h, e, k) in subst (All IsExclusive) same all
    ]
  ]

  resolve_groups-ExclusiveRooms :
      (rgs : List (RawUserGroup R)) (groups : List (UserGroup R))
      → resolve_groups tpls rgs ≡ ok groups
      → ExclusiveRooms groups
  unfolding resolve_groups
  resolve_groups-ExclusiveRooms [] [] h = tt
  resolve_groups-ExclusiveRooms [] (g ∷ gs) h = absurd (ground (arith, h))
  resolve_groups-ExclusiveRooms (rg ∷ rgs) groups h =
      elim (Result-cases (resolve_rooms tpls rg.rooms)) [
        | inr (x, e) ↦ absurd (ground (arith, h, e))
        | inl (rms, e) ↦ elim (Result-cases (resolve_groups tpls rgs)) [
          | inr (x, k) ↦ absurd (ground (arith, h, e, k))
          | inl (rest, k) ↦
              let group : UserGroup R = record {
                count = rg.count;
                interactive = rg.interactive;
                rooms = rms;
              } in
              let same : (group ∷ rest) ≡ groups = ground (arith, h, e, k) in
              let all : ExclusiveRooms (group ∷ rest) = (
                resolve_rooms-IsExclusive rg.rooms rms e,
                resolve_groups-ExclusiveRooms rgs rest k,
              ) in
              subst ExclusiveRooms same all
        ]
      ]

  -- The bounds of a simulation that is returned.
  pub resolve_simulation-ExclusiveRooms :
      (name : String) (raw : RawSimulationBlock R) (sim : Simulation R)
      → resolve_simulation tpls name raw ≡ ok sim
      → ExclusiveRooms sim.user_groups
        × (float 400 ≺ sim.time_scale ≡ false)
        × (pos 0 <ℤ sim.min_publish_interval_ms)
  unfolding resolve_simulation
  resolve_simulation-ExclusiveRooms name raw sim h =
      elim (Bool-cases (float 400 ≺ resolve_time_scale raw.time_scale)) [
        | inl e ↦ absurd (ground (arith, h, e))
        | inr e ↦ elim (Result-cases (resolve_groups tpls raw.user_groups)) [
          | inr (x, k) ↦ absurd (ground (arith, h, e, k))
          | inl (groups, k) ↦
              let same : groups ≡ sim.user_groups = ground (arith, h, e, k) in
              (
                subst ExclusiveRooms same (resolve_groups-ExclusiveRooms raw.user_groups groups k),
                ground (arith, h, e, k),
                ground (arith, h, e, k),
              )
        ]
      ]
