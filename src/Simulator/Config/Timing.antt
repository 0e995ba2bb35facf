-- ===== src/Simulator/Config/Timing.antt =====
-- What a configuration that `Load` returns is known to satisfy.
use climate_control.Prelude.{◌≡◌, String, false, arith, inl, inr}
use climate_control.Prelude.Int.{ℤ, pos, ◌*ℤ◌, wrap_signed, mod_floor, ◌≤ℤ◌, ◌<ℤ◌}
use climate_control.Prelude.Result.{ok, Result-cases}
use climate_control.Float.{Float64, ◌≺◌, ◌⊗◌, float}
use climate_control.Simulator.Config.{Simulation}
use climate_control.Simulator.Config.Resolve.{resolve_simulation}
use climate_control.Simulator.Config.Validate.{validate_simulation}
use climate_control.Simulator.Config.Load.{
  Host, SimulatorConfig, load, read_files, config_of, effective_interval, min_publish_interval,
}
use climate_control.Simulator.Config.Prefixes.{
  DistinctPrefixes, validate_simulation-DistinctPrefixes,
}
use climate_control.Simulator.Config.Exclusive.{ExclusiveRooms, resolve_simulation-ExclusiveRooms}

module _ {R E : Type 0} ⦃f : Float64 R⦄ (host : Host R E) where
  -- The simulation is one that was resolved and validated, and the interval is computed from it.
  record Loaded (c : SimulatorConfig R) : Type 0 where
    exclusive : ExclusiveRooms c.simulation.user_groups
    prefixes : DistinctPrefixes c.simulation.user_groups
    scale : float 400 ≺ c.simulation.time_scale ≡ false
    interval_ms : pos 0 <ℤ c.simulation.min_publish_interval_ms
    interval :
        c.effective_publish_interval ≡ effective_interval host c.base_tick_seconds c.simulation
    simulated :
        c.simulated_tick_seconds
        ≡ c.simulation.time_scale ⊗ host.seconds c.effective_publish_interval

  -- The minimum interval does not wrap around.
  min_publish_interval_lem :
      (sim : Simulation R)
      → pos 0 <ℤ sim.min_publish_interval_ms
      → sim.min_publish_interval_ms <ℤ pos 9000000000000
      → (pos 0 <ℤ min_publish_interval host sim)
        × (sim.min_publish_interval_ms *ℤ pos 1000000 ≡ min_publish_interval host sim)
  unfolding min_publish_interval wrap_signed mod_floor ◌*ℤ◌
  min_publish_interval_lem sim h k = ground (arith, h, k)

  effective_interval_lem :
      (n : ℤ) (sim : Simulation R) → min_publish_interval host sim ≤ℤ effective_interval host n sim
  unfolding effective_interval
  effective_interval_lem n sim = ground arith

  -- The record is filled from the simulation.
  config_of_lem :
      (sim : Simulation R) (c : SimulatorConfig R)
      → config_of host sim ≡ ok c
      → (c.simulation ≡ sim)
        × (c.effective_publish_interval ≡ effective_interval host c.base_tick_seconds sim)
        × (c.simulated_tick_seconds ≡ sim.time_scale ⊗ host.seconds c.effective_publish_interval)
  unfolding config_of
  config_of_lem sim c h = ground (arith, h)

  load-Loaded : (name : String) (c : SimulatorConfig R) → load host name ≡ ok c → Loaded c
  unfolding load
  load-Loaded name c h = elim (Result-cases (read_files host name)) [
    | inr (x, a) ↦ absurd (ground (arith, h, a))
    | inl ((tpls, raw), a) ↦ elim (Result-cases (resolve_simulation tpls name raw.simulation)) [
      | inr (x, b) ↦ absurd (ground (arith, h, a, b))
      | inl (sim, b) ↦ elim (Result-cases (validate_simulation sim)) [
        | inr (x, d) ↦ absurd (ground (arith, h, a, b, d))
        | inl (u, d) ↦
            let built : config_of host sim ≡ ok c = ground (arith, h, a, b, d) in
            let (same, interval, simulated) = config_of_lem sim c built in
            let (exclusive, scale, ms) =
              resolve_simulation-ExclusiveRooms tpls name raw.simulation sim b in
            record {
              exclusive = rw same exclusive;
              prefixes = rw same ((validate_simulation-DistinctPrefixes sim).0 d);
              scale = rw same scale;
              interval_ms = rw same ms;
              interval = rw same interval;
              simulated = rw same simulated;
            }
      ]
    ]
  ]

  -- Let `Load` return a configuration with a minimum interval below 9 * 10^12 milliseconds. Then the
  -- rooms of a group have different name prefixes, the devices of a room have different name
  -- prefixes, no room has both a desired state and a schedule, the time scale is not above 400,
  -- devices publish at an interval that is positive and at least the minimum, in nanoseconds, and the
  -- simulated seconds of a tick are the time scale times the seconds of that interval.
  pub load-DistinctPrefixes :
      (name : String) (c : SimulatorConfig R)
      → load host name ≡ ok c
      → c.simulation.min_publish_interval_ms <ℤ pos 9000000000000
      → DistinctPrefixes c.simulation.user_groups
        × ExclusiveRooms c.simulation.user_groups
        × (float 400 ≺ c.simulation.time_scale ≡ false)
        × (pos 0 <ℤ c.effective_publish_interval)
        × (c.simulation.min_publish_interval_ms *ℤ pos 1000000 ≤ℤ c.effective_publish_interval)
        × (c.simulated_tick_seconds
            ≡ c.simulation.time_scale ⊗ host.seconds c.effective_publish_interval)
  load-DistinctPrefixes name c h bound =
      let l = load-Loaded name c h in
      let (nonneg, exact) = min_publish_interval_lem c.simulation l.interval_ms bound in
      let above = effective_interval_lem c.base_tick_seconds c.simulation in
      (
        l.prefixes,
        l.exclusive,
        l.scale,
        ground (arith, nonneg, above, l.interval),
        ground (arith, exact, above, l.interval),
        l.simulated,
      )
