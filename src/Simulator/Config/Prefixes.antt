-- ===== src/Simulator/Config/Prefixes.antt =====
-- `validateSimulation` against a description of the prefixes without the maps of seen prefixes.
use climate_control.Prelude.{
  ℕ, ◌+◌, ◌≡◌, refl, ◌↔◌, inl, inr, String, Bool, true, false, List, [], ◌∷◌, ◌==◌, string_eq,
  eq_iff, map, All, Bool-cases, if◌then◌else◌, arith,
}
use climate_control.Prelude.Dict.{Dict, insert, lookup, lookup-insert}
use climate_control.Prelude.Result.{ok, Result-cases}
use climate_control.Simulator.Config.{SimulatedDevice, SimulatedRoom, UserGroup, Simulation}
use climate_control.Simulator.Config.Validate.{
  is_set, validate_devices, validate_rooms, validate_groups, validate_simulation,
}

-- No string occurs twice.
abbrev pub Distinct : List String → Type 0
Distinct [] = Unit
Distinct (x ∷ xs) = All (λ y. ¬ (x ≡ y)) xs × Distinct xs

abbrev Free : Dict String Bool → List String → Type 0
Free seen xs = All (λ x. is_set x seen ≡ false) xs

is_set-insert :
    (k x : String) (seen : Dict String Bool)
    → is_set x (insert k true seen) ≡ (if k == x then true else is_set x seen)
unfolding is_set
is_set-insert k x seen = rw (is_set, lookup-insert k x true seen) (ground arith)

insert-Free :
    (k : String) (seen : Dict String Bool) (xs : List String)
    → Free (insert k true seen) xs ↔ (All (λ y. ¬ (k ≡ y)) xs × Free seen xs)
insert-Free k seen [] = ((λ h. (tt, tt)), λ h. tt)
insert-Free k seen (x ∷ xs) =
    let ih = insert-Free k seen xs in
    let e = is_set-insert k x seen in
    (
      (λ (p, ps). (
        ((λ q. ground (arith, e, p, eq_iff k x, q)), (ih.0 ps).0),
        (ground (arith, e, p), (ih.0 ps).1),
      )),
      λ ((n, ns), (p, ps)). (ground (arith, e, p, n, eq_iff k x), ih.1 (ns, ps)),
    )

nil-Free : (xs : List String) → Free [] xs
unfolding is_set lookup
nil-Free [] = tt
nil-Free (x ∷ xs) = (refl, nil-Free xs)

module _ {R : Type 0} where
  abbrev pub device_prefixes : List (SimulatedDevice R) → List String
  device_prefixes devs = map (λ d. d.name_prefix) devs

  abbrev pub room_prefixes : List (SimulatedRoom R) → List String
  room_prefixes rms = map (λ rm. rm.name_prefix) rms

  -- In each group no two rooms share a prefix, and in each room no two devices do.
  abbrev pub DistinctRooms : List (SimulatedRoom R) → Type 0
  DistinctRooms rms =
      Distinct (room_prefixes rms) × All (λ rm. Distinct (device_prefixes rm.devices)) rms

  abbrev pub DistinctPrefixes : List (UserGroup R) → Type 0
  DistinctPrefixes groups = All (λ g. DistinctRooms g.rooms) groups

  validate_devices-Distinct :
      (i : ℕ) (room : String) (seen : Dict String Bool) (devs : List (SimulatedDevice R))
      → (validate_devices i room seen devs ≡ ok tt)
        ↔ (Free seen (device_prefixes devs) × Distinct (device_prefixes devs))
  unfolding validate_devices
  validate_devices-Distinct i room seen [] = ((λ h. (tt, tt)), λ h. refl)
  validate_devices-Distinct i room seen (dev ∷ devs) =
      let ih = validate_devices-Distinct i room (insert dev.name_prefix true seen) devs in
      let free = insert-Free dev.name_prefix seen (device_prefixes devs) in
      elim (Bool-cases (is_set dev.name_prefix seen)) [
        | inl e ↦
            ((λ h. absurd (ground (arith, h, e))), λ ((n, _), _). absurd (ground (arith, n, e)))
        | inr e ↦ (
          (λ h.
              let (fr, d) = ih.0 (ground (arith, h, e)) in
              ((e, (free.0 fr).1), ((free.0 fr).0, d))),
          λ ((_, fr), (n, d)). rw e (ih.1 (free.1 (n, fr), d)),
        )
      ]

  validate_rooms-Distinct :
      (i : ℕ) (seen : Dict String Bool) (rms : List (SimulatedRoom R))
      → (validate_rooms i seen rms ≡ ok tt) ↔ (Free seen (room_prefixes rms) × DistinctRooms rms)
  unfolding validate_rooms
  validate_rooms-Distinct i seen [] = ((λ h. (tt, (tt, tt))), λ h. refl)
  validate_rooms-Distinct i seen (rm ∷ rms) =
      let ih = validate_rooms-Distinct i (insert rm.name_prefix true seen) rms in
      let free = insert-Free rm.name_prefix seen (room_prefixes rms) in
      let devices = validate_devices-Distinct i rm.name_prefix [] rm.devices in
      elim (Bool-cases (is_set rm.name_prefix seen)) [
        | inl e ↦
            ((λ h. absurd (ground (arith, h, e))), λ ((n, _), _). absurd (ground (arith, n, e)))
        | inr e ↦ elim (Result-cases (validate_devices i rm.name_prefix [] rm.devices)) [
          | inr (x, k) ↦ (
            (λ h. absurd (ground (arith, h, e, k))),
            λ (_, (_, (d, _))).
                absurd (ground (arith, k, devices.1 (nil-Free (device_prefixes rm.devices), d))),
          )
          | inl (u, k) ↦ (
            (λ h.
                let (fr, (d, ds)) = ih.0 (ground (arith, h, e, k)) in
                ((e, (free.0 fr).1), (((free.0 fr).0, d), ((devices.0 k).1, ds)))),
            λ ((_, fr), ((n, d), (_, ds))). rw (e, k) (ih.1 (free.1 (n, fr), (d, ds))),
          )
        ]
      ]

  validate_groups-Distinct :
      (i : ℕ) (groups : List (UserGroup R))
      → (validate_groups i groups ≡ ok tt) ↔ DistinctPrefixes groups
  unfolding validate_groups
  validate_groups-Distinct i [] = ((λ h. tt), λ h. refl)
  validate_groups-Distinct i (g ∷ gs) =
      let ih = validate_groups-Distinct (i + 1) gs in
      let rooms = validate_rooms-Distinct i [] g.rooms in
      elim (Result-cases (validate_rooms i [] g.rooms)) [
        | inr (x, k) ↦ (
          (λ h. absurd (ground (arith, h, k))),
          λ (d, _). absurd (ground (arith, k, rooms.1 (nil-Free (room_prefixes g.rooms), d))),
        )
        | inl (u, k) ↦
            ((λ h. ((rooms.0 k).1, ih.0 (ground (arith, h, k)))), λ (_, ds). rw k (ih.1 ds))
      ]

  -- `validateSimulation` finds no error exactly when in each group no two rooms have the same name
  -- prefix and no room has two devices with the same name prefix.
  pub validate_simulation-DistinctPrefixes :
      (sim : Simulation R) → (validate_simulation sim ≡ ok tt) ↔ DistinctPrefixes sim.user_groups
  unfolding validate_simulation
  validate_simulation-DistinctPrefixes sim = validate_groups-Distinct 0 sim.user_groups
