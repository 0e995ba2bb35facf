-- ===== src/Simulator/Bounds.antt =====
-- `advanceRoom`: the readings that it leaves.
use climate_control.Prelude.{
  ◌≡◌, refl, ◌∙◌, subst, sym, String, true, false, inl, inr, some, [], ◌∷◌, ◌==◌, string_eq, eq_iff,
  Bool-cases, arith,
}
use climate_control.Prelude.Dict.{
  Dict, lookup, insert, contains, lookup-insert, lookup-contains-false,
}
use climate_control.Float.{Float64, ◌⊕◌, ◌≺◌, lt_asym}
use climate_control.Simulator.{
  EnvironmentModel, RoomState, measurement_bounds, value_at, delta_of, deltas_of, advance, clamp,
  apply_deltas, advance_room,
}

module _ {R : Type 0} ⦃f : Float64 R⦄ where
  -- A value below no lower and above no upper bound.
  abbrev pub Within : R → R → R → Type 0
  Within lo hi v = (v ≺ lo ≡ false) × (hi ≺ v ≡ false)

  module _ (typ : String) (lo hi : R)
      (bounds : lookup typ (measurement_bounds {R = R}) ≡ some (lo, hi))
      (order : lo ≺ hi ≡ true) where
    -- The entry of the type is within its bounds.
    abbrev EntryWithin : Dict String R → Type 0
    EntryWithin m = (v : R) → lookup typ m ≡ some v → Within lo hi v

    clamp-Within : (v : R) → Within lo hi (clamp typ v)
    unfolding clamp
    clamp-Within v = ground (arith, bounds, order, f.lt_irrefl lo, f.lt_irrefl hi, lt_asym lo hi)

    inserted-EntryWithin :
        (k : String) (x : R) (m : Dict String R)
        → (k == typ) ≡ true
        → EntryWithin (insert k (clamp k x) m)
    inserted-EntryWithin k x m t v e =
        let q : clamp k x ≡ v = ground (arith, e, t, lookup-insert k typ (clamp k x) m) in
        subst (Within lo hi) q
          (subst (λ j. Within lo hi (clamp j x)) (sym ((eq_iff k typ).0 t)) (clamp-Within x))

    insert-EntryWithin :
        (k : String) (x : R) (m : Dict String R)
        → EntryWithin m
        → EntryWithin (insert k (clamp k x) m)
    insert-EntryWithin k x m h v e = elim (Bool-cases (k == typ)) [
      | inl t ↦ inserted-EntryWithin k x m t v e
      | inr t ↦ h v (ground (arith, e, t, lookup-insert k typ (clamp k x) m))
    ]

    apply_deltas-EntryWithin :
        (deltas m : Dict String R) → EntryWithin m → EntryWithin (apply_deltas deltas m)
    unfolding apply_deltas
    apply_deltas-EntryWithin [] m h = h
    apply_deltas-EntryWithin ((k, d) ∷ deltas) m h =
        apply_deltas-EntryWithin deltas _ (insert-EntryWithin k (value_at k m ⊕ d) m h)

    apply_deltas-contains :
        (deltas m : Dict String R)
        → contains typ deltas ≡ true
        → EntryWithin (apply_deltas deltas m)
    unfolding apply_deltas contains
    apply_deltas-contains [] m h = ground (arith, h)
    apply_deltas-contains ((k, d) ∷ deltas) m h = elim (Bool-cases (k == typ)) [
      | inl t ↦ apply_deltas-EntryWithin deltas _ (inserted-EntryWithin k (value_at k m ⊕ d) m t)
      | inr t ↦ apply_deltas-contains deltas _ (ground (arith, h, t))
    ]

  contains-deltas_of :
      (delta : String → R → R) (typ : String) (m : Dict String R)
      → contains typ (deltas_of delta m) ≡ contains typ m
  unfolding deltas_of contains
  contains-deltas_of delta typ [] = refl
  contains-deltas_of delta typ ((k, v) ∷ m) = rw (contains-deltas_of delta typ m) refl

  -- Let a type have bounds whose lower one is below the upper one. Then after `advanceRoom` the
  -- room's value of the type, if it has one, is neither below the lower nor above the upper bound,
  -- whatever the values, the parameters of the model, the heat input and the noise were before the
  -- tick.
  pub advance_room-Within :
      (typ : String) (lo hi : R)
      → lookup typ (measurement_bounds {R = R}) ≡ some (lo, hi)
      → lo ≺ hi ≡ true
      → (model : EnvironmentModel R) (seconds : R) (draw : String → R) (rs : RoomState R) (v : R)
      → lookup typ (advance_room model seconds draw rs).current ≡ some v
      → Within lo hi v
  unfolding advance_room advance
  advance_room-Within typ lo hi bounds order model seconds draw rs v e =
      let delta = delta_of model rs rs.heat_input seconds draw in
      elim (Bool-cases (contains typ rs.current)) [
        | inl c ↦
            apply_deltas-contains typ lo hi bounds order (deltas_of delta rs.current) rs.current
              (contains-deltas_of delta typ rs.current ∙ c) v e
        | inr c ↦
            apply_deltas-EntryWithin typ lo hi bounds order (deltas_of delta rs.current) rs.current
              (λ w k. ground (arith, k, lookup-contains-false typ rs.current c)) v e
      ]
