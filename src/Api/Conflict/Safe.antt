-- ===== src/Api/Conflict/Safe.antt =====
-- What the tests say of a room that a device may leave.
use climate_control.Prelude.{
  ◌≡◌, subst, inl, inr, Bool, true, false, not, ◌&&◌, Option, List, [], ◌∷◌, any, All, is_some,
  Bool-cases, arith,
}
use climate_control.Prelude.Result.{ok}
use climate_control.Cache.{Uuid}
use climate_control.Schedule.{SchedulePeriod}
use climate_control.Api.Rooms.{DesiredState}
use climate_control.Api.Conflict.{
  ConflictQueries, has_temperature_capability_after_removal, has_humidity_capability_after_removal,
  unreachable, desired_state_has_conflict, active_schedule_periods_have_conflict,
  has_capability_conflict_after_removal,
}

any-All {ℓ} :
    {A : Type ℓ} (p : A → Bool) (xs : List A) → any p xs ≡ false → All (λ x. p x ≡ false) xs
any-All p [] h = tt
any-All p (x ∷ xs) h = (ground (arith, h), any-All p xs (ground (arith, h)))

module _ {R D E : Type 0} (q : ConflictQueries R D E) where
  -- Each target that is set is one that the room can reach.
  abbrev pub Reachable : Bool → Bool → Option R → Option R → Type 0
  Reachable has_temp has_hum target_temp target_hum =
      (is_some target_temp && not has_temp ≡ false) × (is_some target_hum && not has_hum ≡ false)

  unreachable_lem :
      (t h : Bool) (target_temp target_hum : Option R)
      → unreachable q t h target_temp target_hum ≡ false
      → Reachable t h target_temp target_hum
  unfolding unreachable
  unreachable_lem t h target_temp target_hum e = (ground (arith, e), ground (arith, e))

  Reachable-true : (target_temp target_hum : Option R) → Reachable true true target_temp target_hum
  Reachable-true target_temp target_hum = (ground arith, ground arith)

  All-Reachable :
      (t h : Bool) (ps : List (SchedulePeriod R))
      → All (λ p. unreachable q t h p.target_temp p.target_hum ≡ false) ps
      → All (λ p. Reachable t h p.target_temp p.target_hum) ps
  All-Reachable t h [] hs = tt
  All-Reachable t h (p ∷ ps) (x, xs) =
      (unreachable_lem t h p.target_temp p.target_hum x, All-Reachable t h ps xs)

  All-Reachable_true :
      (ps : List (SchedulePeriod R)) → All (λ p. Reachable true true p.target_temp p.target_hum) ps
  All-Reachable_true [] = tt
  All-Reachable_true (p ∷ ps) = (Reachable-true p.target_temp p.target_hum, All-Reachable_true ps)

  module _ (room_id device_id : Uuid) (d : D) (ds : DesiredState R)
      (ps : List (SchedulePeriod R)) where
    -- A room that lacks a capability without the device.
    conflict-unreachable :
        (t h : Bool)
        → t && h ≡ false
        → has_temperature_capability_after_removal q room_id device_id d ≡ ok t
        → has_humidity_capability_after_removal q room_id device_id d ≡ ok h
        → q.desired_state_of_room room_id d ≡ ok ds
        → q.active_periods room_id d ≡ ok ps
        → has_capability_conflict_after_removal q room_id device_id d ≡ ok false
        → (unreachable q t h ds.target_temp ds.target_hum ≡ false)
          × (any (λ p. unreachable q t h p.target_temp p.target_hum) ps ≡ false)
    unfolding has_capability_conflict_after_removal desired_state_has_conflict
        active_schedule_periods_have_conflict
    conflict-unreachable t h lacks a b c e f =
        elim (Bool-cases (unreachable q t h ds.target_temp ds.target_hum)) [
          | inl k ↦ absurd (ground (arith, lacks, a, b, c, e, f, k))
          | inr k ↦ (k, ground (arith, lacks, a, b, c, e, f, k))
        ]

    -- Let the room's desired state and the periods of its active schedules be these rows, and let t
    -- and h say whether the room has the capability for temperature and for humidity without the
    -- device. If the test finds that the device can leave, then every target that the desired state
    -- or one of the periods sets is one that the room can reach without it.
    pub has_capability_conflict_after_removal-Reachable :
        (t h : Bool)
        → has_temperature_capability_after_removal q room_id device_id d ≡ ok t
        → has_humidity_capability_after_removal q room_id device_id d ≡ ok h
        → q.desired_state_of_room room_id d ≡ ok ds
        → q.active_periods room_id d ≡ ok ps
        → has_capability_conflict_after_removal q room_id device_id d ≡ ok false
        → Reachable t h ds.target_temp ds.target_hum
          × All (λ p. Reachable t h p.target_temp p.target_hum) ps
    has_capability_conflict_after_removal-Reachable t h a b c e f = elim (Bool-cases (t && h)) [
      | inl k ↦
          let yes_t : true ≡ t = ground (arith, k) in
          let yes_h : true ≡ h = ground (arith, k) in
          subst
            (λ x.
              Reachable x h ds.target_temp ds.target_hum
              × All (λ p. Reachable x h p.target_temp p.target_hum) ps)
            yes_t
            (subst
              (λ x.
                Reachable true x ds.target_temp ds.target_hum
                × All (λ p. Reachable true x p.target_temp p.target_hum) ps)
              yes_h (Reachable-true ds.target_temp ds.target_hum, All-Reachable_true ps))
      | inr k ↦
          let (state, periods) = conflict-unreachable t h k a b c e f in
          (
            unreachable_lem t h ds.target_temp ds.target_hum state,
            All-Reachable t h ps (any-All _ ps periods),
          )
    ]
