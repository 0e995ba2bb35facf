-- ===== src/Control/Priority.antt =====
-- The priority chain of `resolveEffectiveState` as a relation: manual override, then the first active
-- period that covers the minute, then the grace minute of the last active period, then off.
use climate_control.Prelude.{
  ℕ, ◌≡◌, refl, true, false, Option, none, some, List, [], ◌∷◌, ◌++◌, ◌↔◌, inl, inr, Bool-cases,
  Option-cases, refuted, All, ap, subst, sym, arith,
}
use climate_control.Prelude.Int.{pos, ◌≤ℤ◌, ◌<ℤ◌, -ℤ_parts}
use mathlib.Core.Option.{some-injective}
use climate_control.Time.{Instant}
use climate_control.Cache.{SchedulePeriodCache, RoomCache, bit_at}
use climate_control.Control.{
  EffectiveState, location_or_utc, off_state, from_period, manual_state, day_of_week,
  minutes_of_day, manual_state, not_expired, manual_override, covers, find_period, in_grace,
  grace_period, resolve_effective_state,
}

not_expired_iff :
    (o : Option Instant) (now : Instant)
    → (not_expired o now ≡ true) ↔ ((u : Instant) × (o ≡ some u) × (now <ℤ u))
not_expired_iff none now = ((λ h. cc), (λ h. cc h.1))
not_expired_iff (some u) now = ((λ h. (u, refl, ground arith)), (λ (v, e, h). ground arith))

module _ {R : Type 0} where
  -- The override is switched on and ends after the instant.
  abbrev pub IsManual : RoomCache R → Instant → Type 0
  IsManual rc now =
      (rc.desired_state.manual_active ≡ true)
      × ((u : Instant) × (rc.desired_state.manual_override_until ≡ some u) × (now <ℤ u))

  -- The period has the day and start ≤ minute < end.
  abbrev pub Covers : ℕ → ℕ → SchedulePeriodCache R → Type 0
  Covers day now_minutes p =
      (bit_at p.days_of_week day ≡ true)
      × (p.start_minutes ≤ℤ pos now_minutes)
      × (pos now_minutes <ℤ p.end_minutes)

  -- The period has the day and ends at this minute.
  abbrev pub InGrace : ℕ → ℕ → SchedulePeriodCache R → Type 0
  InGrace day now_minutes p = (bit_at p.days_of_week day ≡ true) × (p.end_minutes ≡ pos now_minutes)

  covers_iff : (day m : ℕ) (p : SchedulePeriodCache R) → (covers day m p ≡ true) ↔ Covers day m p
  unfolding covers
  covers_iff day m p = ground arith

  in_grace_iff :
      (day m : ℕ) (p : SchedulePeriodCache R) → (in_grace day m p ≡ true) ↔ InGrace day m p
  unfolding in_grace
  in_grace_iff day m p = ground (arith, -ℤ_parts (pos m) p.end_minutes)

  manual_override_iff :
      (rc : RoomCache R) (now : Instant) → (manual_override rc now ≡ true) ↔ IsManual rc now
  unfolding manual_override
  manual_override_iff rc now =
      let iff = not_expired_iff rc.desired_state.manual_override_until now in
      ((λ h. (ground arith, iff.0 (ground arith))), (λ h. rw (h.0, iff.1 h.1) refl))

  -- What the chain may choose, each link under the failure of those before it.
  pub data Chooses (rc : RoomCache R) (now : Instant) (day m : ℕ) (es : EffectiveState R)
      : Type 0 where
    manual : IsManual rc now → es ≡ manual_state rc → Chooses rc now day m es
    schedule :
        (earlier later : List (SchedulePeriodCache R)) (p : SchedulePeriodCache R)
        → ¬ IsManual rc now
        → rc.active_periods ≡ earlier ++ p ∷ later
        → All (λ q. ¬ Covers day m q) earlier
        → Covers day m p
        → es ≡ from_period "schedule" p
        → Chooses rc now day m es
    grace :
        (p : SchedulePeriodCache R)
        → ¬ IsManual rc now
        → All (λ q. ¬ Covers day m q) rc.active_periods
        → rc.last_active_period ≡ some p
        → InGrace day m p
        → es ≡ from_period "grace_period" p
        → Chooses rc now day m es
    off :
        ¬ IsManual rc now
        → All (λ q. ¬ Covers day m q) rc.active_periods
        → ((p : SchedulePeriodCache R) → rc.last_active_period ≡ some p → ¬ InGrace day m p)
        → es ≡ off_state
        → Chooses rc now day m es

  find_period-none :
      (day m : ℕ) (ps : List (SchedulePeriodCache R))
      → find_period day m ps ≡ none
      → All (λ q. ¬ Covers day m q) ps
  unfolding find_period
  find_period-none day m [] h = tt
  find_period-none day m (p ∷ ps) h = elim (Bool-cases (covers day m p)) [
    | inl e ↦ cc (rw e at h)
    | inr e ↦ ((λ c. cc (e, (covers_iff day m p).1 c)), find_period-none day m ps (rw e at h))
  ]

  find_period-some :
      (day m : ℕ) (ps : List (SchedulePeriodCache R)) (p : SchedulePeriodCache R)
      → find_period day m ps ≡ some p
      → (earlier later : List (SchedulePeriodCache R)) × (ps ≡ earlier ++ p ∷ later)
        × All (λ q. ¬ Covers day m q) earlier
        × Covers day m p
  unfolding find_period
  find_period-some day m [] p h = cc
  find_period-some day m (q ∷ ps) p h = elim (Bool-cases (covers day m q)) [
    | inl e ↦ (
      [],
      ps,
      cc (rw e at h),
      tt,
      subst (Covers day m) (some-injective q p (rw e at h)) ((covers_iff day m q).0 e),
    )
    | inr e ↦
        let (earlier, later, split, none_before, found) = find_period-some day m ps p (rw e at h) in
        (
          q ∷ earlier,
          later,
          ap (λ (l : List (SchedulePeriodCache R)). q ∷ l) split,
          ((λ c. cc (e, (covers_iff day m q).1 c)), none_before),
          found,
        )
  ]

  find_period-split :
      (day m : ℕ) (earlier later : List (SchedulePeriodCache R)) (p : SchedulePeriodCache R)
      → All (λ q. ¬ Covers day m q) earlier
      → Covers day m p
      → find_period day m (earlier ++ p ∷ later) ≡ some p
  unfolding find_period
  find_period-split day m [] later p h c = rw ((covers_iff day m p).1 c)
  find_period-split day m (q ∷ qs) later p h c =
      rw (refuted (covers_iff day m q) h.0) (find_period-split day m qs later p h.1 c)

  find_period-refuted :
      (day m : ℕ) (ps : List (SchedulePeriodCache R))
      → All (λ q. ¬ Covers day m q) ps
      → find_period day m ps ≡ none
  unfolding find_period
  find_period-refuted day m [] h = refl
  find_period-refuted day m (q ∷ qs) h =
      rw (refuted (covers_iff day m q) h.0) (find_period-refuted day m qs h.1)

  pub grace_period-some :
      (day m : ℕ) (o : Option (SchedulePeriodCache R)) (p : SchedulePeriodCache R)
      → grace_period day m o ≡ some p
      → (o ≡ some p) × InGrace day m p
  unfolding grace_period
  grace_period-some day m none p h = cc
  grace_period-some day m (some q) p h = elim (Bool-cases (in_grace day m q)) [
    | inl e ↦ (
      rw e at h,
      subst (InGrace day m) (some-injective q p (rw e at h)) ((in_grace_iff day m q).0 e),
    )
    | inr e ↦ cc (rw e at h)
  ]

  grace_period-none :
      (day m : ℕ) (o : Option (SchedulePeriodCache R)) (p : SchedulePeriodCache R)
      → grace_period day m o ≡ none
      → o ≡ some p
      → ¬ InGrace day m p
  unfolding grace_period
  grace_period-none day m none p h e g = cc
  grace_period-none day m (some q) p h e g =
      let t = (in_grace_iff day m p).1 g in
      let same : in_grace day m q ≡ true = cc (t, ap (in_grace day m) (some-injective q p e)) in
      cc (rw same at h)

  grace_period-refuted :
      (day m : ℕ) (o : Option (SchedulePeriodCache R))
      → ((p : SchedulePeriodCache R) → o ≡ some p → ¬ InGrace day m p)
      → grace_period day m o ≡ none
  unfolding grace_period
  grace_period-refuted day m none h = refl
  grace_period-refuted day m (some q) h = rw (refuted (in_grace_iff day m q) (h q refl))

  grace_period-holds :
      (day m : ℕ) (p : SchedulePeriodCache R)
      → InGrace day m p
      → grace_period day m (some p) ≡ some p
  unfolding grace_period
  grace_period-holds day m p g = rw ((in_grace_iff day m p).1 g)

  module _ (rc : RoomCache R) (now : Instant) where
    abbrev pub today : ℕ
    today = day_of_week (location_or_utc rc.location) now

    abbrev pub this_minute : ℕ
    this_minute = minutes_of_day (location_or_utc rc.location) now

    not-IsManual : manual_override rc now ≡ false → ¬ IsManual rc now
    not-IsManual e c = cc (e, (manual_override_iff rc now).1 c)

    without_period :
        manual_override rc now ≡ false
        → find_period today this_minute rc.active_periods ≡ none
        → Chooses rc now today this_minute (resolve_effective_state rc now)
    unfolding resolve_effective_state
    without_period e none_found =
        let skip = find_period-none today this_minute rc.active_periods none_found in
        elim (Option-cases (grace_period today this_minute rc.last_active_period)) [
          | inr (p, g) ↦
              let (last, holds) = grace_period-some today this_minute rc.last_active_period p g in
              grace p (not-IsManual e) skip last holds (rw (e, none_found, g))
          | inl g ↦
              off (not-IsManual e) skip (λ p last. grace_period-none _ _ _ p g last)
                (rw (e, none_found, g))
        ]

    resolve_sound : Chooses rc now today this_minute (resolve_effective_state rc now)
    unfolding resolve_effective_state
    resolve_sound = elim (Bool-cases (manual_override rc now)) [
      | inl e ↦ manual ((manual_override_iff rc now).0 e) (rw e)
      | inr e ↦ elim (Option-cases (find_period today this_minute rc.active_periods)) [
        | inl none_found ↦ without_period e none_found
        | inr (p, found) ↦
            let (earlier, later, split, skip, c) = find_period-some _ _ _ p found in
            schedule earlier later p (not-IsManual e) split skip c (rw (e, found))
      ]
    ]

    resolve_complete :
        (es : EffectiveState R)
        → Chooses rc now today this_minute es
        → resolve_effective_state rc now ≡ es
    unfolding resolve_effective_state
    resolve_complete es (manual h e) = rw ((manual_override_iff rc now).1 h) (sym e)
    resolve_complete es (schedule earlier later p n split skip c e) =
        rw
          (
            refuted (manual_override_iff rc now) n,
            split,
            find_period-split _ _ earlier later p skip c,
          )
          (sym e)
    resolve_complete es (grace p n skip last g e) =
        rw
          (
            refuted (manual_override_iff rc now) n,
            find_period-refuted _ _ _ skip,
            last,
            grace_period-holds _ _ p g,
          )
          (sym e)
    resolve_complete es (off n skip g e) =
        rw
          (
            refuted (manual_override_iff rc now) n,
            find_period-refuted _ _ _ skip,
            grace_period-refuted _ _ _ g,
          )
          (sym e)

  -- For every room and instant, `resolveEffectiveState` returns a state exactly when the priority
  -- chain chooses it at the local day and minute: the desired state while its override is on and ends
  -- later; else the first active period that has the day and covers the minute; else the last active
  -- period in the minute at which it ends, on one of its days; else off.
  pub resolve_effective_state-Chooses :
      (rc : RoomCache R) (now : Instant) (es : EffectiveState R)
      → (resolve_effective_state rc now ≡ es)
        ↔ Chooses rc now (today rc now) (this_minute rc now) es
  resolve_effective_state-Chooses rc now es = (
    (λ e. subst (Chooses rc now (today rc now) (this_minute rc now)) e (resolve_sound rc now)),
    resolve_complete rc now es,
  )
