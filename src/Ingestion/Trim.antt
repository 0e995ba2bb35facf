-- ===== src/Ingestion/Trim.antt =====
-- Trimming against the control loop: what ingestion drops, no later tick would have counted.
use climate_control.Prelude.{
  ◌≡◌, refl, true, false, List, [], ◌∷◌, keep, Bool-cases, inl, inr, arith,
}
use climate_control.Prelude.Int.{◌≤ℤ◌, ◌<ℤ◌, -ℤ_parts}
use climate_control.Time.{
  Instant, Duration, max_duration, min_duration, add_neg, before, time_sub-le_iff_true,
}
use climate_control.Cache.{TimestampedReading}
use climate_control.Control.Evaluate.{is_fresh}
use climate_control.Ingestion.{drop_before, trim_stale}

-- A threshold that `Duration` holds with room to spare.
abbrev pub IsThreshold : Duration → Type 0
IsThreshold d = (d <ℤ max_duration) × (min_duration ≤ℤ d)

module _ {R : Type 0} where
  -- A reading before the cutoff of one instant is fresh at no later instant.
  stale_later :
      (r : TimestampedReading R) (sent now : Instant) (threshold : Duration)
      → IsThreshold threshold
      → sent ≤ℤ now
      → before r.timestamp (add_neg sent threshold) ≡ true
      → is_fresh now threshold r ≡ false
  unfolding is_fresh add_neg
  stale_later r sent now threshold ok later b =
      rw (time_sub-le_iff_true now r.timestamp threshold ok.0 ok.1)
        (ground (arith, -ℤ_parts now r.timestamp, -ℤ_parts sent threshold))

  -- For a threshold within a Duration, trimming at one instant changes the fresh readings of no later
  -- instant, in whatever order the readings stand.
  pub keep-trim_stale :
      (rs : List (TimestampedReading R)) (sent now : Instant) (threshold : Duration)
      → IsThreshold threshold
      → sent ≤ℤ now
      → keep (is_fresh now threshold) (trim_stale rs sent threshold)
        ≡ keep (is_fresh now threshold) rs
  unfolding trim_stale drop_before
  keep-trim_stale [] sent now threshold ok later = refl
  keep-trim_stale (r ∷ rs) sent now threshold ok later =
      elim (Bool-cases (before r.timestamp (add_neg sent threshold))) [
        | inl old ↦
            rw (old, stale_later r sent now threshold ok later old)
              (keep-trim_stale rs sent now threshold ok later)
        | inr young ↦ rw young
      ]
