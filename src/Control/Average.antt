-- ===== src/Control/Average.antt =====
-- The average of the fresh readings against its description: filter, then add up and divide.
use climate_control.Prelude.{
  ℕ, ◌+◌, ◌≡◌, refl, Bool, true, false, List, [], ◌∷◌, length, keep, ◌==◌, nat_eq, if◌then◌else◌,
  arith,
}
use climate_control.Float.{Float64, ◌⊕◌, ◌⊘◌, float}
use climate_control.Time.{Instant, Duration}
use climate_control.Cache.{TimestampedReading}
use climate_control.Control.Evaluate.{is_fresh, sum_fresh, fresh_average}

module _ {R : Type 0} ⦃f : Float64 R⦄ where
  -- ((acc + v1) + v2) + ...
  abbrev pub sum_values : R → List (TimestampedReading R) → R
  sum_values acc [] = acc
  sum_values acc (r ∷ rs) = sum_values (acc ⊕ r.value) rs

  abbrev pub mean_of : List (TimestampedReading R) → R × ℕ × Bool
  mean_of [] = (float 0, 0, false)
  mean_of (r ∷ rs) =
      (sum_values (float 0) (r ∷ rs) ⊘ float (length (r ∷ rs)), length (r ∷ rs), true)

  module _ (now : Instant) (threshold : Duration) where
    sum_fresh_lem :
        (acc : R) (n : ℕ) (rs : List (TimestampedReading R))
        → (sum_fresh now threshold acc n rs).0 ≡ sum_values acc (keep (is_fresh now threshold) rs)
    unfolding sum_fresh
    sum_fresh_lem acc n [] = refl
    sum_fresh_lem acc n (r ∷ rs) =
        ground (arith, sum_fresh_lem (acc ⊕ r.value) (n + 1) rs, sum_fresh_lem acc n rs)

    count_fresh_lem :
        (acc : R) (n : ℕ) (rs : List (TimestampedReading R))
        → (sum_fresh now threshold acc n rs).1 ≡ n + length (keep (is_fresh now threshold) rs)
    unfolding sum_fresh
    count_fresh_lem acc n [] = omega arith
    count_fresh_lem acc n (r ∷ rs) =
        ground (arith, count_fresh_lem (acc ⊕ r.value) (n + 1) rs, count_fresh_lem acc n rs)

  divide_lem :
      (rs : List (TimestampedReading R))
      → (if length rs == 0
          then (float 0, 0, false)
          else (sum_values (float 0) rs ⊘ float (length rs), length rs, true))
        ≡ mean_of rs
  divide_lem [] = refl
  divide_lem (r ∷ rs) = ground arith

  -- For every list of readings, `freshAverage` returns the mean of the fresh readings, added up in
  -- their order, with their number and `true`; with no fresh reading it returns 0, 0 and `false`.
  pub fresh_average-mean_of :
      (readings : List (TimestampedReading R)) (now : Instant) (threshold : Duration)
      → fresh_average readings now threshold ≡ mean_of (keep (is_fresh now threshold) readings)
  unfolding fresh_average
  fresh_average-mean_of readings now threshold =
      let fresh = keep (is_fresh now threshold) readings in
      let n : length fresh ≡ 0 + length fresh = omega arith in
      rw
        (
          sum_fresh_lem now threshold (float 0) 0 readings,
          count_fresh_lem now threshold (float 0) 0 readings,
          ← n,
        )
        (divide_lem fresh)
