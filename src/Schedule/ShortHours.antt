-- ===== src/Schedule/ShortHours.antt =====
-- Times whose hour has one digit, which the request's `datetime=15:04` test lets through.
use climate_control.Prelude.{ℕ, ◌+◌, ◌*◌, ◌<◌, ◌≤◌, ◌≡◌, true, Option, refl, arith}
use climate_control.Prelude.Int.{pos}
use climate_control.Prelude.Result.{ok, err}
use climate_control.Cache.{Uuid}
use climate_control.Appdb.ParseTime.{
  codes, print_time, short_time, parse_time_to_minutes, parse-print_time, parse-short_time,
}
use climate_control.Schedule.{
  Repository, PeriodInput, invalid_time_range, codes_le, string_le, build_period,
}

-- A two-digit hour sorts before a one-digit hour that is greater than its first digit.
codes_le-short_time :
    (h m h' m' : ℕ)
    → h < 10
    → 10 ≤ h'
    → h' < 10 * h
    → codes_le (print_time h' m') (short_time h m) ≡ true
unfolding codes_le
codes_le-short_time h m h' m' a b c = ground (arith, a, b, c)

module _ {R D E : Type 0} (repo : Repository R D E) where
  -- A period from "H:MM" to "HH:MM", with the end's first digit below H, is refused with
  -- ErrInvalidTimeRange, although the device service would parse both times and the start's minutes
  -- are less than the end's: 9:00 to 10:00 is one.
  pub build_period-short_time :
      (schedule_id : Uuid) (input : PeriodInput R) (exclude_id : Option Uuid) (d : D)
      (h m h' m' : ℕ)
      → codes input.start_time ≡ short_time h m
      → codes input.end_time ≡ print_time h' m'
      → h < 10
      → m < 60
      → 10 ≤ h'
      → h' < 10 * h
      → m' < 60
      → (build_period repo schedule_id input exclude_id d ≡ err invalid_time_range)
        × (parse_time_to_minutes input.start_time ≡ ok (pos (h * 60 + m)))
        × (parse_time_to_minutes input.end_time ≡ ok (pos (h' * 60 + m')))
        × (h * 60 + m < h' * 60 + m')
  unfolding build_period string_le parse_time_to_minutes
  build_period-short_time schedule_id input exclude_id d h m h' m' e e' a b c k b' = (
    rw (string_le, e, e', codes_le-short_time h m h' m' a c k) refl,
    rw (parse_time_to_minutes, e) (parse-short_time h m a (omega (arith, b))),
    rw (parse_time_to_minutes, e')
        (parse-print_time h' m' (omega (arith, a, k)) (omega (arith, b'))),
    omega (arith, a, b, c),
  )
