-- ===== src/Schedule/Periods.antt =====
-- The periods that the service accepts, as the device service reads them.
use climate_control.Prelude.{
  ℕ, String, ◌+◌, ◌*◌, ◌<◌, ◌≡◌, true, false, Option, List, [], ◌∷◌, ltb, leb, ◌++◌, inl, inr,
  Bool-cases, if◌then◌else◌, arith,
}
use climate_control.Prelude.Int.{pos}
use climate_control.Prelude.Result.{ok, Result-cases}
use climate_control.Cache.{Uuid}
use climate_control.Appdb.ParseTime.{
  codes, print_time, two_digits, parse_time_to_minutes, parse-print_time,
}
use climate_control.Schedule.{
  Repository, PeriodInput, SchedulePeriod, codes_le, string_le, build_period,
}

codes_le-two_digits :
    (a b : ℕ) (xs ys : List ℕ)
    → a < 100
    → b < 100
    → codes_le (two_digits a ++ xs) (two_digits b ++ ys)
      ≡ (if ltb a b then true else if ltb b a then false else codes_le xs ys)
unfolding codes_le
codes_le-two_digits a b xs ys p q = ground arith

-- The order of two texts "HH:MM" is that of their minutes.
codes_le-print_time :
    (h m h' m' : ℕ)
    → h < 100
    → m < 60
    → h' < 100
    → m' < 60
    → codes_le (print_time h m) (print_time h' m') ≡ leb (h * 60 + m) (h' * 60 + m')
unfolding codes_le
codes_le-print_time h m h' m' p q p' q' =
    let minutes : codes_le (two_digits m) (two_digits m')
        ≡ (if ltb m m' then true else if ltb m' m then false else true) =
      codes_le-two_digits m m' [] [] (omega (arith, q)) (omega (arith, q')) in
    rw (codes_le-two_digits h h' (58 ∷ two_digits m) (58 ∷ two_digits m') p p', minutes)
      (ground arith)

string_le-codes :
    (s t : String) (h m h' m' : ℕ)
    → codes s ≡ print_time h m
    → codes t ≡ print_time h' m'
    → h < 100
    → m < 60
    → h' < 100
    → m' < 60
    → string_le s t ≡ leb (h * 60 + m) (h' * 60 + m')
unfolding string_le
string_le-codes s t h m h' m' e e' p q p' q' = rw (e, e') (codes_le-print_time h m h' m' p q p' q')

parse-codes :
    (s : String) (h m : ℕ)
    → codes s ≡ print_time h m
    → h < 100
    → m < 60
    → parse_time_to_minutes s ≡ ok (pos (h * 60 + m))
unfolding parse_time_to_minutes
parse-codes s h m e p q = rw e (parse-print_time h m p (omega (arith, q)))

module _ {R D E : Type 0} (repo : Repository R D E) where
  -- A period that is built has the times of its input, which passed the test of their order, and the
  -- schedule that was asked for.
  pub build_period-times :
      (schedule_id : Uuid) (input : PeriodInput R) (exclude_id : Option Uuid) (d : D)
      → (p : SchedulePeriod R) → build_period repo schedule_id input exclude_id d ≡ ok p
      → (p.start_time ≡ input.start_time)
        × (p.end_time ≡ input.end_time)
        × (string_le input.end_time input.start_time ≡ false)
        × (p.schedule_id ≡ schedule_id)
  unfolding build_period
  build_period-times schedule_id input exclude_id d p h =
      elim (Bool-cases (string_le input.end_time input.start_time)) [
        | inl e ↦ absurd (ground (arith, h, e))
        | inr e ↦
            elim (Result-cases (
              repo.has_overlap schedule_id input.days_of_week input.start_time input.end_time
                exclude_id d)) [
                  | inl (b, k) ↦ ground (arith, h, e, k)
                  | inr (x, k) ↦ absurd (ground (arith, h, e, k))
                ]
      ]

  -- Let the start and the end of an input be texts "HH:MM" with minutes below 60. If the service
  -- builds a period from it, then the device service parses both times of that period, each to its
  -- hour times 60 plus its minute, and the start's minutes are less than the end's.
  pub build_period-parses :
      (schedule_id : Uuid) (input : PeriodInput R) (exclude_id : Option Uuid) (d : D)
      → (p : SchedulePeriod R) (h m h' m' : ℕ) → codes input.start_time ≡ print_time h m
      → codes input.end_time ≡ print_time h' m'
      → h < 100
      → m < 60
      → h' < 100
      → m' < 60
      → build_period repo schedule_id input exclude_id d ≡ ok p
      → (parse_time_to_minutes p.start_time ≡ ok (pos (h * 60 + m)))
        × (parse_time_to_minutes p.end_time ≡ ok (pos (h' * 60 + m')))
        × (h * 60 + m < h' * 60 + m')
  build_period-parses schedule_id input exclude_id d p h m h' m' e e' a b a' b' built =
      let (start, finish, order, same) =
        build_period-times schedule_id input exclude_id d p built in
      (
        rw start (parse-codes input.start_time h m e a b),
        rw finish (parse-codes input.end_time h' m' e' a' b'),
        ground (
          arith,
          order,
          string_le-codes input.end_time input.start_time h' m' h m e' e a' b' a b,
        ),
      )
