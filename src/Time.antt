-- ===== src/Time.antt =====
-- Go's package time, as far as the services use it: instants and durations are integers in
-- nanoseconds, instants from the Unix epoch. The offsets of a time zone come from the zone data of the
-- host, so a `Location` is the function from an instant to its offset from UTC in seconds.
use climate_control.Prelude.{ℕ, ◌+◌, ◌*◌, ◌/◌, ◌%◌, ◌-◌, ◌^◌, ◌<◌, ◌≡◌, Bool, if◌then◌else◌, arith}
use climate_control.Prelude.Int.{
  ℤ, pos, negsuc, ◌-ℤ◌, ◌+ℤ◌, ltb_ℤ, leb_ℤ, div_floor, mod_floor, ◌≤ℤ◌, ◌<ℤ◌, -ℤ_parts,
}

abbrev pub Instant : Type 0
Instant = ℤ

abbrev pub Duration : Type 0
Duration = ℤ

abbrev pub max_duration : Duration
max_duration = pos (2 ^ 63 - 1)

abbrev pub min_duration : Duration
min_duration = negsuc (2 ^ 63 - 1)

-- t.Sub(u), which saturates at the ends of a Duration
unfoldable pub time_sub : Instant → Instant → Duration
time_sub t u =
    let d = t -ℤ u in
    if ltb_ℤ max_duration d then max_duration else if ltb_ℤ d min_duration then min_duration else d

-- t.Add(-d)
unfoldable pub add_neg : Instant → Duration → Instant
add_neg t d = t -ℤ d

abbrev pub before : Instant → Instant → Bool
before t u = ltb_ℤ t u

abbrev pub after : Instant → Instant → Bool
after t u = ltb_ℤ u t

pub record Location : Type 0 where
  pub offset_seconds : Instant → ℤ

abbrev pub utc : Location
utc = record { offset_seconds = λ t. pos 0 }

-- The seconds of the local clock from the start of 1970 in the location.
unfoldable pub local_seconds : Location → Instant → ℤ
unfolding div_floor ◌+ℤ◌
local_seconds loc t = div_floor t (10 ^ 9) +ℤ loc.offset_seconds t

-- t.In(loc).Weekday(), Sunday = 0; 1 January 1970 was a Thursday
unfoldable pub weekday : Location → Instant → ℕ
unfolding local_seconds div_floor mod_floor
weekday loc t = (mod_floor (div_floor (local_seconds loc t) 86400) 7 + 4) % 7

unfoldable pub hour : Location → Instant → ℕ
unfolding local_seconds mod_floor
hour loc t = mod_floor (local_seconds loc t) 86400 / 3600

unfoldable pub minute : Location → Instant → ℕ
unfolding local_seconds mod_floor
minute loc t = mod_floor (local_seconds loc t) 86400 / 60 % 60

pub mod_floor-lt : (a : ℤ) (m : ℕ) → 0 < m → mod_floor a m < m
unfolding mod_floor
mod_floor-lt (pos n) m h = omega arith
mod_floor-lt (negsuc n) m h = omega arith

pub weekday-lt : (loc : Location) (t : Instant) → weekday loc t < 7
unfolding weekday
weekday-lt loc t = omega arith

-- The minute of the local day.
pub minute_of_day-lt : (loc : Location) (t : Instant) → hour loc t * 60 + minute loc t < 1440
unfolding hour minute
minute_of_day-lt loc t =
    let h = mod_floor-lt (local_seconds loc t) 86400 (omega arith) in omega arith

-- Within a Duration the difference is exact; a difference above the range stays above.
pub time_sub-le_iff_true :
    (t u : Instant) (d : Duration)
    → d <ℤ max_duration
    → min_duration ≤ℤ d
    → leb_ℤ (time_sub t u) d ≡ leb_ℤ (t -ℤ u) d
unfolding time_sub
time_sub-le_iff_true t u d h k = ground (arith, -ℤ_parts t u)
