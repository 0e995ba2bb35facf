-- ===== src/Appdb/ParseTime.antt =====
-- device-service/internal/appdb/repository.go: `parseTimeToMinutes`, with what it uses of packages
-- strings and strconv. A text is the list of its codes; only ASCII codes are ever accepted.
use Prim.Native.Char.{code}
use climate_control.Prelude.{
  ℕ, ◌+◌, ◌-◌, ◌*◌, ◌/◌, ◌%◌, ◌^◌, ◌<◌, ◌≡◌, String, Bool, ◌&&◌, Option, none, some, List, [], ◌∷◌,
  ◌++◌, ◌==◌, nat_eq, ltb, leb, if◌then◌else◌, arith,
}
use climate_control.Prelude.Int.{ℤ, pos, ◌+ℤ◌, ◌*ℤ◌, ◌-ℤ◌, wrap_signed, mod_floor}
use climate_control.Prelude.Result.{Result, ok, ◌>>=◌, or_err}

pub data TimeError : Type 0 where
  bad_format bad_hour bad_minute : TimeError

abbrev pub codes : String → List ℕ
codes String.[] = []
codes (String.◌∷◌ c s) = code c ∷ codes s

-- strings.SplitN(s, ":", 2): the texts before and after the first colon, `none` with no colon
unfoldable pub split_colon : List ℕ → Option (List ℕ × List ℕ)
split_colon [] = none
split_colon (c ∷ cs) =
    let rest = split_colon cs in
    if c == b':'
    then some ([], cs)
    else elim rest [ none ↦ none | some (before, after) ↦ some (c ∷ before, after) ]

abbrev pub is_digit : ℕ → Bool
is_digit c = leb b'0' c && leb c b'9'

unfoldable pub digits : ℕ → List ℕ → Option ℕ
digits n [] = some n
digits n (c ∷ cs) = let rest = digits (n * 10 + (c - b'0')) cs in if is_digit c then rest else none

-- an unsigned number in decimal, with at least one digit
unfoldable pub unsigned : List ℕ → Option ℕ
unsigned [] = none
unsigned (c ∷ cs) = digits 0 (c ∷ cs)

-- strconv.Atoi: an optional sign, digits, and the range of int64
unfoldable pub atoi : List ℕ → Option ℤ
atoi [] = none
atoi (c ∷ cs) =
    if c == b'-'
    then elim (unsigned cs) [
      | none ↦ none
      | some n ↦ if leb n (2 ^ 63) then some (pos 0 -ℤ pos n) else none
    ]
    else elim (if c == b'+' then unsigned cs else unsigned (c ∷ cs)) [
      | none ↦ none
      | some n ↦ if ltb n (2 ^ 63) then some (pos n) else none
    ]

-- hour*60 + minute, in an int of 64 bits
unfoldable pub to_minutes : ℤ → ℤ → ℤ
to_minutes hour minute = wrap_signed 64 (wrap_signed 64 (hour *ℤ pos 60) +ℤ minute)

unfoldable pub parse_codes : List ℕ → Result TimeError ℤ
parse_codes cs = do
  parts ← or_err bad_format (split_colon cs)
  hour ← or_err bad_hour (atoi parts.0)
  minute ← or_err bad_minute (atoi parts.1)
  ok (to_minutes hour minute)

unfoldable pub parse_time_to_minutes : String → Result TimeError ℤ
parse_time_to_minutes s = parse_codes (codes s)

-- A number below 100 as two digits, and a time as "HH:MM".
abbrev pub two_digits : ℕ → List ℕ
two_digits n = (b'0' + n / 10) ∷ (b'0' + n % 10) ∷ []

abbrev pub print_time : ℕ → ℕ → List ℕ
print_time h m = two_digits h ++ b':' ∷ two_digits m

atoi-two_digits : (n : ℕ) → n < 100 → atoi (two_digits n) ≡ some (pos n)
unfolding atoi unsigned digits
atoi-two_digits n h = ground arith

split_colon-print_time :
    (h m : ℕ) → h < 100 → m < 100 → split_colon (print_time h m) ≡ some (two_digits h, two_digits m)
unfolding split_colon
split_colon-print_time h m p q = ground arith

to_minutes-small : (h m : ℕ) → h < 100 → m < 100 → to_minutes (pos h) (pos m) ≡ pos (h * 60 + m)
unfolding to_minutes wrap_signed mod_floor ◌*ℤ◌ ◌+ℤ◌
to_minutes-small h m p q = ground arith

-- For an hour and a minute of at most two digits, parsing the text "HH:MM" gives the hour times 60
-- plus the minute, with no error.
pub parse-print_time :
    (h m : ℕ) → h < 100 → m < 100 → parse_codes (print_time h m) ≡ ok (pos (h * 60 + m))
unfolding parse_codes
parse-print_time h m p q = rw (
  split_colon-print_time h m p q,
  atoi-two_digits h p,
  atoi-two_digits m q,
  to_minutes-small h m p q,
)

-- A time with one digit for its hour, "H:MM".
abbrev pub short_time : ℕ → ℕ → List ℕ
short_time h m = (b'0' + h) ∷ b':' ∷ two_digits m

split_colon-short_time :
    (h m : ℕ)
    → h < 10
    → m < 100
    → split_colon (short_time h m) ≡ some ((b'0' + h) ∷ [], two_digits m)
unfolding split_colon
split_colon-short_time h m p q = ground arith

atoi-one_digit : (n : ℕ) → n < 10 → atoi ((b'0' + n) ∷ []) ≡ some (pos n)
unfolding atoi unsigned digits
atoi-one_digit n h = ground arith

pub parse-short_time :
    (h m : ℕ) → h < 10 → m < 100 → parse_codes (short_time h m) ≡ ok (pos (h * 60 + m))
unfolding parse_codes
parse-short_time h m p q = rw (
  split_colon-short_time h m p q,
  atoi-one_digit h p,
  atoi-two_digits m q,
  to_minutes-small h m (omega (arith, p)) q,
)
