-- ===== src/Scheduler/Stagger.antt =====
-- The staggers of `Start` lie within one interval and grow with the index.
use climate_control.Prelude.{ℕ, ◌*◌, ◌/◌, ◌^◌, ◌≤◌, ◌<◌, ◌≡◌, arith}
use climate_control.Prelude.Int.{pos, ◌≤ℤ◌, ◌<ℤ◌, wrap_signed, mod_floor}
use climate_control.Scheduler.{quotient, stagger_of}

stagger_of-exact :
    (i n interval : ℕ) → i * interval < 2 ^ 63 → stagger_of i n interval ≡ pos (i * interval / n)
unfolding stagger_of quotient wrap_signed mod_floor
stagger_of-exact i n interval h = ground arith

div-lt : (p n interval : ℕ) → p < n * interval → p / n < interval
div-lt p n interval h = grind arith

div-le : (p q n : ℕ) → p ≤ q → p / n ≤ q / n
div-le p q n h = grind arith

-- If the products fit into an int64, then for n rooms the stagger of each index below n is at least 0
-- and less than the interval, and a later index has no smaller stagger.
pub stagger_bounds :
    (i j n interval : ℕ)
    → i ≤ j
    → j < n
    → 0 < interval
    → j * interval < 2 ^ 63
    → (pos 0 ≤ℤ stagger_of i n interval)
      × (stagger_of i n interval ≤ℤ stagger_of j n interval)
      × (stagger_of j n interval <ℤ pos interval)
stagger_bounds i j n interval le lt positive fits =
    let smaller : i * interval ≤ j * interval = grind arith in
    let below : j * interval < n * interval = grind arith in
    rw (stagger_of-exact i n interval (omega arith), stagger_of-exact j n interval fits)
      (omega (
        arith,
        div-le (i * interval) (j * interval) n smaller,
        div-lt (j * interval) n interval below,
      ))
