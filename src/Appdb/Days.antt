-- ===== src/Appdb/Days.antt =====
-- The days of a cached period against the row's list of days.
use climate_control.Prelude.{
  ℕ, zero, suc, ◌<◌, ◌≡◌, refl, ◌∙◌, Bool, true, false, ◌&&◌, ◌||◌, List, [], ◌∷◌, ◌==◌, nat_eq,
  leb, any, length, if◌then◌else◌, arith,
}
use climate_control.Prelude.Int.{ℤ, pos, negsuc, leb_ℤ}
use climate_control.Cache.{bit_at}
use climate_control.Appdb.Assembly.{set_bit, day_index, set_day, set_days, no_days, build_days}

-- The list has the day.
abbrev pub has_day : ℕ → List ℤ → Bool
has_day i ds = any (λ d. leb_ℤ (pos i) d && leb_ℤ d (pos i)) ds

length-set_bit : (bits : List Bool) (j : ℕ) → length (set_bit bits j) ≡ length bits
unfolding set_bit
length-set_bit [] j = refl
length-set_bit (b ∷ bs) zero = refl
length-set_bit (b ∷ bs) (suc j) = omega (arith, length-set_bit bs j)

bit_at-set_bit :
    (bits : List Bool) (j i : ℕ)
    → j < length bits
    → bit_at (set_bit bits j) i ≡ (if j == i then true else bit_at bits i)
unfolding set_bit bit_at
bit_at-set_bit [] j i h = absurd (omega arith)
bit_at-set_bit (b ∷ bs) zero zero h = refl
bit_at-set_bit (b ∷ bs) zero (suc i) h = ground arith
bit_at-set_bit (b ∷ bs) (suc j) zero h = ground arith
bit_at-set_bit (b ∷ bs) (suc j) (suc i) h = ground (arith, bit_at-set_bit bs j i)

length-set_day : (bits : List Bool) (d : ℤ) → length (set_day bits d) ≡ length bits
unfolding set_day
length-set_day bits d = ground (arith, length-set_bit bits (day_index d))

bit_at-set_day :
    (bits : List Bool) (d : ℤ) (i : ℕ)
    → length bits ≡ 8
    → bit_at (set_day bits d) i
      ≡ (bit_at bits i || (leb 1 i && leb i 7 && (leb_ℤ (pos i) d && leb_ℤ d (pos i))))
unfolding set_day
bit_at-set_day bits (negsuc n) i h = ground arith
bit_at-set_day bits (pos n) i h = ground (arith, bit_at-set_bit bits n i)

regroup : (b p q s t : Bool) → (b || (p && q && s) || (p && q && t)) ≡ (b || (p && q && (s || t)))
regroup b p q s t = ground arith

bit_at-set_days :
    (bits : List Bool) (ds : List ℤ) (i : ℕ)
    → length bits ≡ 8
    → bit_at (set_days bits ds) i ≡ (bit_at bits i || (leb 1 i && leb i 7 && has_day i ds))
unfolding set_days
bit_at-set_days bits [] i h = ground arith
bit_at-set_days bits (d ∷ ds) i h =
    bit_at-set_days (set_day bits d) ds i (length-set_day bits d ∙ h)
    ∙ rw (bit_at-set_day bits d i h) (
        regroup (bit_at bits i) (leb 1 i) (leb i 7) (leb_ℤ (pos i) d && leb_ℤ d (pos i))
          (has_day i ds))

no_days-bit_at : (i : ℕ) → bit_at no_days i ≡ false
unfolding bit_at
no_days-bit_at zero = refl
no_days-bit_at (suc zero) = refl
no_days-bit_at (suc (suc zero)) = refl
no_days-bit_at (suc (suc (suc zero))) = refl
no_days-bit_at (suc (suc (suc (suc zero)))) = refl
no_days-bit_at (suc (suc (suc (suc (suc zero))))) = refl
no_days-bit_at (suc (suc (suc (suc (suc (suc zero)))))) = refl
no_days-bit_at (suc (suc (suc (suc (suc (suc (suc zero))))))) = refl
no_days-bit_at (suc (suc (suc (suc (suc (suc (suc (suc i)))))))) = refl

-- For every list of days, whatever numbers it holds, the array has a day set exactly if the day is one
-- of 1 to 7 and the list has it.
pub build_days-has_day :
    (ds : List ℤ) (i : ℕ) → bit_at (build_days ds) i ≡ (leb 1 i && leb i 7 && has_day i ds)
unfolding build_days
build_days-has_day ds i = rw (bit_at-set_days no_days ds i refl, no_days-bit_at i)
