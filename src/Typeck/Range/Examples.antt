-- ===== src/Typeck/Range/Examples.antt =====
-- The theorems on ranges at concrete ranges.
use deed.Prelude.{◌↔◌, refl, arith}
use deed.Prelude.Int.{ℤ, pos, negsuc, neg_ℤ, ◌+ℤ◌, ◌-ℤ◌, ◌*ℤ◌}
use deed.Machine.{Fits, checked, i64_max}
use deed.Machine.Division.{quot, rem, checked_div}
use deed.Typeck.Range.{
  Range, meet, join, bounded, add, sub, mul, divided, round_up, round_down, between,
}
use deed.Typeck.Range.Member.{In, In-meet, IsValid, join_least}
use deed.Typeck.Range.Arith.{add-In, sub-In, mul-In}
use deed.Typeck.Range.Divide.{In-divided}

four-Fits : Fits (pos 4)
four-Fits = record { low = omega arith; high = omega arith }

-- The upper end saturates.
add-In_example : In (pos 4) (add (bounded (pos 0) i64_max) (bounded (negsuc 0) (pos 3)))
unfolding ◌+ℤ◌
add-In_example =
    add-In (pos 5) (negsuc 0) (bounded (pos 0) i64_max) (bounded (negsuc 0) (pos 3)) four-Fits
      (omega arith, omega arith) (omega arith, omega arith)

sub-In_example : In (pos 7 -ℤ pos 3) (sub (bounded (pos 5) (pos 9)) (bounded (pos 3) (pos 4)))
unfolding ◌-ℤ◌ ◌+ℤ◌ neg_ℤ
sub-In_example =
    sub-In (pos 7) (pos 3) (bounded (pos 5) (pos 9)) (bounded (pos 3) (pos 4))
      (record { low = omega arith; high = omega arith }) four-Fits (omega arith, omega arith)
      (omega arith, omega arith)

mul-In_example : In (negsuc 1 *ℤ pos 2) (mul (bounded (negsuc 4) (pos 5)) (bounded (pos 2) (pos 3)))
unfolding ◌*ℤ◌
mul-In_example =
    mul-In (negsuc 1) (pos 2) (bounded (negsuc 4) (pos 5)) (bounded (pos 2) (pos 3))
      (record { low = omega arith; high = omega arith }) (omega arith, omega arith)
      (omega arith, omega arith)

-- `2 * d` between -3 and 7 leaves `d` between -1 and 3.
In-divided_example :
    In (pos 3) (bounded (negsuc 0) (pos 3)) ↔ In (pos 3 *ℤ pos 2) (bounded (negsuc 2) (pos 7))
unfolding divided round_up round_down checked_div quot rem checked between ◌+ℤ◌ ◌-ℤ◌ neg_ℤ
In-divided_example =
    In-divided (pos 3) (pos 2) (bounded (negsuc 2) (pos 7)) (bounded (negsuc 0) (pos 3))
      (record { low = omega arith; high = omega arith }) refl

In-meet_example :
    In (pos 4) (meet (bounded (pos 1) (pos 5)) (bounded (pos 2) (pos 9)))
    ↔ (In (pos 4) (bounded (pos 1) (pos 5)) × In (pos 4) (bounded (pos 2) (pos 9)))
In-meet_example = In-meet (pos 4) (bounded (pos 1) (pos 5)) (bounded (pos 2) (pos 9))

abbrev low_range : Range
low_range = bounded (pos 1) (pos 5)

low-IsValid : IsValid low_range
low-IsValid = (
  record { low = omega arith; high = omega arith },
  record { low = omega arith; high = omega arith },
  omega arith,
)

abbrev high_range : Range
high_range = bounded (pos 8) (pos 9)

high-IsValid : IsValid high_range
high-IsValid = (
  record { low = omega arith; high = omega arith },
  record { low = omega arith; high = omega arith },
  omega arith,
)

join_least_example :
    ((x : ℤ) → In x (join low_range high_range) → In x (bounded (pos 0) (pos 9))) ↔ (
      ((x : ℤ) → In x low_range → In x (bounded (pos 0) (pos 9)))
      × ((x : ℤ) → In x high_range → In x (bounded (pos 0) (pos 9))))
join_least_example =
    join_least low_range high_range (bounded (pos 0) (pos 9)) low-IsValid high-IsValid
