-- ===== src/Typeck/Range/Floor.antt =====
-- The quotient of two integers rounded down and up, against the multiples of the divisor.
use deed.Prelude.{ℕ, zero, suc, ◌||◌, not, arith, if◌then◌else◌}
use deed.Prelude.Int.{ℤ, pos, negsuc, neg_ℤ, ◌*ℤ◌, ◌-ℤ◌, ◌+ℤ◌, ◌≤ℤ◌, *ℤ_parts}
use deed.Machine.{eqb_ℤ}
use deed.Machine.Division.{
  quot, rem, le-div_of_mul_le, div-le_of_le_mul, div-lt_of_le_mul, mul_le-of_le_div,
  le_mul-of_div_lt, le_mul-of_div_le,
}
use deed.Typeck.Range.{same_sign}

-- The quotient rounded down and up, over all integers.
unfoldable pub floor : ℤ → ℤ → ℤ
floor v by = if eqb_ℤ (rem v by) (pos 0) || same_sign v by then quot v by else quot v by -ℤ pos 1

unfoldable pub ceiling : ℤ → ℤ → ℤ
ceiling v by =
    if eqb_ℤ (rem v by) (pos 0) || not (same_sign v by) then quot v by else quot v by +ℤ pos 1

-- The order of an integer against a multiple, over the sizes of the factors.
pub le-floor_pos : (v : ℤ) (b : ℕ) (d : ℤ) → d *ℤ pos (suc b) ≤ℤ v → d ≤ℤ floor v (pos (suc b))
unfolding floor quot rem neg_ℤ ◌-ℤ◌
le-floor_pos (pos v) b (pos d) h =
    ground (arith, *ℤ_parts (pos d) (pos (suc b)), le-div_of_mul_le d v b)
le-floor_pos (pos v) b (negsuc d) h = ground arith
le-floor_pos (negsuc v) b (pos d) h = absurd (omega (arith, *ℤ_parts (pos d) (pos (suc b))))
le-floor_pos (negsuc v) b (negsuc d) h = ground (
  arith,
  *ℤ_parts (negsuc d) (pos (suc b)),
  div-le_of_le_mul (suc d) (suc v) b,
  div-lt_of_le_mul (suc d) (suc v) b,
)

pub le-floor_neg : (v : ℤ) (b : ℕ) (d : ℤ) → v ≤ℤ d *ℤ negsuc b → d ≤ℤ floor v (negsuc b)
unfolding floor quot rem neg_ℤ ◌-ℤ◌
le-floor_neg (pos v) b (pos zero) h = ground (arith, *ℤ_parts (pos 0) (negsuc b))
le-floor_neg (pos v) b (pos (suc d)) h = absurd (omega (arith, *ℤ_parts (pos (suc d)) (negsuc b)))
le-floor_neg (pos v) b (negsuc d) h = ground (
  arith,
  *ℤ_parts (negsuc d) (negsuc b),
  div-le_of_le_mul (suc d) v b,
  div-lt_of_le_mul (suc d) v b,
)
le-floor_neg (negsuc v) b (pos d) h =
    ground (arith, *ℤ_parts (pos d) (negsuc b), le-div_of_mul_le d (suc v) b)
le-floor_neg (negsuc v) b (negsuc d) h = ground arith

pub ceiling-le_pos : (v : ℤ) (b : ℕ) (d : ℤ) → v ≤ℤ d *ℤ pos (suc b) → ceiling v (pos (suc b)) ≤ℤ d
unfolding ceiling quot rem neg_ℤ ◌+ℤ◌
ceiling-le_pos (pos v) b (pos d) h =
    ground (arith, *ℤ_parts (pos d) (pos (suc b)), div-le_of_le_mul d v b, div-lt_of_le_mul d v b)
ceiling-le_pos (pos v) b (negsuc d) h = absurd (omega (arith, *ℤ_parts (negsuc d) (pos (suc b))))
ceiling-le_pos (negsuc v) b (pos d) h = ground arith
ceiling-le_pos (negsuc v) b (negsuc d) h =
    ground (arith, *ℤ_parts (negsuc d) (pos (suc b)), le-div_of_mul_le (suc d) (suc v) b)

pub ceiling-le_neg : (v : ℤ) (b : ℕ) (d : ℤ) → d *ℤ negsuc b ≤ℤ v → ceiling v (negsuc b) ≤ℤ d
unfolding ceiling quot rem neg_ℤ ◌+ℤ◌
ceiling-le_neg (pos v) b (pos d) h = ground arith
ceiling-le_neg (pos v) b (negsuc d) h =
    ground (arith, *ℤ_parts (negsuc d) (negsuc b), le-div_of_mul_le (suc d) v b)
ceiling-le_neg (negsuc v) b (pos d) h =
    ground (
      arith,
      *ℤ_parts (pos d) (negsuc b),
      div-le_of_le_mul d (suc v) b,
      div-lt_of_le_mul d (suc v) b,
    )
ceiling-le_neg (negsuc v) b (negsuc d) h = absurd (omega (arith, *ℤ_parts (negsuc d) (negsuc b)))

-- And back: what is at most the floor has a multiple within the bound.
pub floor-mul_pos : (v : ℤ) (b : ℕ) (d : ℤ) → d ≤ℤ floor v (pos (suc b)) → d *ℤ pos (suc b) ≤ℤ v
unfolding floor quot rem neg_ℤ ◌-ℤ◌
floor-mul_pos (pos v) b (pos d) h =
    ground (arith, *ℤ_parts (pos d) (pos (suc b)), mul_le-of_le_div d v b)
floor-mul_pos (pos v) b (negsuc d) h = ground (arith, *ℤ_parts (negsuc d) (pos (suc b)))
floor-mul_pos (negsuc v) b (pos d) h = absurd (ground (arith, le_mul-of_div_le 0 (suc v) b))
floor-mul_pos (negsuc v) b (negsuc d) h = ground (
  arith,
  *ℤ_parts (negsuc d) (pos (suc b)),
  le_mul-of_div_le (suc d) (suc v) b,
  le_mul-of_div_lt (suc d) (suc v) b,
)

pub floor-mul_neg : (v : ℤ) (b : ℕ) (d : ℤ) → d ≤ℤ floor v (negsuc b) → v ≤ℤ d *ℤ negsuc b
unfolding floor quot rem neg_ℤ ◌-ℤ◌
floor-mul_neg (pos v) b (pos d) h =
    ground (arith, *ℤ_parts (pos d) (negsuc b), le_mul-of_div_le 0 v b)
floor-mul_neg (pos v) b (negsuc d) h = ground (
  arith,
  *ℤ_parts (negsuc d) (negsuc b),
  le_mul-of_div_le (suc d) v b,
  le_mul-of_div_lt (suc d) v b,
)
floor-mul_neg (negsuc v) b (pos d) h =
    ground (arith, *ℤ_parts (pos d) (negsuc b), mul_le-of_le_div d (suc v) b)
floor-mul_neg (negsuc v) b (negsuc d) h = ground (arith, *ℤ_parts (negsuc d) (negsuc b))

pub ceiling-mul_pos : (v : ℤ) (b : ℕ) (d : ℤ) → ceiling v (pos (suc b)) ≤ℤ d → v ≤ℤ d *ℤ pos (suc b)
unfolding ceiling quot rem neg_ℤ ◌+ℤ◌
ceiling-mul_pos (pos v) b (pos d) h =
    ground (arith, *ℤ_parts (pos d) (pos (suc b)), le_mul-of_div_le d v b, le_mul-of_div_lt d v b)
ceiling-mul_pos (pos v) b (negsuc d) h = absurd (ground arith)
ceiling-mul_pos (negsuc v) b (pos d) h = ground (arith, *ℤ_parts (pos d) (pos (suc b)))
ceiling-mul_pos (negsuc v) b (negsuc d) h =
    ground (arith, *ℤ_parts (negsuc d) (pos (suc b)), mul_le-of_le_div (suc d) (suc v) b)

pub ceiling-mul_neg : (v : ℤ) (b : ℕ) (d : ℤ) → ceiling v (negsuc b) ≤ℤ d → d *ℤ negsuc b ≤ℤ v
unfolding ceiling quot rem neg_ℤ ◌+ℤ◌
ceiling-mul_neg (pos v) b (pos d) h = ground (arith, *ℤ_parts (pos d) (negsuc b))
ceiling-mul_neg (pos v) b (negsuc d) h =
    ground (arith, *ℤ_parts (negsuc d) (negsuc b), mul_le-of_le_div (suc d) v b)
ceiling-mul_neg (negsuc v) b (pos d) h =
    ground (
      arith,
      *ℤ_parts (pos d) (negsuc b),
      le_mul-of_div_le d (suc v) b,
      le_mul-of_div_lt d (suc v) b,
    )
ceiling-mul_neg (negsuc v) b (negsuc d) h = absurd (ground arith)
