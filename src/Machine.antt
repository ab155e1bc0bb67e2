-- ===== src/Machine.antt =====
-- The 64 bit signed integers of the language and of the checker, as integers in a range, with the
-- saturating and the checked operations of Rust's `i64` that the checker and the interpreter call.
pub mod Order
pub mod Division
use deed.Prelude.{ℕ, ◌-◌, ◌^◌, ◌≡◌, Bool, true, ◌&&◌, arith, Option, none, some, if◌then◌else◌}
use deed.Prelude.Int.{ℤ, pos, negsuc, neg_ℤ, ◌+ℤ◌, ◌-ℤ◌, ◌*ℤ◌, ◌≤ℤ◌, ltb_ℤ, leb_ℤ, eq_of_parts}

abbrev pub i64_max : ℤ
i64_max = pos (2 ^ 63 - 1)

abbrev pub i64_min : ℤ
i64_min = negsuc (2 ^ 63 - 1)

-- An integer that an `i64` holds.
pub record Fits (a : ℤ) : Type 0 where
  pub low : i64_min ≤ℤ a
  pub high : a ≤ℤ i64_max

abbrev pub fits : ℤ → Bool
fits a = leb_ℤ i64_min a && leb_ℤ a i64_max

-- The nearest integer that an `i64` holds.
unfoldable pub clamp : ℤ → ℤ
clamp a = if ltb_ℤ a i64_min then i64_min else if ltb_ℤ i64_max a then i64_max else a

unfoldable pub saturating_add : ℤ → ℤ → ℤ
saturating_add a b = clamp (a +ℤ b)

unfoldable pub saturating_sub : ℤ → ℤ → ℤ
saturating_sub a b = clamp (a -ℤ b)

unfoldable pub saturating_mul : ℤ → ℤ → ℤ
saturating_mul a b = clamp (a *ℤ b)

unfoldable pub saturating_neg : ℤ → ℤ
saturating_neg a = clamp (neg_ℤ a)

unfoldable pub checked : ℤ → Option ℤ
checked a = if fits a then some a else none

abbrev pub checked_add : ℤ → ℤ → Option ℤ
checked_add a b = checked (a +ℤ b)

abbrev pub checked_sub : ℤ → ℤ → Option ℤ
checked_sub a b = checked (a -ℤ b)

abbrev pub checked_mul : ℤ → ℤ → Option ℤ
checked_mul a b = checked (a *ℤ b)

abbrev pub checked_neg : ℤ → Option ℤ
checked_neg a = checked (neg_ℤ a)

unfoldable pub min_ℤ : ℤ → ℤ → ℤ
min_ℤ a b = if leb_ℤ a b then a else b

unfoldable pub max_ℤ : ℤ → ℤ → ℤ
max_ℤ a b = if leb_ℤ a b then b else a

abbrev pub eqb_ℤ : ℤ → ℤ → Bool
eqb_ℤ a b = leb_ℤ a b && leb_ℤ b a

pub eqb_ℤ→eq : (a b : ℤ) → eqb_ℤ a b ≡ true → a ≡ b
eqb_ℤ→eq a b h = eq_of_parts a b (ground arith)
