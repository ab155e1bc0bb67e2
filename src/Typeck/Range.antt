-- ===== src/Typeck/Range.antt =====
-- `Range` of crates/deed-typeck/src/facts.rs: a closed range of `i64`, or nothing at all, with the
-- arithmetic on ranges and the rounding division that narrows a scaled name.
pub mod Member
pub mod Arith
pub mod Floor
pub mod Divide
mod Examples
use deed.Prelude.{
  ℕ, ◌≡◌, Bool, true, false, ◌&&◌, ◌||◌, not, Option, none, some, if◌then◌else◌, ltb, leb,
}
use deed.Prelude.Int.{ℤ, pos, negsuc, ltb_ℤ, leb_ℤ}
use deed.Machine.{
  i64_min, i64_max, saturating_add, saturating_sub, saturating_mul, saturating_neg, checked_add,
  checked_sub, checked_neg, min_ℤ, max_ℤ, eqb_ℤ,
}
use deed.Machine.Division.{checked_div, rem}

pub data Range : Type 0 where
  empty : Range
  bounded : ℤ → ℤ → Range

abbrev pub any : Range
any = bounded i64_min i64_max

abbrev pub exactly : ℤ → Range
exactly value = bounded value value

unfoldable pub between : ℤ → ℤ → Range
between low high = if ltb_ℤ high low then empty else bounded low high

-- The derived `==`.
unfoldable pub eq_range : Range → Range → Bool
eq_range empty empty = true
eq_range (bounded a b) (bounded c d) = eqb_ℤ a c && eqb_ℤ b d
eq_range _ _ = false

unfoldable pub is_any : Range → Bool
is_any r = eq_range r any

unfoldable pub bounds : Range → Option (ℤ × ℤ)
bounds empty = none
bounds (bounded low high) = some (low, high)

unfoldable pub meet : Range → Range → Range
unfolding between
meet (bounded a b) (bounded c d) = between (max_ℤ a c) (min_ℤ b d)
meet _ _ = empty

unfoldable pub join : Range → Range → Range
unfolding between
join (bounded a b) (bounded c d) = between (min_ℤ a c) (max_ℤ b d)
join (bounded a b) empty = bounded a b
join empty other = other

unfoldable pub add : Range → Range → Range
unfolding between
add (bounded a b) (bounded c d) = between (saturating_add a c) (saturating_add b d)
add _ _ = empty

unfoldable pub sub : Range → Range → Range
unfolding add
sub self (bounded low high) = add self (between (saturating_neg high) (saturating_neg low))
sub self empty = empty

unfoldable pub mul : Range → Range → Range
unfolding between
mul (bounded a b) (bounded c d) =
    between
      (min_ℤ (min_ℤ (saturating_mul a c) (saturating_mul a d))
        (min_ℤ (saturating_mul b c) (saturating_mul b d)))
      (max_ℤ (max_ℤ (saturating_mul a c) (saturating_mul a d))
        (max_ℤ (saturating_mul b c) (saturating_mul b d)))
mul _ _ = empty

unfoldable pub negate : Range → Range
unfolding between
negate (bounded low high) = between (saturating_neg high) (saturating_neg low)
negate empty = empty

unfoldable pub spread : Range → Range → Range
unfolding between
spread (bounded a b) (bounded c d) = between (saturating_sub a d) (saturating_sub b c)
spread _ _ = empty

unfoldable pub shift : Range → Range → Range
unfolding between
shift (bounded a b) (bounded c d) = between (saturating_add a c) (saturating_add b d)
shift _ _ = empty

unfoldable pub times : Range → ℤ → Range
unfolding between
times (bounded low high) factor =
    let one = saturating_mul low factor in
    let other = saturating_mul high factor in between (min_ℤ one other) (max_ℤ one other)
times empty factor = empty

-- `(a < 0) == (b < 0)`.
abbrev pub same_sign : ℤ → ℤ → Bool
same_sign (negsuc _) (negsuc _) = true
same_sign (pos _) (pos _) = true
same_sign _ _ = false

unfoldable pub round_down : ℤ → ℤ → Option ℤ
round_down value by =
    if eqb_ℤ value i64_min && eqb_ℤ by (negsuc 0)
    then some i64_max
    else elim (checked_div value by) [
      | none ↦ none
      | some quotient ↦
          if eqb_ℤ (rem value by) (pos 0) || same_sign value by
          then some quotient
          else checked_sub quotient (pos 1)
    ]

unfoldable pub round_up : ℤ → ℤ → Option ℤ
round_up value by = elim (checked_div value by) [
  | none ↦ none
  | some quotient ↦
      if eqb_ℤ (rem value by) (pos 0) || not (same_sign value by)
      then some quotient
      else checked_add quotient (pos 1)
]

abbrev pub between? : Option ℤ → Option ℤ → Option Range
between? (some low) (some high) = some (between low high)
between? _ _ = none

unfoldable pub divided : Range → ℤ → Option Range
unfolding between round_up round_down
divided bound count = if eqb_ℤ count (pos 0) then none else elim bound [
  | empty ↦ some empty
  | bounded low high ↦
      if ltb_ℤ (pos 0) count
      then between? (round_up low count) (round_down high count)
      else between? (round_up high count) (round_down low count)
]
