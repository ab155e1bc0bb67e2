-- ===== src/Machine/Division.antt =====
-- Rust's division of `i64`, which rounds towards zero, and the bounds on what it leaves.
use native.Mathlib.Nat.{div-add-mod, mod-lt}
use deed.Prelude.{ℕ, suc, ◌*◌, ◌/◌, ◌%◌, ◌≤◌, ◌<◌, ◌≡◌, ◌≢◌, Option, none, arith, if◌then◌else◌}
use deed.Prelude.Int.{ℤ, pos, negsuc, neg_ℤ}
use deed.Machine.{checked, eqb_ℤ}

unfoldable pub quot : ℤ → ℤ → ℤ
quot (pos a) (pos b) = pos (a / b)
quot (pos a) (negsuc b) = neg_ℤ (pos (a / suc b))
quot (negsuc a) (pos b) = neg_ℤ (pos (suc a / b))
quot (negsuc a) (negsuc b) = pos (suc a / suc b)

unfoldable pub rem : ℤ → ℤ → ℤ
rem (pos a) (pos b) = pos (a % b)
rem (pos a) (negsuc b) = pos (a % suc b)
rem (negsuc a) (pos b) = neg_ℤ (pos (suc a % b))
rem (negsuc a) (negsuc b) = neg_ℤ (pos (suc a % suc b))

-- Division by zero and `i64::MIN / -1` have no answer.
unfoldable pub checked_div : ℤ → ℤ → Option ℤ
checked_div a b = if eqb_ℤ b (pos 0) then none else checked (quot a b)

-- `i64::MIN % -1` has none either: Rust works the quotient out first.
unfoldable pub checked_rem : ℤ → ℤ → Option ℤ
checked_rem a b =
    if eqb_ℤ b (pos 0)
    then none
    else elim (checked (quot a b)) [ Option.none ↦ none | Option.some _ ↦ Option.some (rem a b) ]

pub le-div_of_mul_le : (n a b : ℕ) → n * suc b ≤ a → n ≤ a / suc b
le-div_of_mul_le n a b h = grind (arith, div-add-mod a (suc b), mod-lt)

pub div-le_of_le_mul : (n a b : ℕ) → a ≤ n * suc b → a / suc b ≤ n
div-le_of_le_mul n a b h = grind (arith, div-add-mod a (suc b), mod-lt)

pub div-lt_of_le_mul : (n a b : ℕ) → a ≤ n * suc b → a % suc b ≢ 0 → a / suc b < n
div-lt_of_le_mul n a b h e = grind (arith, div-add-mod a (suc b), mod-lt)

pub mul_le-of_le_div : (n a b : ℕ) → n ≤ a / suc b → n * suc b ≤ a
mul_le-of_le_div n a b h = grind (arith, div-add-mod a (suc b), mod-lt)

pub le_mul-of_div_lt : (n a b : ℕ) → a / suc b < n → a ≤ n * suc b
le_mul-of_div_lt n a b h = grind (arith, div-add-mod a (suc b), mod-lt)

pub le_mul-of_div_le : (n a b : ℕ) → a / suc b ≤ n → a % suc b ≡ 0 → a ≤ n * suc b
le_mul-of_div_le n a b h e = grind (arith, div-add-mod a (suc b), mod-lt)
