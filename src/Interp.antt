-- ===== src/Interp.antt =====
-- The arithmetic, the comparisons and the connectives of `eval_inner` and `binary` in
-- crates/deed-interp/src/interp.rs, on expressions whose operators have their built-in meaning.
-- What a name, a call, a field, a list, a `?` or a statement evaluates to is a parameter, `leaf`.
use deed.Prelude.{
  ◌++◌, ◌||◌, ltb, ℕ, Bool, true, false, not, Option, none, some, List, [], ◌∷◌, ◌&&◌, ◌==◌,
}
use deed.Prelude.Int.{ℤ, ltb_ℤ, leb_ℤ}
use deed.Machine.{checked_add, checked_sub, checked_mul, checked_neg, eqb_ℤ}
use deed.Machine.Division.{checked_div, checked_rem}
use deed.Ast.{Expr, UnaryOp, BinaryOp, int_limit}

pub data Value : Type 0 where
  int : ℤ → Value
  str : List ℕ → Value
  bool : Bool → Value
  other : ℕ → Value

-- A value, one of the two failures of an operator, or a signal of something else.
pub data Outcome : Type 0 where
  value : Value → Outcome
  overflow not_runnable : Outcome
  signal : ℕ → Outcome

abbrev pub same_codes : List ℕ → List ℕ → Bool
same_codes [] [] = true
same_codes (a ∷ u) (b ∷ v) = a == b && same_codes u v
same_codes _ _ = false

unfoldable pub same_value : Value → Value → Bool
same_value (Value.int a) (Value.int b) = eqb_ℤ a b
same_value (Value.bool true) (Value.bool b) = b
same_value (Value.bool false) (Value.bool b) = not b
same_value (Value.str a) (Value.str b) = same_codes a b
same_value (Value.other a) (Value.other b) = a == b
same_value _ _ = false

abbrev pub int_or_overflow : Option ℤ → Outcome
int_or_overflow (some n) = value (Value.int n)
int_or_overflow none = overflow

abbrev pub holds_as : Bool → Outcome
holds_as b = value (Value.bool b)

unfoldable pub int_op : BinaryOp → ℤ → ℤ → Outcome
int_op BinaryOp.add a b = int_or_overflow (checked_add a b)
int_op BinaryOp.sub a b = int_or_overflow (checked_sub a b)
int_op BinaryOp.mul a b = int_or_overflow (checked_mul a b)
int_op BinaryOp.div a b = int_or_overflow (checked_div a b)
int_op BinaryOp.rem a b = int_or_overflow (checked_rem a b)
int_op BinaryOp.lt a b = holds_as (ltb_ℤ a b)
int_op BinaryOp.le a b = holds_as (leb_ℤ a b)
int_op BinaryOp.gt a b = holds_as (ltb_ℤ b a)
int_op BinaryOp.ge a b = holds_as (leb_ℤ b a)
int_op BinaryOp.eq a b = holds_as (eqb_ℤ a b)
int_op BinaryOp.ne a b = holds_as (not (eqb_ℤ a b))
int_op BinaryOp.and a b = not_runnable
int_op BinaryOp.or a b = not_runnable

-- The order of strings, by code points, which is the order of their bytes in UTF-8.
unfoldable pub before_codes : List ℕ → List ℕ → Bool
before_codes _ [] = false
before_codes [] (b ∷ v) = true
before_codes (a ∷ u) (b ∷ v) = ltb a b || (a == b && before_codes u v)

unfoldable pub str_op : BinaryOp → List ℕ → List ℕ → Outcome
unfolding before_codes
str_op BinaryOp.add a b = value (Value.str (a ++ b))
str_op BinaryOp.lt a b = holds_as (before_codes a b)
str_op BinaryOp.le a b = holds_as (not (before_codes b a))
str_op BinaryOp.gt a b = holds_as (before_codes b a)
str_op BinaryOp.ge a b = holds_as (not (before_codes a b))
str_op _ a b = not_runnable

unfoldable pub apply_op : BinaryOp → Value → Value → Outcome
unfolding int_op same_value str_op
apply_op BinaryOp.eq a b = holds_as (same_value a b)
apply_op BinaryOp.ne a b = holds_as (not (same_value a b))
apply_op op (Value.str a) (Value.str b) = str_op op a b
apply_op op (Value.int a) (Value.int b) = int_op op a b
apply_op op _ _ = not_runnable

abbrev pub unary_value : UnaryOp → Value → Outcome
unary_value UnaryOp.neg (Value.int n) = int_or_overflow (checked_neg n)
unary_value UnaryOp.not (Value.bool b) = holds_as (not b)
unary_value _ _ = not_runnable

unfoldable pub apply_unary : UnaryOp → Outcome → Outcome
apply_unary op (value v) = unary_value op v
apply_unary op failure = failure

-- `condition`: a Bool, or a failure.
abbrev pub condition : Outcome → Outcome
condition (value (Value.bool b)) = value (Value.bool b)
condition (value _) = not_runnable
condition failure = failure

unfoldable pub and_then : Outcome → Outcome → Outcome
and_then (value (Value.bool true)) right = condition right
and_then (value (Value.bool false)) right = holds_as false
and_then (value _) right = not_runnable
and_then failure right = failure

unfoldable pub or_else : Outcome → Outcome → Outcome
or_else (value (Value.bool true)) right = holds_as true
or_else (value (Value.bool false)) right = condition right
or_else (value _) right = not_runnable
or_else failure right = failure

unfoldable pub apply_binary : BinaryOp → Outcome → Outcome → Outcome
unfolding apply_op
apply_binary op (value a) (value b) = apply_op op a b
apply_binary op (value a) failure = failure
apply_binary op failure right = failure

abbrev pub limit_or_leaf : Option ℤ → Outcome → Outcome
limit_or_leaf (some limit) found = value (Value.int limit)
limit_or_leaf none found = found

-- What the evaluation takes from elsewhere.
pub record Leaves : Type 0 where
  pub leaf : Expr → Outcome

unfoldable pub eval : Leaves → Expr → Outcome
unfolding apply_unary and_then or_else apply_binary int_limit
eval ls (Expr.int n) = value (Value.int n)
eval ls (Expr.str s) = value (Value.str s)
eval ls (Expr.bool b) = value (Value.bool b)
eval ls (Expr.field receiver name) =
    limit_or_leaf (int_limit (Expr.field receiver name)) (ls.leaf (Expr.field receiver name))
eval ls (Expr.unary op operand) = apply_unary op (eval ls operand)
eval ls (Expr.binary BinaryOp.and lhs rhs span) = and_then (eval ls lhs) (eval ls rhs)
eval ls (Expr.binary BinaryOp.or lhs rhs span) = or_else (eval ls lhs) (eval ls rhs)
eval ls (Expr.binary op lhs rhs span) = apply_binary op (eval ls lhs) (eval ls rhs)
eval ls e = ls.leaf e
