-- ===== src/Typeck/Soundness/Conditions.antt =====
-- The values of the parts of a condition, from the value of the whole.
use deed.Prelude.{◌≡◌, refl, sym, Bool, true, false, not, ◌⊎◌, ◌∙◌, arith}
use deed.Prelude.Int.{ℤ}
use deed.Ast.{UnaryOp, BinaryOp}
use deed.Interp.{
  Value, Outcome, value, apply_unary, apply_binary, apply_op, int_op, same_value, and_then, or_else,
}

-- The value of a condition made of others.
pub not_value :
    (a : Outcome) (b : Bool)
    → apply_unary UnaryOp.not a ≡ value (Value.bool b)
    → a ≡ value (Value.bool (not b))
unfolding apply_unary
not_value a b e = ground arith

pub and_value :
    (p q : Outcome) (b : Bool)
    → and_then p q ≡ value (Value.bool b)
    → ((p ≡ value (Value.bool false)) × (b ≡ false))
      ⊎ ((p ≡ value (Value.bool true)) × (q ≡ value (Value.bool b)))
unfolding and_then
and_value p q b e = ground arith

pub or_value :
    (p q : Outcome) (b : Bool)
    → or_else p q ≡ value (Value.bool b)
    → ((p ≡ value (Value.bool true)) × (b ≡ true))
      ⊎ ((p ≡ value (Value.bool false)) × (q ≡ value (Value.bool b)))
unfolding or_else
or_value p q b e = ground arith

-- Both operands of an operation that comes out have values.
pub operand_values :
    (op : BinaryOp) (p q : Outcome) (v : Value)
    → apply_binary op p q ≡ value v
    → (a : Value) × (b : Value) × (p ≡ value a) × (q ≡ value b)
unfolding apply_binary
operand_values op (value a) (value b) v e = (a, b, refl, refl)
operand_values op (value a) q v e = absurd (ground arith)
operand_values op p q v e = absurd (ground arith)

int_operation : (op : BinaryOp) (x y : ℤ) → apply_op op (Value.int x) (Value.int y) ≡ int_op op x y
unfolding apply_op int_op same_value
int_operation op x y = ground arith

pub int_result :
    (op : BinaryOp) (x y : ℤ) (p q o : Outcome)
    → p ≡ value (Value.int x)
    → q ≡ value (Value.int y)
    → apply_binary op p q ≡ o
    → int_op op x y ≡ o
int_result op x y p q o hp hq e =
    sym (int_operation op x y) ∙ unfold apply_binary in rw (hp, hq) at e
