-- ===== src/Typeck/Soundness/Verdict.antt =====
-- The verdict on a comparison, from the range of the difference of its operands.
use deed.Prelude.{◌≡◌, Bool, true, false, refl, not, arith}
use deed.Prelude.Int.{ℤ, ◌-ℤ◌, -ℤ_parts}
use mathlib.Core.Path.{subst}
use deed.Machine.{clamp, eqb_ℤ}
use deed.Ast.{BinaryOp}
use deed.Interp.{Value, value, int_op}
use deed.Typeck.Range.{bounded}
use deed.Typeck.Range.Member.{In}
use deed.Typeck.Truth.{Agrees, Reason, negate-Agrees}
use deed.Typeck.Truth
use deed.Typeck.Prover.{verdict, verdict_eq}

pub same_bool : {a b : Bool} → value (Value.bool a) ≡ value (Value.bool b) → a ≡ b
same_bool h = cc

verdict_eq-Agrees :
    (low high x y : ℤ) (r : Reason)
    → In (clamp (x -ℤ y)) (bounded low high)
    → Agrees (verdict_eq low high r) (eqb_ℤ x y)
unfolding clamp
verdict_eq-Agrees low high x y r h = ground (arith, -ℤ_parts x y, h.0, h.1)

pub verdict-Agrees :
    (op : BinaryOp) (low high x y : ℤ) (r : Reason) (b : Bool)
    → In (clamp (x -ℤ y)) (bounded low high)
    → int_op op x y ≡ value (Value.bool b)
    → Agrees (verdict op low high r) b
unfolding verdict int_op clamp
verdict-Agrees BinaryOp.lt low high x y r b h e = ground (arith, -ℤ_parts x y, h.0, h.1)
verdict-Agrees BinaryOp.le low high x y r b h e = ground (arith, -ℤ_parts x y, h.0, h.1)
verdict-Agrees BinaryOp.gt low high x y r b h e = ground (arith, -ℤ_parts x y, h.0, h.1)
verdict-Agrees BinaryOp.ge low high x y r b h e = ground (arith, -ℤ_parts x y, h.0, h.1)
verdict-Agrees BinaryOp.eq low high x y r b h e =
    subst (Agrees (verdict_eq low high r)) (same_bool e) (verdict_eq-Agrees low high x y r h)
verdict-Agrees BinaryOp.ne low high x y r b h e =
    subst (Agrees (Truth.negate (verdict_eq low high r))) (same_bool e)
      (negate-Agrees _ _ (verdict_eq-Agrees low high x y r h))
verdict-Agrees op low high x y r b h e = tt

pub not_not : (b : Bool) → not (not b) ≡ b
not_not true = refl
not_not false = refl
