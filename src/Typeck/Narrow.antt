-- ===== src/Typeck/Narrow.antt =====
-- `narrowed` and its parts in crates/deed-typeck/src/facts.rs: what a condition says about the names
-- in it, when it holds or when it fails.
use deed.Prelude.{Bool, true, false, not, Option, none, some, if◌then◌else◌}
use deed.Prelude.Int.{ℤ, pos}
use deed.Machine.{i64_min, i64_max, checked_neg, checked_add, checked_sub, eqb_ℤ}
use deed.Ast.{Expr, UnaryOp, BinaryOp}
use deed.Typeck.Range.{Range, empty, bounded, between, divided}
use deed.Typeck.Facts.{Term, Facts, get, narrow, narrow_difference, narrow_total}
use deed.Typeck.Linear
use deed.Typeck.Linear.{Linear, pair, scaled_name}
use deed.Typeck.Env.{Env, term_of}
use deed.Typeck.Reading.{range_of}
use deed.Typeck.Prover.{difference_form}

unfoldable pub negated : BinaryOp → Option BinaryOp
negated BinaryOp.lt = some BinaryOp.ge
negated BinaryOp.le = some BinaryOp.gt
negated BinaryOp.gt = some BinaryOp.le
negated BinaryOp.ge = some BinaryOp.lt
negated BinaryOp.eq = some BinaryOp.ne
negated BinaryOp.ne = some BinaryOp.eq
negated _ = none

unfoldable pub flipped : BinaryOp → Option BinaryOp
flipped BinaryOp.lt = some BinaryOp.gt
flipped BinaryOp.le = some BinaryOp.ge
flipped BinaryOp.gt = some BinaryOp.lt
flipped BinaryOp.ge = some BinaryOp.le
flipped BinaryOp.eq = some BinaryOp.eq
flipped BinaryOp.ne = some BinaryOp.ne
flipped _ = none

abbrev pub up_to : Option ℤ → Range
up_to (some bound) = between i64_min bound
up_to none = empty

abbrev pub from : Option ℤ → Range
from (some bound) = between bound i64_max
from none = empty

abbrev pub bound_at : BinaryOp → ℤ → ℤ → Option Range
bound_at BinaryOp.lt least most = some (up_to (checked_sub most (pos 1)))
bound_at BinaryOp.le least most = some (between i64_min most)
bound_at BinaryOp.gt least most = some (from (checked_add least (pos 1)))
bound_at BinaryOp.ge least most = some (between least i64_max)
bound_at BinaryOp.eq least most = some (between least most)
bound_at _ least most = none

abbrev pub bound_between : BinaryOp → Option ℤ → Option ℤ → Option Range
bound_between op (some least) (some most) = bound_at op least most
bound_between op _ _ = none

unfoldable pub bound_from : BinaryOp → Range → Option Range
bound_from op empty = none
bound_from op (bounded low high) = bound_between op (checked_neg high) (checked_neg low)

unfoldable pub narrow_relation_form : Facts → Linear → Option Range → Facts
narrow_relation_form facts form none = facts
narrow_relation_form facts form (some bound) = elim (pair form) [
  | some (a, b) ↦ narrow_difference facts a b bound
  | none ↦ elim (Linear.total form) [ some (a, b) ↦ narrow_total facts a b bound | none ↦ facts ]
]

unfoldable pub narrow_relation : BinaryOp → Expr → Expr → Facts → Env → Facts
unfolding narrow_relation_form bound_from
narrow_relation op left right facts env =
    let form = difference_form facts env left right in
    narrow_relation_form facts form (bound_from op form.offset)

abbrev pub narrow_divided : Facts → Term → Option Range → Facts
narrow_divided facts term (some narrowed) = narrow facts term narrowed
narrow_divided facts term none = facts

abbrev pub divided? : Option Range → ℤ → Option Range
divided? (some bound) count = divided bound count
divided? none count = none

unfoldable pub narrow_scaled_form : Facts → Option (Term × ℤ) → Option Range → Facts
narrow_scaled_form facts none bound = facts
narrow_scaled_form facts (some (term, count)) bound =
    narrow_divided facts term (divided? bound count)

unfoldable pub narrow_scaled : BinaryOp → Expr → Expr → Facts → Env → Facts
unfolding narrow_scaled_form bound_from
narrow_scaled op left right facts env =
    let form = difference_form facts env left right in
    narrow_scaled_form facts (scaled_name form) (bound_from op form.offset)

-- What is left of `known` without `value`, when that is still a range.
unfoldable pub without_edge : Range → Range → Option Range
without_edge (bounded low high) (bounded known_low known_high) =
    if not (eqb_ℤ low high)
    then none
    else if eqb_ℤ low known_low
    then some (elim (checked_add known_low (pos 1)) [
      | some bound ↦ between bound known_high
      | none ↦ empty
    ])
    else if eqb_ℤ high known_high
    then some (elim (checked_sub known_high (pos 1)) [
      | some bound ↦ between known_low bound
      | none ↦ empty
    ])
    else none
without_edge _ _ = none

abbrev pub is_ne : BinaryOp → Bool
is_ne BinaryOp.ne = true
is_ne _ = false

unfoldable pub rule_out : Facts → Option Term → Range → Facts
unfolding without_edge
rule_out facts none value = facts
rule_out facts (some term) value = narrow_divided facts term (without_edge value (get facts term))

unfoldable pub rule_out_a_value : BinaryOp → Expr → Expr → Facts → Env → Facts
unfolding rule_out
rule_out_a_value op left right facts env =
    if is_ne op then rule_out facts (term_of env left) (range_of facts env right) else facts

abbrev pub rule_out_flipped : Option BinaryOp → Expr → Expr → Facts → Env → Facts
rule_out_flipped (some op) left right facts env = rule_out_a_value op right left facts env
rule_out_flipped none left right facts env = facts

unfoldable pub narrow_comparison : BinaryOp → Expr → Expr → Facts → Env → Facts
unfolding rule_out_a_value narrow_scaled narrow_relation flipped
narrow_comparison op lhs rhs facts env =
    let ruled_out = rule_out_a_value op lhs rhs facts env in
    let both_ways = rule_out_flipped (flipped op) lhs rhs ruled_out env in
    let scaled = narrow_scaled op lhs rhs both_ways env in narrow_relation op lhs rhs scaled env

abbrev pub effective : BinaryOp → Bool → Option BinaryOp
effective op true = some op
effective op false = negated op

unfoldable pub narrow_effective : Option BinaryOp → Expr → Expr → Facts → Env → Facts
unfolding narrow_comparison
narrow_effective none lhs rhs facts env = facts
narrow_effective (some op) lhs rhs facts env = narrow_comparison op lhs rhs facts env

unfoldable pub apply_narrowing : Expr → Facts → Env → Bool → Facts
unfolding narrow_effective negated
apply_narrowing (Expr.unary UnaryOp.not operand) facts env when_true =
    apply_narrowing operand facts env (not when_true)
apply_narrowing (Expr.binary BinaryOp.and lhs rhs span) facts env true =
    apply_narrowing rhs (apply_narrowing lhs facts env true) env true
apply_narrowing (Expr.binary BinaryOp.or lhs rhs span) facts env false =
    apply_narrowing rhs (apply_narrowing lhs facts env false) env false
apply_narrowing (Expr.binary op lhs rhs span) facts env when_true =
    narrow_effective (effective op when_true) lhs rhs facts env
apply_narrowing _ facts env when_true = facts

unfoldable pub narrowed : Expr → Facts → Env → Bool → Facts
unfolding apply_narrowing
narrowed condition facts env when_true = apply_narrowing condition facts env when_true
