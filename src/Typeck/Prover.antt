-- ===== src/Typeck/Prover.antt =====
-- `holds`, `compare`, `difference_of` and `unresolved_comparison` of crates/deed-typeck/src/facts.rs:
-- whether a condition holds, given what is known.
use deed.Prelude.{◌&&◌, ◌||◌, Option, none, some, if◌then◌else◌}
use deed.Prelude.Int.{ℤ, pos, ltb_ℤ, leb_ℤ}
use deed.Machine.{eqb_ℤ}
use deed.Ast.{Expr, UnaryOp, BinaryOp}
use deed.Typeck.Range.{Range, empty, bounded, meet, shift, spread}
use deed.Typeck.Truth
use deed.Typeck.Truth.{
  Truth, always, never, unknown, Reason, nothing_narrowed_this_name,
  nothing_established_this_length, nothing_names_this_value, not_a_shape_the_checker_reasons_about,
}
use deed.Typeck.Facts.{Term, Facts, difference}
use deed.Typeck.Linear
use deed.Typeck.Linear.{Linear, pair}
use deed.Typeck.Env.{Env, term_of}
use deed.Typeck.Reading.{range_of, linear}

-- `left - right` as one form.
abbrev pub difference_form : Facts → Env → Expr → Expr → Linear
difference_form facts env left right =
    Linear.add (linear facts env left) (Linear.negate (linear facts env right))

unfoldable pub difference_from : Facts → Linear → Range → Range
difference_from facts form apart = elim (pair form) [
  | some (a, b) ↦ meet apart (shift (difference facts a b) form.offset)
  | none ↦ apart
]

unfoldable pub difference_of : Facts → Env → Expr → Expr → Range
unfolding difference_from range_of linear
difference_of facts env left right =
    difference_from facts (difference_form facts env left right)
      (spread (range_of facts env left) (range_of facts env right))

unfoldable pub blame : Option Term → Option Term → Reason
blame (some (Term.length _)) _ = nothing_established_this_length
blame (some (Term.name _)) (some (Term.length _)) = nothing_established_this_length
blame none (some (Term.length _)) = nothing_established_this_length
blame (some (Term.name _)) (some (Term.name _)) = nothing_narrowed_this_name
blame (some (Term.name _)) none = nothing_narrowed_this_name
blame none (some (Term.name _)) = nothing_narrowed_this_name
blame none none = nothing_names_this_value

unfoldable pub unresolved_comparison : Env → Expr → Expr → Reason
unfolding blame
unresolved_comparison env lhs rhs = blame (term_of env lhs) (term_of env rhs)

abbrev pub verdict_eq : ℤ → ℤ → Reason → Truth
verdict_eq low high unclear =
    if eqb_ℤ low (pos 0) && eqb_ℤ high (pos 0)
    then always
    else if ltb_ℤ (pos 0) low || ltb_ℤ high (pos 0)
    then never
    else unknown unclear

-- The verdict on `x op 0`, for `x` between `low` and `high`.
unfoldable pub verdict : BinaryOp → ℤ → ℤ → Reason → Truth
verdict BinaryOp.lt low high unclear =
    if ltb_ℤ high (pos 0) then always else if leb_ℤ (pos 0) low then never else unknown unclear
verdict BinaryOp.le low high unclear =
    if leb_ℤ high (pos 0) then always else if ltb_ℤ (pos 0) low then never else unknown unclear
verdict BinaryOp.gt low high unclear =
    if ltb_ℤ (pos 0) low then always else if leb_ℤ high (pos 0) then never else unknown unclear
verdict BinaryOp.ge low high unclear =
    if leb_ℤ (pos 0) low then always else if ltb_ℤ high (pos 0) then never else unknown unclear
verdict BinaryOp.eq low high unclear = verdict_eq low high unclear
verdict BinaryOp.ne low high unclear = Truth.negate (verdict_eq low high unclear)
verdict _ low high unclear = unknown not_a_shape_the_checker_reasons_about

unfoldable pub compare_ranges : BinaryOp → Range → Range → Range → Reason → Truth
unfolding verdict
compare_ranges op empty right apart unclear = never
compare_ranges op left empty apart unclear = never
compare_ranges op left right empty unclear = never
compare_ranges op left right (bounded low high) unclear = verdict op low high unclear

unfoldable pub compare : BinaryOp → Facts → Env → Expr → Expr → Truth
unfolding compare_ranges range_of difference_of unresolved_comparison
compare op facts env lhs rhs =
    compare_ranges op (range_of facts env lhs) (range_of facts env rhs)
      (difference_of facts env lhs rhs) (unresolved_comparison env lhs rhs)

unfoldable pub holds : Facts → Env → Expr → Truth
unfolding compare
holds facts env (Expr.bool value) = Truth.of value
holds facts env (Expr.unary UnaryOp.not operand) = Truth.negate (holds facts env operand)
holds facts env (Expr.binary BinaryOp.and lhs rhs span) =
    Truth.and (holds facts env lhs) (holds facts env rhs)
holds facts env (Expr.binary BinaryOp.or lhs rhs span) =
    Truth.or (holds facts env lhs) (holds facts env rhs)
holds facts env (Expr.binary op lhs rhs span) = compare op facts env lhs rhs
holds facts env _ = unknown not_a_shape_the_checker_reasons_about
