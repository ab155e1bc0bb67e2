-- ===== src/Typeck/Contract.antt =====
-- `promised_by`, `collect_scaled`, `scaled_from`, `admitted_by`, `range_admitted_by`,
-- `range_of_subject`, `apply_subject_narrowing`, `narrow_subject` and `overflowing` of
-- crates/deed-typeck/src/facts.rs: what a contract clause or a refinement predicate says.
use deed.Prelude.{
  String, ℕ, suc, Bool, true, false, not, ◌&&◌, Option, none, some, List, [], ◌∷◌, ◌==◌,
  if◌then◌else◌,
}
use deed.Prelude.Int.{ℤ, pos, leb_ℤ}
use deed.Machine.{i64_min, i64_max, checked_neg, checked_add, checked_sub, eqb_ℤ}
use deed.Ast.{Expr, UnaryOp, BinaryOp, Span}
use deed.Tables.{sorted_get, sorted_remove}
use deed.Typeck.Range.{Range, any, between, bounds, meet}
use deed.Typeck.Facts.{DefId, Term, term_key, Facts, Subject, get, subject_of}
use deed.Typeck.Facts
use deed.Typeck.Linear.{Linear, Terms}
use deed.Typeck.Promise.{Scaled, Guarantee, index_key, any_promise, record_scaled}
use deed.Typeck.Env.{Env, blind, is_length_call, first}
use deed.Typeck.Reading.{range_of}
use deed.Typeck.Prover.{difference_form}
use deed.Typeck.Narrow.{flipped, effective, bound_from, apply_narrowing, up_to, from}
use text.Mathlib.Text.{◌==◌ as str_eq}

-- The parameters that a contract may relate its subject to, by index, with the definitions
-- invented for them.
unfoldable pub contract_params : String → ℕ → List String → List (ℕ × DefId × String)
contract_params subject index [] = []
contract_params subject index (name ∷ names) =
    let rest = contract_params subject (suc index) names in
    if str_eq name subject then rest else (index, suc index, name) ∷ rest

unfoldable pub find_param : String → List (ℕ × DefId × String) → Option DefId
find_param name [] = none
find_param name ((index, def, other) ∷ params) =
    let rest = find_param name params in if str_eq other name then some def else rest

unfoldable pub contract_def : String → List (ℕ × DefId × String) → Expr → Option DefId
unfolding find_param
contract_def subject params (Expr.ident x) =
    if str_eq x.name subject then some 0 else find_param x.name params
contract_def subject params _ = none

abbrev pub contract_env : String → List (ℕ × DefId × String) → Env
contract_env subject params = record {
  def_of = contract_def subject params;
  length = none;
  call = λ _. any_promise;
  refined = λ _. any;
}

abbrev pub index_of_def : DefId → List (ℕ × DefId × String) → Option ℕ
index_of_def def [] = none
index_of_def def ((index, other, _) ∷ params) =
    if other == def then some index else index_of_def def params

abbrev record_scaled? : List (ℕ × Scaled) → Option ℕ → Option ℤ → Option Range → List (ℕ × Scaled)
record_scaled? offsets (some index) (some factor) (some range) =
    record_scaled offsets index (record { factor = factor; range = range })
record_scaled? offsets _ _ _ = offsets

-- The one other term of the comparison, when `result` is counted once.
unfoldable pub scaled_argument : Terms → DefId → Option (DefId × ℤ)
scaled_argument terms subject = elim (sorted_get (Term.name subject) terms) [
  | none ↦ none
  | some count ↦
      if not (eqb_ℤ count (pos 1)) then none else elim (sorted_remove (Term.name subject) terms) [
        | [] ↦ none
        | (Term.length _, _) ∷ _ ↦ none
        | (Term.name def, factor) ∷ [] ↦ some (def, factor)
        | (Term.name def, factor) ∷ _ ∷ _ ↦ none
      ]
]

unfoldable pub scaled_from :
    BinaryOp → Linear → DefId → List (ℕ × DefId × String) → List (ℕ × Scaled) → List (ℕ × Scaled)
unfolding scaled_argument
scaled_from op form subject params offsets = elim (scaled_argument form.terms subject) [
  | none ↦ offsets
  | some (def, count) ↦
      record_scaled? offsets (index_of_def def params) (checked_neg count)
        (bound_from op form.offset)
]

abbrev scaled_flipped :
    Option BinaryOp
    → Linear
    → DefId
    → List (ℕ × DefId × String)
    → List (ℕ × Scaled)
    → List (ℕ × Scaled)
scaled_flipped none form subject params offsets = offsets
scaled_flipped (some op) form subject params offsets = scaled_from op form subject params offsets

abbrev collect_comparison :
    Option BinaryOp
    → Expr
    → Expr
    → Facts
    → Env
    → DefId
    → List (ℕ × DefId × String)
    → List (ℕ × Scaled)
    → List (ℕ × Scaled)
collect_comparison none lhs rhs facts env subject params offsets = offsets
collect_comparison (some op) lhs rhs facts env subject params offsets =
    scaled_flipped (flipped op) (difference_form facts env rhs lhs) subject params
      (scaled_from op (difference_form facts env lhs rhs) subject params offsets)

unfoldable pub collect_scaled :
    Expr
    → Facts
    → Env
    → DefId
    → List (ℕ × DefId × String)
    → List (ℕ × Scaled)
    → Bool
    → List (ℕ × Scaled)
unfolding scaled_from
collect_scaled (Expr.unary UnaryOp.not operand) facts env subject params offsets when_true =
    collect_scaled operand facts env subject params offsets (not when_true)
collect_scaled (Expr.binary BinaryOp.and lhs rhs span) facts env subject params offsets true =
    collect_scaled rhs facts env subject params
      (collect_scaled lhs facts env subject params offsets true) true
collect_scaled (Expr.binary BinaryOp.or lhs rhs span) facts env subject params offsets false =
    collect_scaled rhs facts env subject params
      (collect_scaled lhs facts env subject params offsets false) false
collect_scaled (Expr.binary op lhs rhs span) facts env subject params offsets when_true =
    collect_comparison (effective op when_true) lhs rhs facts env subject params offsets
collect_scaled _ facts env subject params offsets when_true = offsets

unfoldable pub promised_by : Expr → String → List String → Guarantee
unfolding collect_scaled contract_params
promised_by condition subject names =
    let params = contract_params subject 0 names in
    let env = contract_env subject params in
    let facts = apply_narrowing condition Facts.new env true in
    record {
      range = get facts (Term.name 0);
      offsets = collect_scaled condition facts env 0 params [] true;
    }

-- Which half of the subject a comparison is about.
pub data About : Type 0 where
  value length : About

abbrev names_subject : String → Expr → Bool
names_subject subject (Expr.ident x) = str_eq x.name subject
names_subject subject _ = false

abbrev names_subject? : String → Option Expr → Bool
names_subject? subject (some e) = names_subject subject e
names_subject? subject none = false

unfoldable pub about : Env → String → Expr → Option About
about env subject (Expr.ident x) = if str_eq x.name subject then some About.value else none
about env subject (Expr.call callee args) =
    if is_length_call env callee args && names_subject? subject (first args)
    then some About.length
    else none
about env subject _ = none

unfoldable pub subject_bound : BinaryOp → ℤ → ℤ → Option Range
subject_bound BinaryOp.lt low high = some (up_to (checked_sub high (pos 1)))
subject_bound BinaryOp.le low high = some (between i64_min high)
subject_bound BinaryOp.gt low high = some (from (checked_add low (pos 1)))
subject_bound BinaryOp.ge low high = some (between low i64_max)
subject_bound BinaryOp.eq low high = some (between low high)
subject_bound _ low high = none

abbrev or_any : Option Subject → Subject
or_any (some subject) = subject
or_any none = subject_of any

unfoldable pub met : Subject → About → Range → Subject
met current About.value narrowed = record current { range = meet current.range narrowed }
met current About.length narrowed = record current { length = meet current.length narrowed }

unfoldable pub narrow_subject : BinaryOp → Expr → Expr → Facts → Env → String → Facts
unfolding about subject_bound met
narrow_subject op left right facts env subject = elim (about env subject left) [
  | none ↦ facts
  | some half ↦ elim (bounds (range_of facts env right)) [
    | none ↦ facts
    | some (low, high) ↦ elim (subject_bound op low high) [
      | none ↦ facts
      | some narrowed ↦ record facts { subject = some (met (or_any facts.subject) half narrowed) }
    ]
  ]
]

abbrev narrow_flipped_subject : Option BinaryOp → Expr → Expr → Facts → Env → String → Facts
narrow_flipped_subject none left right facts env subject = facts
narrow_flipped_subject (some op) left right facts env subject =
    narrow_subject op left right facts env subject

abbrev narrow_effective_subject : Option BinaryOp → Expr → Expr → Facts → Env → String → Facts
narrow_effective_subject none lhs rhs facts env subject = facts
narrow_effective_subject (some op) lhs rhs facts env subject =
    narrow_flipped_subject (flipped op) rhs lhs (narrow_subject op lhs rhs facts env subject) env
      subject

unfoldable pub apply_subject_narrowing : Expr → Facts → Env → String → Bool → Facts
unfolding narrow_subject
apply_subject_narrowing (Expr.unary UnaryOp.not operand) facts env subject when_true =
    apply_subject_narrowing operand facts env subject (not when_true)
apply_subject_narrowing (Expr.binary BinaryOp.and lhs rhs span) facts env subject true =
    apply_subject_narrowing rhs (apply_subject_narrowing lhs facts env subject true) env subject
      true
apply_subject_narrowing (Expr.binary op lhs rhs span) facts env subject when_true =
    narrow_effective_subject (effective op when_true) lhs rhs facts env subject
apply_subject_narrowing _ facts env subject when_true = facts

unfoldable pub admitted_by : Expr → Env → Subject
unfolding apply_subject_narrowing
admitted_by predicate env =
    or_any (apply_subject_narrowing predicate Facts.new env "value" true).subject

unfoldable pub range_admitted_by : Expr → Range
unfolding admitted_by
range_admitted_by predicate = (admitted_by predicate blind).range

unfoldable pub range_of_subject : Expr → String → Range
unfolding apply_subject_narrowing
range_of_subject condition subject =
    (or_any (apply_subject_narrowing condition Facts.new blind subject true).subject).range

abbrev pub innermost : Option Span → Option Span → Option Span → Option Span
innermost (some span) right own = some span
innermost none (some span) own = some span
innermost none none own = own

abbrev pub holds_zero : Option (ℤ × ℤ) → Span → Option Span
holds_zero none span = none
holds_zero (some (low, high)) span =
    if leb_ℤ low (pos 0) && leb_ℤ (pos 0) high then some span else none

unfoldable pub divisor_zero : BinaryOp → Range → Span → Option Span
unfolding bounds
divisor_zero BinaryOp.div range span = holds_zero (bounds range) span
divisor_zero BinaryOp.rem range span = holds_zero (bounds range) span
divisor_zero _ range span = none

unfoldable pub overflowing : Facts → Env → Expr → Option Span
unfolding divisor_zero
overflowing facts env (Expr.unary UnaryOp.neg operand) = overflowing facts env operand
overflowing facts env (Expr.binary op lhs rhs span) =
    innermost (overflowing facts env lhs) (overflowing facts env rhs)
      (divisor_zero op (range_of facts env rhs) span)
overflowing facts env _ = none
