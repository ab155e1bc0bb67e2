-- ===== src/Typeck/Env.antt =====
-- `Env` of crates/deed-typeck/src/facts.rs, and what an expression names: the subject of a
-- predicate, a name, or the length of a name.
use deed.Prelude.{
  Bool, true, false, not, ◌&&◌, ◌||◌, Option, none, some, ◌==◌, if◌then◌else◌, length,
}
use deed.Prelude.Int.{pos}
use deed.Ast.{Expr, Exprs, nil, cons, count}
use deed.Typeck.Range.{Range, any, exactly}
use deed.Typeck.Truth.{Truth, unknown, crossed_a_module_boundary}
use deed.Typeck.Facts.{DefId, Term, Facts, get, any_length}
use deed.Typeck.Promise.{Promise, any_promise}
use text.Mathlib.Text.{◌==◌ as str_eq}

-- What the checker answers for this module: the resolver's definition of an identifier, which of
-- them is the `length` of the language, the promise of a callee and the range of a declared type.
pub record Env : Type 0 where
  pub def_of : Expr → Option DefId
  pub length : Option DefId
  pub call : Expr → Promise
  pub refined : Expr → Range

abbrev pub blind : Env
blind = record { def_of = λ _. none; length = none; call = λ _. any_promise; refined = λ _. any }

unfoldable pub is_subject : Expr → Bool
is_subject (Expr.ident x) = str_eq x.name "value"
is_subject _ = false

abbrev pub same_def : Option DefId → Option DefId → Bool
same_def (some a) (some b) = a == b
same_def none none = true
same_def _ _ = false

abbrev pub is_some : Option DefId → Bool
is_some (some _) = true
is_some none = false

unfoldable pub is_length_call : Env → Expr → Exprs → Bool
unfolding count
is_length_call env callee args =
    is_some env.length && (count args == 1 && same_def (env.def_of callee) env.length)

-- The one argument of a call of `length`.
abbrev pub first : Exprs → Option Expr
first nil = none
first (cons e _) = some e

abbrev pub Option-map_name : (DefId → Term) → Option DefId → Option Term
Option-map_name f none = none
Option-map_name f (some d) = some (f d)

abbrev pub is_first_subject : Option Expr → Bool
is_first_subject (some e) = is_subject e
is_first_subject none = false

-- Whether `expr` is `length(value)`.
unfoldable pub is_subject_length : Env → Expr → Bool
unfolding is_length_call is_subject
is_subject_length env (Expr.call callee args) =
    is_length_call env callee args && is_first_subject (first args)
is_subject_length env _ = false

abbrev pub subject_term_named : Env → Expr → Option DefId → Option Term
subject_term_named env e none = none
subject_term_named env e (some name) =
    if is_subject e
    then some (Term.name name)
    else if is_subject_length env e
    then some (Term.length name)
    else none

unfoldable pub subject_term : Facts → Env → Expr → Option Term
unfolding is_subject is_subject_length
subject_term facts env e = elim facts.subject [
  | none ↦ none
  | some subject ↦ subject_term_named env e subject.name
]

unfoldable pub subject_range : Facts → Env → Expr → Option Range
unfolding is_subject is_subject_length
subject_range facts env e = elim facts.subject [
  | none ↦ none
  | some subject ↦
      if is_subject e
      then some subject.range
      else if is_subject_length env e
      then some subject.length
      else none
]

-- The definition of an argument that is a bare name.
abbrev pub name_def : Env → Option Expr → Option DefId
name_def env (some (Expr.ident x)) = env.def_of (Expr.ident x)
name_def env _ = none

unfoldable pub term_of : Env → Expr → Option Term
unfolding is_length_call
term_of env (Expr.ident x) = Option-map_name Term.name (env.def_of (Expr.ident x))
term_of env (Expr.call callee args) =
    if is_length_call env callee args
    then Option-map_name Term.length (name_def env (first args))
    else none
term_of env _ = none

abbrev pub length_at : Facts → Option Term → Range
length_at facts (some (Term.name def)) = get facts (Term.length def)
length_at facts _ = any_length

unfoldable pub length_of : Facts → Env → Expr → Range
unfolding term_of count
length_of facts env (Expr.list elements) = exactly (pos (count elements))
length_of facts env (Expr.str value) = exactly (pos (length value))
length_of facts env e = length_at facts (term_of env e)

unfoldable pub mentions_an_opaque_call : Env → Expr → Bool
unfolding is_length_call
mentions_an_opaque_call env (Expr.unary op operand) = mentions_an_opaque_call env operand
mentions_an_opaque_call env (Expr.binary op lhs rhs span) =
    mentions_an_opaque_call env lhs || mentions_an_opaque_call env rhs
mentions_an_opaque_call env (Expr.call callee args) = not (is_length_call env callee args)
mentions_an_opaque_call env _ = false

unfoldable pub thinned_by_boundary : Env → Expr → Truth → Truth
unfolding mentions_an_opaque_call
thinned_by_boundary env clause (unknown reason) =
    if mentions_an_opaque_call env clause then unknown crossed_a_module_boundary else unknown reason
thinned_by_boundary env clause outcome = outcome
