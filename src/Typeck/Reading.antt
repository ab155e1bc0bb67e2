-- ===== src/Typeck/Reading.antt =====
-- `range_of`, `interval_of`, `linear`, `related` and `ok_range_of` of
-- crates/deed-typeck/src/facts.rs. The source calls the three readers of one expression from one
-- another; here one recursion reads an expression both ways, as an interval and as a linear form,
-- and the readers are the parts of what it returns.
use deed.Prelude.{Bool, true, false, Option, none, some, List, [], ◌∷◌, if◌then◌else◌}
use deed.Prelude.Int.{ℤ}
use deed.Ast.{Expr, Exprs, UnaryOp, BinaryOp, nil, cons, int_limit}
use deed.Typeck.Range.{Range, any, exactly, meet}
use deed.Typeck.Range
use deed.Typeck.Facts.{Term, Facts, get, difference, total}
use deed.Typeck.Linear
use deed.Typeck.Linear.{Linear, constant, single, scale, constant_value, pair}
use deed.Typeck.Promise.{applied}
use deed.Typeck.Env.{Env, subject_term, subject_range, term_of, length_of, is_length_call, first}

pub record Reading : Type 0 where
  pub interval : Range
  pub form : Linear

unfoldable pub both : Range → Reading
unfolding constant
both range = record { interval = range; form = constant range }

abbrev pub meet? : Range → Option Range → Range
meet? known (some range) = meet known range
meet? known none = known

-- The subject of a predicate is read before the shape of the expression is looked at.
unfoldable pub subject_first : Facts → Env → Expr → Reading → Reading
subject_first facts env e shape = elim (subject_term facts env e) [
  | some term ↦ record {
    interval = meet? (get facts term) (subject_range facts env e);
    form = single term;
  }
  | none ↦ elim (subject_range facts env e) [ some range ↦ both range | none ↦ shape ]
]

unfoldable pub named : Facts → Option Term → Range → Reading
named facts (some term) range = record { interval = range; form = single term }
named facts none range = both range

abbrev pub known_or_any : Facts → Option Term → Range
known_or_any facts (some term) = get facts term
known_or_any facts none = any

abbrev pub measured : Facts → Env → Option Expr → Range → Range
measured facts env (some arg) promised = meet promised (length_of facts env arg)
measured facts env none promised = promised

abbrev pub limit_or : Option ℤ → Range → Range
limit_or (some value) refined = exactly value
limit_or none refined = refined

abbrev pub is_sum : Expr → Bool
is_sum (Expr.binary BinaryOp.add _ _ _) = true
is_sum (Expr.binary BinaryOp.sub _ _ _) = true
is_sum _ = false

-- What the facts about a pair say about a form that is its difference or its total.
unfoldable pub related_form : Facts → Linear → Option Range
related_form facts form = elim (pair form) [
  | some (a, b) ↦ some (Range.add (difference facts a b) form.offset)
  | none ↦ elim (Linear.total form) [
    | some (a, b) ↦ some (Range.add (total facts a b) form.offset)
    | none ↦ none
  ]
]

unfoldable pub related : Facts → Expr → Linear → Option Range
unfolding related_form
related facts e form = if is_sum e then related_form facts form else none

unfoldable pub range_from : Facts → Expr → Reading → Range
unfolding related
range_from facts e reading = meet? reading.interval (related facts e reading.form)

abbrev pub binary_interval : BinaryOp → Range → Range → Range
binary_interval BinaryOp.add left right = Range.add left right
binary_interval BinaryOp.sub left right = Range.sub left right
binary_interval BinaryOp.mul left right = Range.mul left right
binary_interval _ left right = any

abbrev pub scaled_or : Option Linear → Range → Linear
scaled_or (some form) interval = form
scaled_or none interval = constant interval

abbrev pub scaled_form : Option ℤ → Option ℤ → Linear → Linear → Option Linear
scaled_form (some factor) none left right = scale right factor
scaled_form none (some factor) left right = scale left factor
scaled_form _ _ left right = none

unfoldable pub binary_form : BinaryOp → Linear → Linear → Range → Linear
binary_form BinaryOp.add left right interval = Linear.add left right
binary_form BinaryOp.sub left right interval = Linear.add left (Linear.negate right)
binary_form BinaryOp.mul left right interval =
    scaled_or (scaled_form (constant_value left) (constant_value right) left right) interval
binary_form _ left right interval = constant interval

unfoldable pub binary_reading : BinaryOp → Range → Range → Linear → Linear → Reading
unfolding binary_form
binary_reading op left right l r =
    let interval = binary_interval op left right in
    record { interval = interval; form = binary_form op l r interval }

unfoldable mutual
  pub read : Facts → Env → Expr → Reading
  read facts env (Expr.int value) = subject_first facts env (Expr.int value) (both (exactly value))
  read facts env (Expr.str value) = subject_first facts env (Expr.str value) (both any)
  read facts env (Expr.bool value) = subject_first facts env (Expr.bool value) (both any)
  read facts env (Expr.ident x) =
      let term = term_of env (Expr.ident x) in
      subject_first facts env (Expr.ident x) (named facts term (known_or_any facts term))
  read facts env (Expr.field receiver name) =
      let e = Expr.field receiver name in
      subject_first facts env e (both (limit_or (int_limit e) (env.refined e)))
  read facts env (Expr.call callee args) =
      let e = Expr.call callee args in
      let promised = applied (env.call callee).value (read_all facts env args) in
      let interval =
        if is_length_call env callee args
        then measured facts env (first args) promised
        else promised in
      subject_first facts env e (named facts (term_of env e) interval)
  read facts env (Expr.list elements) = subject_first facts env (Expr.list elements) (both any)
  read facts env (Expr.unary UnaryOp.neg operand) =
      let inner = read facts env operand in
      subject_first facts env (Expr.unary UnaryOp.neg operand) (record {
        interval = Range.negate (range_from facts operand inner);
        form = Linear.negate inner.form;
      })
  read facts env (Expr.unary UnaryOp.not operand) =
      subject_first facts env (Expr.unary UnaryOp.not operand) (both any)
  read facts env (Expr.binary op lhs rhs span) =
      let left = read facts env lhs in
      let right = read facts env rhs in
      subject_first facts env (Expr.binary op lhs rhs span) (
        binary_reading op (range_from facts lhs left) (range_from facts rhs right) left.form
          right.form)
  read facts env (Expr.try (Expr.call callee args)) =
      subject_first facts env (Expr.try (Expr.call callee args))
        (both (applied (env.call callee).ok (read_all facts env args)))
  read facts env (Expr.try operand) = subject_first facts env (Expr.try operand) (both any)
  read facts env (Expr.other n) = subject_first facts env (Expr.other n) (both any)

  pub read_all : Facts → Env → Exprs → List Range
  read_all facts env nil = []
  read_all facts env (cons e es) = range_from facts e (read facts env e) ∷ read_all facts env es

unfoldable pub interval_of : Facts → Env → Expr → Range
unfolding read
interval_of facts env e = (read facts env e).interval

unfoldable pub linear : Facts → Env → Expr → Linear
unfolding read
linear facts env e = (read facts env e).form

unfoldable pub range_of : Facts → Env → Expr → Range
unfolding read range_from
range_of facts env e = range_from facts e (read facts env e)

unfoldable pub ok_range_of : Facts → Env → Expr → Range
unfolding read
ok_range_of facts env (Expr.call callee args) =
    applied (env.call callee).ok (read_all facts env args)
ok_range_of facts env _ = any
