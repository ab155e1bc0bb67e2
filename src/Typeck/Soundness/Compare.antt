-- ===== src/Typeck/Soundness/Compare.antt =====
-- The verdicts of `holds` and `compare`, against the evaluation of the condition.
use deed.Prelude.{
  ℕ, ◌+◌, ◌^◌, ◌<◌, ◌≡◌, Bool, true, false, not, inl, inr, ap, ◌∙◌, Option-cases, arith,
}
use deed.Prelude.Int.{ℤ, neg_ℤ, ◌+ℤ◌, ◌-ℤ◌, int_laws}
use mathlib.Core.Path.{subst}
use deed.Machine.{clamp}
use deed.Ast.{Expr, UnaryOp, BinaryOp}
use deed.Interp.{Value, Outcome, value, Leaves, eval, apply_binary, int_op}
use deed.Typeck.Range.{Range, empty, bounded, shift, spread}
use deed.Typeck.Range.Member.{In, In-meet}
use deed.Typeck.Range.Arith.{shift-clamp, spread-clamp}
use deed.Typeck.Truth.{
  Truth, always, never, unknown, Reason, Agrees, of-Agrees, negate-Agrees, and-Agrees, or-Agrees,
  and-Agrees-false, or-Agrees-true,
}
use deed.Typeck.Truth
use deed.Typeck.Facts.{Facts, difference}
use deed.Typeck.Facts.World.{World, Describes, difference-In}
use deed.Typeck.Linear.{pair}
use deed.Typeck.Linear.Shapes.{pair-sum}
use deed.Typeck.Env.{Env}
use deed.Typeck.Reading.{range_of, linear, read}
use deed.Typeck.Prover.{
  difference_form, difference_from, difference_of, compare, compare_ranges, holds,
}
use deed.Typeck.Soundness.{Faithful, size, Calm}
use deed.Typeck.Soundness.Arithmetic.{Denotes, add-Denotes, negate-Denotes}
use deed.Typeck.Soundness.Read.{range_from-In}
use deed.Typeck.Soundness.Whole.{read-Reads}
use deed.Typeck.Soundness.Verdict.{verdict-Agrees, same_bool, not_not}
use deed.Typeck.Soundness.Conditions.{not_value, and_value, or_value, operand_values, int_result}

-- What `compare` is asked about: two calm expressions whose values, when they have one, are
-- integers, with room for the difference. `extra` is what else is counted of each.
pub record Comparable (env : Env) (ls : Leaves) (extra : Outcome → ℕ) (lhs rhs : Expr)
    : Type 0 where
  pub left_calm : Calm env ls lhs
  pub right_calm : Calm env ls rhs
  pub room :
      size env ls lhs + size env ls rhs + (extra (eval ls lhs) + extra (eval ls rhs)) < 2 ^ 63
  pub left_int : (v : Value) → eval ls lhs ≡ value v → (x : ℤ) × (v ≡ Value.int x)
  pub right_int : (v : Value) → eval ls rhs ≡ value v → (x : ℤ) × (v ≡ Value.int x)

-- Every comparison of the condition can be asked about.
abbrev pub Sayable : Env → Leaves → (Outcome → ℕ) → Expr → Type 0
Sayable env ls extra (Expr.unary UnaryOp.not operand) = Sayable env ls extra operand
Sayable env ls extra (Expr.binary BinaryOp.and lhs rhs span) =
    Sayable env ls extra lhs × Sayable env ls extra rhs
Sayable env ls extra (Expr.binary BinaryOp.or lhs rhs span) =
    Sayable env ls extra lhs × Sayable env ls extra rhs
Sayable env ls extra (Expr.binary op lhs rhs span) = Comparable env ls extra lhs rhs
Sayable env ls extra _ = Unit

module _ (w : World) (f : Facts) (h : Describes w f) (env : Env) (ls : Leaves)
    (k : Faithful w env ls) where
  -- The range read off an expression holds its value: a calm expression that evaluates to an
  -- integer evaluates into `range_of`, in every world that the facts describe and with leaves
  -- faithful to it. Calm says that what is counted in the expression stays below 2 ^ 63, that
  -- `Int.min` is subtracted from nothing, and that no multiple of an argument that the
  -- promise of a call counts leaves an `i64`.
  pub range_of-In :
      (e : Expr) (v : ℤ) → Calm env ls e → eval ls e ≡ value (Value.int v) → In v (range_of f env e)
  unfolding range_of
  range_of-In e v calm evaluates =
      let here = read-Reads w f h env ls k e v calm evaluates in
      range_from-In w f h e (size env ls e) v (read f env e) here.1 here.0

  pub linear-Denotes :
      (e : Expr) (v : ℤ)
      → Calm env ls e
      → eval ls e ≡ value (Value.int v)
      → Denotes w (size env ls e) v (linear f env e)
  unfolding linear
  linear-Denotes e v calm evaluates = (read-Reads w f h env ls k e v calm evaluates).0.form

  -- The integers that two comparable expressions evaluate to.
  module _ (extra : Outcome → ℕ) (lhs rhs : Expr) (c : Comparable env ls extra lhs rhs) (x y : ℤ)
      (ex : eval ls lhs ≡ value (Value.int x)) (ey : eval ls rhs ≡ value (Value.int y)) where
    pub difference_form-Denotes :
        Denotes w (size env ls lhs + size env ls rhs) (x -ℤ y) (difference_form f env lhs rhs)
    difference_form-Denotes =
        subst (λ z. Denotes w (size env ls lhs + size env ls rhs) z (difference_form f env lhs rhs))
          plus_negation
          (add-Denotes w (size env ls lhs) (size env ls rhs) x (neg_ℤ y) _ _ (omega (arith, c.room))
            (linear-Denotes lhs x c.left_calm ex)
            (negate-Denotes w (size env ls rhs) y _ (omega (arith, c.room))
              (linear-Denotes rhs y c.right_calm ey)))
      where
        plus_negation : x +ℤ neg_ℤ y ≡ x -ℤ y
        plus_negation = omega int_laws

    pub difference_of-In : In (clamp (x -ℤ y)) (difference_of f env lhs rhs)
    unfolding difference_of difference_from
    difference_of-In =
        let d = difference_form-Denotes in
        let form = difference_form f env lhs rhs in
        let near =
          spread-clamp x y (range_of f env lhs) (range_of f env rhs)
            (range_of-In lhs x c.left_calm ex) (range_of-In rhs y c.right_calm ey) in
        elim (Option-cases (pair form)) [
          | inl no_pair ↦ rw (no_pair, difference_from) near
          | inr ((a, b), found) ↦
              rw (found, difference_from)
                ((In-meet _ (spread (range_of f env lhs) (range_of f env rhs)) _).1 (
                  near,
                  subst (λ z. In (clamp z) (shift (difference f a b) form.offset)) (restore _ _)
                      (shift-clamp (w.value a -ℤ w.value b) (x -ℤ y -ℤ (w.value a -ℤ w.value b)) _
                        form.offset (difference-In w f h a b)
                        (subst (λ z. In (x -ℤ y -ℤ z) form.offset) (pair-sum w form a b found)
                          d.rest)),
                ))
        ]
      where
        restore : (s v : ℤ) → s +ℤ (v -ℤ s) ≡ v
        restore s v = omega int_laws

    compare_ranges-Agrees :
        (op : BinaryOp) (left right apart : Range) (r : Reason) (b : Bool)
        → In x left
        → In y right
        → In (clamp (x -ℤ y)) apart
        → int_op op x y ≡ value (Value.bool b)
        → Agrees (compare_ranges op left right apart r) b
    unfolding compare_ranges
    compare_ranges-Agrees op empty right apart r b hl hr ha e = absurd hl
    compare_ranges-Agrees op (bounded _ _) empty apart r b hl hr ha e = absurd hr
    compare_ranges-Agrees op (bounded _ _) (bounded _ _) empty r b hl hr ha e = absurd ha
    compare_ranges-Agrees op (bounded _ _) (bounded _ _) (bounded low high) r b hl hr ha e =
        verdict-Agrees op low high x y r b ha e

    pub compare-Agrees :
        (op : BinaryOp) (b : Bool)
        → int_op op x y ≡ value (Value.bool b)
        → Agrees (compare op f env lhs rhs) b
    unfolding compare
    compare-Agrees op b e =
        compare_ranges-Agrees op _ _ _ _ b (range_of-In lhs x c.left_calm ex)
          (range_of-In rhs y c.right_calm ey) difference_of-In e

  -- The two integers that a comparison is between.
  pub record Compared (op : BinaryOp) (lhs rhs : Expr) (b : Bool) : Type 0 where
    pub x : ℤ
    pub y : ℤ
    pub left : eval ls lhs ≡ value (Value.int x)
    pub right : eval ls rhs ≡ value (Value.int y)
    pub result : int_op op x y ≡ value (Value.bool b)

  pub compared :
      (op : BinaryOp) (extra : Outcome → ℕ) (lhs rhs : Expr) (b : Bool)
      → Comparable env ls extra lhs rhs
      → apply_binary op (eval ls lhs) (eval ls rhs) ≡ value (Value.bool b)
      → Compared op lhs rhs b
  compared op extra lhs rhs b c e =
      let (p, q, ep, eq) = operand_values op (eval ls lhs) (eval ls rhs) _ e in
      let (x, shape) = c.left_int p ep in
      let (y, shape') = c.right_int q eq in
      let left : eval ls lhs ≡ value (Value.int x) = ep ∙ ap value shape in
      let right : eval ls rhs ≡ value (Value.int y) = eq ∙ ap value shape' in
      record {
        x = x;
        y = y;
        left = left;
        right = right;
        result = int_result op x y (eval ls lhs) (eval ls rhs) _ left right e;
      }

  module _ (extra : Outcome → ℕ) where
    comparison-Agrees :
        (op : BinaryOp) (lhs rhs : Expr) (b : Bool)
        → Comparable env ls extra lhs rhs
        → apply_binary op (eval ls lhs) (eval ls rhs) ≡ value (Value.bool b)
        → Agrees (compare op f env lhs rhs) b
    comparison-Agrees op lhs rhs b c e =
        let at = compared op extra lhs rhs b c e in
        compare-Agrees extra lhs rhs c at.x at.y at.left at.right op b at.result

    -- A verdict of the prover is right: in a world that the facts describe, with leaves
    -- faithful to it, a sayable condition that evaluates to a Bool evaluates to `true` when
    -- `holds` says `always` and to `false` when it says `never`. Sayable includes that both
    -- sides of each comparison are calm: what is counted in them stays below 2 ^ 63,
    -- `Int.min` is subtracted from nothing, and, since `applied` stops at the edges, no
    -- multiple of an argument that the promise of a call counts leaves an `i64`.
    pub holds-Agrees :
        (e : Expr) (b : Bool)
        → Sayable env ls extra e
        → eval ls e ≡ value (Value.bool b)
        → Agrees (holds f env e) b
    unfolding holds eval
    holds-Agrees (Expr.bool c) b s e = subst (Agrees (Truth.of c)) (same_bool e) (of-Agrees c)
    holds-Agrees (Expr.unary UnaryOp.not operand) b s e =
        subst (Agrees (Truth.negate (holds f env operand))) (not_not b)
          (negate-Agrees _ _ (holds-Agrees operand (not b) s (not_value (eval ls operand) b e)))
    holds-Agrees (Expr.binary BinaryOp.and lhs rhs span) b s e =
        elim (and_value (eval ls lhs) (eval ls rhs) b e) [
          | inl (p, q) ↦ rw q (and-Agrees-false _ _ (holds-Agrees lhs false s.0 p))
          | inr (p, q) ↦
              and-Agrees _ _ true b (holds-Agrees lhs true s.0 p) (holds-Agrees rhs b s.1 q)
        ]
    holds-Agrees (Expr.binary BinaryOp.or lhs rhs span) b s e =
        elim (or_value (eval ls lhs) (eval ls rhs) b e) [
          | inl (p, q) ↦ rw q (or-Agrees-true _ _ (holds-Agrees lhs true s.0 p))
          | inr (p, q) ↦
              or-Agrees _ _ false b (holds-Agrees lhs false s.0 p) (holds-Agrees rhs b s.1 q)
        ]
    holds-Agrees (Expr.binary op lhs rhs span) b s e = comparison-Agrees op lhs rhs b s e
    holds-Agrees x b s e = tt
