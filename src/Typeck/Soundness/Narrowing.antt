-- ===== src/Typeck/Soundness/Narrowing.antt =====
-- `narrowed`, against the way that the condition came out.
use deed.Prelude.{
  ◌+◌, ◌≡◌, refl, Bool, true, false, not, Option, none, some, Option-cases, inl, inr, arith,
}
use deed.Prelude.Int.{ℤ}
use deed.Ast.{Expr, UnaryOp, BinaryOp}
use deed.Interp.{Value, value, Leaves, eval, int_op}
use deed.Typeck.Facts.{Facts}
use deed.Typeck.Facts.World.{World, Describes}
use deed.Typeck.Env.{Env}
use deed.Typeck.Prover.{difference_form}
use deed.Typeck.Narrow.{
  negated, flipped, narrow_relation, narrow_scaled, rule_out_a_value, rule_out_flipped,
  narrow_comparison, effective, narrow_effective, apply_narrowing, narrowed,
}
use deed.Typeck.Soundness.{Faithful, size, outcome_size}
use deed.Typeck.Soundness.Whole.{read-Reads}
use deed.Typeck.Soundness.Bounds.{negated-true, flipped-true}
use deed.Typeck.Soundness.Conditions.{not_value, and_value, or_value}
use deed.Typeck.Soundness.Compare.{
  Comparable, Sayable, Compared, compared, range_of-In, difference_form-Denotes,
}
use deed.Typeck.Soundness.Steps.{
  or_unchanged, rule_out_a_value-Describes, narrow_relation_form-Describes,
  narrow_scaled_form-Describes, terms_fit,
}

module _ (w : World) (env : Env) (ls : Leaves) (k : Faithful w env ls) where
  module _ (op : BinaryOp) (lhs rhs : Expr) (c : Comparable env ls outcome_size lhs rhs) (x y : ℤ)
      (ex : eval ls lhs ≡ value (Value.int x)) (ey : eval ls rhs ≡ value (Value.int y))
      (e : int_op op x y ≡ value (Value.bool true)) where
    flipped_out :
        (f : Facts) (other : Option BinaryOp)
        → flipped op ≡ other
        → Describes w f
        → Describes w (rule_out_flipped other lhs rhs f env)
    flipped_out f none same h = h
    flipped_out f (some other) same h =
        rule_out_a_value-Describes w env ls k f other rhs lhs y x h ey
          (read-Reads w f h env ls k rhs y c.right_calm ey).1
          (read-Reads w f h env ls k lhs x c.left_calm ex).1
          (range_of-In w f h env ls k lhs x c.left_calm ex) (flipped-true op other x y same e)

    ruled_out : (f : Facts) → Describes w f → Describes w (rule_out_a_value op lhs rhs f env)
    ruled_out f h =
        rule_out_a_value-Describes w env ls k f op lhs rhs x y h ex
          (read-Reads w f h env ls k lhs x c.left_calm ex).1
          (read-Reads w f h env ls k rhs y c.right_calm ey).1
          (range_of-In w f h env ls k rhs y c.right_calm ey) e

    scaled : (f : Facts) → Describes w f → Describes w (narrow_scaled op lhs rhs f env)
    unfolding narrow_scaled
    scaled f h =
        let d = difference_form-Denotes w f h env ls k outcome_size lhs rhs c x y ex ey in
        narrow_scaled_form-Describes w env ls k f op x y (difference_form f env lhs rhs) h
          (terms_fit w env ls k (size env ls lhs + size env ls rhs) x y _ (rw (ex, ey) at c.room) d)
          d.rest e

    related : (f : Facts) → Describes w f → Describes w (narrow_relation op lhs rhs f env)
    unfolding narrow_relation
    related f h =
        narrow_relation_form-Describes w env ls k f op x y (difference_form f env lhs rhs) h
          (difference_form-Denotes w f h env ls k outcome_size lhs rhs c x y ex ey).rest e

    pub narrow_comparison-Describes :
        (f : Facts) → Describes w f → Describes w (narrow_comparison op lhs rhs f env)
    unfolding narrow_comparison
    narrow_comparison-Describes f h =
        related _ (scaled _ (flipped_out _ (flipped op) refl (ruled_out f h)))

  narrow_effective-Describes :
      (f : Facts) (op : BinaryOp) (lhs rhs : Expr) (b : Bool) (h : Describes w f)
      → Comparable env ls outcome_size lhs rhs
      → Compared w f h env ls k op lhs rhs b
      → Describes w (narrow_effective (effective op b) lhs rhs f env)
  unfolding narrow_effective
  narrow_effective-Describes f op lhs rhs true h c v =
      narrow_comparison-Describes op lhs rhs c v.x v.y v.left v.right v.result f h
  narrow_effective-Describes f op lhs rhs false h c v = elim (Option-cases (negated op)) [
    | inl no_other ↦ rw (no_other, narrow_effective) h
    | inr (other, found) ↦
        rw (found, narrow_effective)
          (narrow_comparison-Describes other lhs rhs c v.x v.y v.left v.right
            (negated-true op other v.x v.y found v.result) f h)
  ]

  -- Narrowing by a condition that has evaluated to `b` keeps the facts true: facts that
  -- describe a world still describe it after `narrowed` for `b`, when the condition is
  -- sayable with room for the values of its operands. Sayable includes that both sides of
  -- each comparison are calm, and so that no multiple of an argument that the promise of a
  -- call counts leaves an `i64`.
  pub narrowed-Describes :
      (e : Expr) (f : Facts) (b : Bool)
      → Describes w f
      → Sayable env ls outcome_size e
      → eval ls e ≡ value (Value.bool b)
      → Describes w (narrowed e f env b)
  unfolding narrowed apply_narrowing eval
  narrowed-Describes (Expr.unary UnaryOp.not operand) f b h s e =
      narrowed-Describes operand f (not b) h s (not_value (eval ls operand) b e)
  narrowed-Describes (Expr.binary BinaryOp.and lhs rhs span) f true h s e =
      elim (and_value (eval ls lhs) (eval ls rhs) true e) [
        | inl (p, q) ↦ absurd (ground (arith, q))
        | inr (p, q) ↦ narrowed-Describes rhs _ true (narrowed-Describes lhs f true h s.0 p) s.1 q
      ]
  narrowed-Describes (Expr.binary BinaryOp.and lhs rhs span) f false h s e = h
  narrowed-Describes (Expr.binary BinaryOp.or lhs rhs span) f true h s e =
      rw (or_unchanged lhs rhs f env) h
  narrowed-Describes (Expr.binary BinaryOp.or lhs rhs span) f false h s e =
      elim (or_value (eval ls lhs) (eval ls rhs) false e) [
        | inl (p, q) ↦ absurd (ground (arith, q))
        | inr (p, q) ↦ narrowed-Describes rhs _ false (narrowed-Describes lhs f false h s.0 p) s.1 q
      ]
  narrowed-Describes (Expr.binary op lhs rhs span) f b h s e =
      narrow_effective-Describes f op lhs rhs b h s
        (compared w f h env ls k op outcome_size lhs rhs b s e)
  narrowed-Describes x f b h s e = h
