-- ===== src/Typeck/Soundness/Steps.antt =====
-- The steps of narrowing by one comparison, each for the forms and ranges that it reads.
use deed.Prelude.{
  ◌+◌, ◌^◌, ◌<◌, ◌≡◌, ℕ, ◌≢◌, refl, sym, ◌∙◌, ap, true, Option, none, some, Option-cases, inl, inr,
  arith,
}
use deed.Prelude.Int.{ℤ, neg_ℤ, ◌-ℤ◌, ◌+ℤ◌, ◌*ℤ◌, int_laws, *ℤ_comm}
use mathlib.Core.Path.{subst}
use deed.Machine.{Fits}
use deed.Ast.{Expr, BinaryOp}
use deed.Interp.{Value, value, Leaves, eval, int_op}
use deed.Typeck.Range.{Range, divided}
use deed.Typeck.Range.Member.{In}
use deed.Typeck.Range.Divide.{In-divided}
use deed.Typeck.Facts.{Term, Facts, get}
use deed.Typeck.Facts.World.{World, Describes, get-In}
use deed.Typeck.Facts.Sound.{narrow-Describes, narrow_difference-Describes, narrow_total-Describes}
use deed.Typeck.Linear.{Linear, pair, scaled_name}
use deed.Typeck.Linear
use deed.Typeck.Linear.Denotes.{magnitude, sum, Fits-of_magnitude, magnitude-add}
use deed.Typeck.Linear.Shapes.{pair-sum, total-sum, scaled_name-sum}
use deed.Typeck.Env.{Env, term_of}
use deed.Typeck.Reading.{range_of}
use deed.Typeck.Prover.{difference_form}
use deed.Typeck.Narrow.{
  flipped, bound_from, narrow_relation, narrow_relation_form, narrow_scaled, narrow_scaled_form,
  without_edge, rule_out, rule_out_a_value, narrow_comparison,
}
use deed.Typeck.Soundness.{Faithful}
use deed.Typeck.Soundness.Arithmetic.{Denotes}
use deed.Typeck.Soundness.Alone.{ident_term, call_term}
use deed.Typeck.Soundness.Bounds.{bound_from-In, without_edge-In}

ne_apart : (x y : ℤ) → int_op BinaryOp.ne x y ≡ value (Value.bool true) → x ≢ y
unfolding int_op
ne_apart x y e same = ground (arith, rw same at e)

magnitude_neg : (x : ℤ) → magnitude (neg_ℤ x) ≡ magnitude x
unfolding neg_ℤ
magnitude_neg x = ground arith

-- A disjunction that holds says nothing of either side.
no_bound : (r : Range) → bound_from BinaryOp.or r ≡ none
unfolding bound_from
no_bound r = ground arith

no_scaled : (f : Facts) (o : Option (Term × ℤ)) → narrow_scaled_form f o none ≡ f
unfolding narrow_scaled_form
no_scaled f none = refl
no_scaled f (some o) = refl

related_or :
    (lhs rhs : Expr) (f : Facts) (env : Env) → narrow_relation BinaryOp.or lhs rhs f env ≡ f
unfolding narrow_relation narrow_relation_form
related_or lhs rhs f env =
    ap (narrow_relation_form f (difference_form f env lhs rhs))
      (no_bound (difference_form f env lhs rhs).offset)

scaled_or : (lhs rhs : Expr) (f : Facts) (env : Env) → narrow_scaled BinaryOp.or lhs rhs f env ≡ f
unfolding narrow_scaled
scaled_or lhs rhs f env =
    ap (narrow_scaled_form f (scaled_name (difference_form f env lhs rhs)))
      (no_bound (difference_form f env lhs rhs).offset)
    ∙ no_scaled f (scaled_name (difference_form f env lhs rhs))

pub or_unchanged :
    (lhs rhs : Expr) (f : Facts) (env : Env) → narrow_comparison BinaryOp.or lhs rhs f env ≡ f
unfolding narrow_comparison rule_out_a_value flipped
or_unchanged lhs rhs f env =
    ap (λ g. narrow_relation BinaryOp.or lhs rhs g env) (scaled_or lhs rhs f env)
    ∙ related_or lhs rhs f env

module _ (w : World) (env : Env) (ls : Leaves) (k : Faithful w env ls) where
  term_value :
      (f : Facts) (h : Describes w f) (e : Expr) (t : Term) (x : ℤ)
      → term_of env e ≡ some t
      → eval ls e ≡ value (Value.int x)
      → x ≡ w.value t
  unfolding term_of eval
  term_value f h (Expr.ident i) t x found e = ident_term w f h env ls k i x t e found
  term_value f h (Expr.call callee args) t x found e =
      call_term w f h env ls k callee args x t e found
  term_value f h plain t x found e = absurd (ground arith)

  rule_out-Describes :
      (f : Facts) (e : Expr) (value_range : Range) (x y : ℤ)
      → Describes w f
      → eval ls e ≡ value (Value.int x)
      → Fits x
      → Fits y
      → In y value_range
      → x ≢ y
      → Describes w (rule_out f (term_of env e) value_range)
  unfolding rule_out
  rule_out-Describes f e r x y h ex fx fy hy other = elim (Option-cases (term_of env e)) [
    | inl no_term ↦ rw (no_term, rule_out) h
    | inr (t, found) ↦ elim (Option-cases (without_edge r (get f t))) [
      | inl nothing ↦ rw (found, nothing, rule_out) h
      | inr (left_over, edge) ↦
          let is = term_value f h e t x found ex in
          rw (found, edge, rule_out)
            (narrow-Describes w f t left_over h (
              subst (λ z. In z left_over) is
                (without_edge-In r (get f t) left_over y x fy fx hy
                  (subst (λ z. In z (get f t)) (sym is) (get-In w f h t)) other edge)))
    ]
  ]

  pub rule_out_a_value-Describes :
      (f : Facts) (op : BinaryOp) (left right : Expr) (x y : ℤ)
      → Describes w f
      → eval ls left ≡ value (Value.int x)
      → Fits x
      → Fits y
      → In y (range_of f env right)
      → int_op op x y ≡ value (Value.bool true)
      → Describes w (rule_out_a_value op left right f env)
  unfolding rule_out_a_value
  rule_out_a_value-Describes f BinaryOp.ne left right x y h ex fx fy hy e =
      rule_out-Describes f left (range_of f env right) x y h ex fx fy hy (ne_apart x y e)
  rule_out_a_value-Describes f op left right x y h ex fx fy hy e = h

  -- The bound on a form that is a difference or a total of two terms.
  pub narrow_relation_form-Describes :
      (f : Facts) (op : BinaryOp) (x y : ℤ) (l : Linear)
      → Describes w f
      → In (x -ℤ y -ℤ sum w l.terms) l.offset
      → int_op op x y ≡ value (Value.bool true)
      → Describes w (narrow_relation_form f l (bound_from op l.offset))
  unfolding narrow_relation_form
  narrow_relation_form-Describes f op x y l h rest e =
      elim (Option-cases (bound_from op l.offset)) [
        | inl no_bound ↦ rw (no_bound, narrow_relation_form) h
        | inr (bound, bounded_by) ↦ elim (Option-cases (pair l)) [
          | inr ((a, b), found) ↦
              rw (bounded_by, narrow_relation_form, found)
                (narrow_difference-Describes w f a b bound h (
                  bound_from-In op l.offset bound x y _ (w.difference_fits a b)
                    (subst (λ z. In (x -ℤ y -ℤ z) l.offset) (pair-sum w l a b found) rest) e
                    bounded_by))
          | inl no_pair ↦ elim (Option-cases (Linear.total l)) [
            | inr ((a, b), found) ↦
                rw (bounded_by, narrow_relation_form, no_pair, found)
                  (narrow_total-Describes w f a b bound h (
                    bound_from-In op l.offset bound x y _ (w.total_fits a b)
                      (subst (λ z. In (x -ℤ y -ℤ z) l.offset) (total-sum w l a b found) rest) e
                      bounded_by))
            | inl no_total ↦ rw (bounded_by, narrow_relation_form, no_pair, no_total) h
          ]
        ]
      ]

  pub narrow_scaled_form-Describes :
      (f : Facts) (op : BinaryOp) (x y : ℤ) (l : Linear)
      → Describes w f
      → Fits (sum w l.terms)
      → In (x -ℤ y -ℤ sum w l.terms) l.offset
      → int_op op x y ≡ value (Value.bool true)
      → Describes w (narrow_scaled_form f (scaled_name l) (bound_from op l.offset))
  unfolding narrow_scaled_form
  narrow_scaled_form-Describes f op x y l h fits rest e = elim (Option-cases (scaled_name l)) [
    | inl none_named ↦ rw (none_named, narrow_scaled_form) h
    | inr ((t, count), found) ↦ elim (Option-cases (bound_from op l.offset)) [
      | inl no_bound ↦ rw (found, no_bound, narrow_scaled_form) h
      | inr (bound, bounded_by) ↦ elim (Option-cases (divided bound count)) [
        | inl no_part ↦ rw (found, bounded_by, narrow_scaled_form, no_part) h
        | inr (part, divides) ↦
            rw (found, bounded_by, narrow_scaled_form, divides)
              (narrow-Describes w f t part h (
                (In-divided (w.value t) count bound part (w.value_fits t) divides).1 (
                  subst (λ z. In z bound) (times t count found)
                    (bound_from-In op l.offset bound x y (sum w l.terms) fits rest e bounded_by))))
      ]
    ]
  ]
    where
      times :
          (t : Term) (count : ℤ)
          → scaled_name l ≡ some (t, count)
          → sum w l.terms ≡ w.value t *ℤ count
      times t count found = rw (*ℤ_comm (w.value t) count) (scaled_name-sum w l t count found)

  -- What the terms of the form come to stays within an `i64` when the values do not use up the room.
  pub terms_fit :
      (n : ℕ) (x y : ℤ) (l : Linear)
      → n + (magnitude x + magnitude y) < 2 ^ 63
      → Denotes w n (x -ℤ y) l
      → Fits (sum w l.terms)
  terms_fit n x y l room d = Fits-of_magnitude (sum w l.terms) (
      omega (
        arith,
        room,
        d.counted,
        whole,
        magnitude-add (x -ℤ y) (neg_ℤ rest),
        apart,
        magnitude-add x (neg_ℤ y),
        magnitude_neg y,
        magnitude_neg rest,
      ))
    where
      rest : ℤ
      rest = x -ℤ y -ℤ sum w l.terms

      whole : magnitude (sum w l.terms) ≡ magnitude (x -ℤ y +ℤ neg_ℤ rest)
      whole = ap magnitude {x = sum w l.terms} {y = x -ℤ y +ℤ neg_ℤ rest} (omega int_laws)

      apart : magnitude (x -ℤ y) ≡ magnitude (x +ℤ neg_ℤ y)
      apart = ap magnitude {x = x -ℤ y} {y = x +ℤ neg_ℤ y} (omega int_laws)
