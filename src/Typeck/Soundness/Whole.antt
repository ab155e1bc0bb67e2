-- ===== src/Typeck/Soundness/Whole.antt =====
-- The reading of a whole expression, by induction on it.
use deed.Prelude.{
  ◌<◌, ◌^◌, ◌≡◌, ◌≢◌, refl, false, ◌||◌, Option, none, some, Bool-cases, inl, inr, arith,
  if◌then◌else◌, ap, sym,
}
use deed.Prelude.Int.{ℤ, neg_ℤ, ltb_ℤ, eq_of_parts, neg_parts}
use mathlib.Core.Path.{subst}
use deed.Machine.{Fits, checked, i64_min}
use deed.Ast.{Expr, Exprs, UnaryOp, BinaryOp, nil, cons, int_limit}
use deed.Interp.{Value, Outcome, value, Leaves, eval, apply_unary}
use deed.Typeck.Range.{Range, any, exactly}
use deed.Typeck.Range.Member.{In, any-In}
use deed.Typeck.Range.Arith.{negate-In}
use deed.Typeck.Facts.{Term, Facts, get}
use deed.Typeck.Facts.World.{World, Describes, get-In}
use deed.Typeck.Linear.Denotes.{magnitude, Fits-of_magnitude}
use deed.Typeck.Promise.{applied}
use deed.Typeck.Env.{Env, is_subject, is_subject_length, is_length_call, term_of, first}
use deed.Typeck.Reading.{both, measured, read, read_all, known_or_any, binary_reading, binary_form}
use deed.Typeck.Soundness.{Faithful, size, Calm, CalmAll, Counted, outcome_size, leaf_size}
use deed.Typeck.Soundness.Leaf.{ReadAs, both-ReadAs, subject_first-shape}
use deed.Typeck.Soundness.Arithmetic.{negate-Denotes}
use deed.Typeck.Soundness.Alone.{leaf-ReadAs, ident_term, call_term, measured-In, limit-In}
use deed.Typeck.Soundness.Binary.{
  add-Operands, sub-Operands, mul-Operands, add_reading, sub_reading, mul_reading,
}
use deed.Typeck.Soundness.Call.{ArgsIn, applied-In}
use deed.Typeck.Soundness.Read.{range_from-In}

neg_operand :
    (a : Outcome) (v : ℤ)
    → apply_unary UnaryOp.neg a ≡ value (Value.int v)
    → (x : ℤ) × (a ≡ value (Value.int x)) × (v ≡ neg_ℤ x) × Fits v
unfolding apply_unary
neg_operand (value (Value.int x)) v e =
    (x, refl, unfold checked in ground arith, unfold checked in ground arith)
neg_operand a v e = absurd (ground arith)

negated-Fits : (y : ℤ) → Fits y → (y ≢ i64_min) → Fits (neg_ℤ y)
negated-Fits y fits other = elim (Bool-cases (ltb_ℤ i64_min y)) [
  | inl above ↦ record {
    low = ground (arith, neg_parts y, fits.high);
    high = ground (arith, neg_parts y, above);
  }
  | inr below ↦ absurd (other (eq_of_parts y i64_min (ground (arith, fits.low))))
]

module _ (w : World) (f : Facts) (h : Describes w f) (env : Env) (ls : Leaves)
    (k : Faithful w env ls) where
  -- The reading of the expression is right about its value, which is an `i64`.
  abbrev pub Reads : Expr → ℤ → Type 0
  Reads e v = ReadAs w (size env ls e) v (read f env e) × Fits v

  -- What is read as a range alone, and counted as its value.
  plain_Reads :
      (e : Expr) (v : ℤ) (range : Range)
      → size env ls e ≡ magnitude v
      → size env ls e < 2 ^ 63
      → (Fits v → In v range)
      → read f env e ≡ both range
      → Reads e v
  plain_Reads e v range counted small inside reading =
      let fits : Fits v = Fits-of_magnitude v (omega (arith, counted, small)) in
      (
        rw reading (both-ReadAs w (size env ls e) v range (inside fits) (omega (arith, counted))),
        fits,
      )

  known-In :
      (t : Option Term) (v : ℤ)
      → Fits v
      → ((u : Term) → t ≡ some u → v ≡ w.value u)
      → In v (known_or_any f t)
  known-In none v fits is = any-In v fits
  known-In (some t) v fits is = subst (λ z. In z (get f t)) (sym (is t refl)) (get-In w f h t)

  interval_of_call :
      (callee : Expr) (args : Exprs) (v : ℤ)
      → ls.leaf (Expr.call callee args) ≡ value (Value.int v)
      → ArgsIn ls args (read_all f env args)
      → Counted ls (env.call callee).value args
      → In v (
          if is_length_call env callee args
          then measured f env (first args) (applied (env.call callee).value (read_all f env args))
          else applied (env.call callee).value (read_all f env args))
  interval_of_call callee args v e inside counted =
      let fits = k.leaf_fits (Expr.call callee args) v e in
      let promised =
        applied-In ls v fits (env.call callee).value args (read_all f env args) inside
          (k.call_kept callee args v e) counted in
      elim (Bool-cases (is_length_call env callee args)) [
        | inl counts ↦ rw counts (measured-In w f h env ls k callee args v _ counts e promised)
        | inr plain ↦ rw plain promised
      ]

  mutual
    unfolding size eval read is_subject is_subject_length term_of binary_reading binary_form both

    pub read-Reads :
        (e : Expr) (v : ℤ) → Calm env ls e → eval ls e ≡ value (Value.int v) → Reads e v
    read-Reads (Expr.int n) v calm e =
        plain_Reads (Expr.int n) v (exactly n) (ap outcome_size e) calm (λ _. ground arith)
          (subject_first-shape f env (Expr.int n) _ refl refl)
    read-Reads (Expr.ident x) v calm e =
        let is : (t : Term) → term_of env (Expr.ident x) ≡ some t → v ≡ w.value t =
          λ t found. ident_term w f h env ls k x v t e found in
        let fits = k.leaf_fits (Expr.ident x) v e in
        (
          subst
              (λ o.
                ReadAs w
                  (leaf_size (is_subject (Expr.ident x) || false) (term_of env (Expr.ident x)) o) v
                  (read f env (Expr.ident x)))
              (sym e)
              (leaf-ReadAs w f h env ls k (Expr.ident x) v _
                (known-In (term_of env (Expr.ident x)) v fits is) is
                (λ s. k.subject_value (Expr.ident x) v s e) (λ s. absurd (ground arith))),
          fits,
        )
    read-Reads (Expr.field receiver name) v calm e =
        plain_Reads (Expr.field receiver name) v _ (ap outcome_size e) calm
          (λ _. limit-In w f h env ls k (int_limit (Expr.field receiver name)) receiver name v e)
          (subject_first-shape f env (Expr.field receiver name) _ refl refl)
    read-Reads (Expr.call callee args) v calm e =
        let c = Expr.call callee args in
        let fits = k.leaf_fits c v e in
        (
          subst
              (λ o.
                ReadAs w (leaf_size (false || is_subject_length env c) (term_of env c) o) v
                  (read f env c))
              (sym e)
              (leaf-ReadAs w f h env ls k c v _
                (interval_of_call callee args v e (read_all-ArgsIn args calm.1) calm.2)
                (λ t found. call_term w f h env ls k callee args v t e found)
                (λ s. absurd (ground arith)) (λ s. k.subject_length c v s e)),
          fits,
        )
    read-Reads (Expr.unary UnaryOp.neg operand) v calm e =
        let (x, evaluates, result, fits) = neg_operand (eval ls operand) v e in
        let inner = read-Reads operand x calm.1 evaluates in
        (
          rw (result, subject_first-shape f env (Expr.unary UnaryOp.neg operand) _ refl refl)
              (record {
                interval =
                    negate-In x _ (rw result at fits)
                      (range_from-In w f h operand _ x _ inner.1 inner.0);
                form = negate-Denotes w _ x _ calm.0 inner.0.form;
              }),
          fits,
        )
    read-Reads (Expr.binary BinaryOp.add lhs rhs span) v calm e =
        let o = add-Operands (eval ls lhs) (eval ls rhs) v e in
        let l = read-Reads lhs o.left calm.1 o.left_value in
        let r = read-Reads rhs o.right calm.2 o.right_value in
        (
          rw
              (
                o.result,
                subject_first-shape f env (Expr.binary BinaryOp.add lhs rhs span) _ refl refl,
              )
              (add_reading w _ _ o.left o.right _ _ _ _ (range_from-In w f h lhs _ o.left _ l.1 l.0)
                (range_from-In w f h rhs _ o.right _ r.1 r.0) l.0.form r.0.form calm.0
                (rw o.result at o.result_fits)),
          o.result_fits,
        )
    read-Reads (Expr.binary BinaryOp.sub lhs rhs span) v calm e =
        let o = sub-Operands (eval ls lhs) (eval ls rhs) v e in
        let l = read-Reads lhs o.left calm.1 o.left_value in
        let r = read-Reads rhs o.right calm.2 o.right_value in
        (
          rw
              (
                o.result,
                subject_first-shape f env (Expr.binary BinaryOp.sub lhs rhs span) _ refl refl,
              )
              (sub_reading w _ _ o.left o.right _ _ _ _ (range_from-In w f h lhs _ o.left _ l.1 l.0)
                (range_from-In w f h rhs _ o.right _ r.1 r.0) l.0.form r.0.form calm.0
                (negated-Fits o.right r.1 (λ least. calm.3 (rw least at o.right_value)))
                (rw o.result at o.result_fits)),
          o.result_fits,
        )
    read-Reads (Expr.binary BinaryOp.mul lhs rhs span) v calm e =
        let o = mul-Operands (eval ls lhs) (eval ls rhs) v e in
        let l = read-Reads lhs o.left calm.1 o.left_value in
        let r = read-Reads rhs o.right calm.2 o.right_value in
        (
          rw
              (
                e,
                o.result,
                subject_first-shape f env (Expr.binary BinaryOp.mul lhs rhs span) _ refl refl,
              )
              (mul_reading w _ _ o.left o.right _ _ _ _ (range_from-In w f h lhs _ o.left _ l.1 l.0)
                (range_from-In w f h rhs _ o.right _ r.1 r.0) l.0.form r.0.form
                (rw (e, o.result) at calm.0) (rw o.result at o.result_fits)),
          o.result_fits,
        )
    read-Reads (Expr.try (Expr.call callee args)) v calm e =
        let c = Expr.try (Expr.call callee args) in
        plain_Reads c v _ (ap outcome_size e) calm.0
          (λ fits.
            applied-In ls v fits (env.call callee).ok args (read_all f env args)
              (read_all-ArgsIn args calm.1) (k.try_kept callee args v e) calm.2)
          (subject_first-shape f env c _ refl refl)
    read-Reads x v calm e =
        plain_Reads x v any (ap outcome_size e) calm (any-In v)
          (subject_first-shape f env x _ refl refl)

    read_all-ArgsIn : (es : Exprs) → CalmAll env ls es → ArgsIn ls es (read_all f env es)
    read_all-ArgsIn nil calm = tt
    read_all-ArgsIn (cons e es) calm = (
      λ v evaluates.
          let here = read-Reads e v calm.0 evaluates in range_from-In w f h e _ v _ here.1 here.0,
      read_all-ArgsIn es calm.1,
    )
