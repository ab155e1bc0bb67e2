-- ===== src/Typeck/Soundness/Alone.antt =====
-- The readings of names, literals, fields, lengths and calls, against what these evaluate to.
use deed.Prelude.{
  suc, ◌≤◌, ◌≡◌, refl, sym, Bool, true, false, ◌||◌, Option, none, some, Option-cases, Bool-cases,
  inl, inr, arith,
}
use deed.Prelude.Int.{ℤ}
use mathlib.Core.Path.{subst}
use deed.Ast.{Expr, Exprs, Ident, nil, cons}
use deed.Interp.{Value, value, Leaves, limit_or_leaf}
use deed.Typeck.Range.{Range}
use deed.Typeck.Range
use deed.Typeck.Range.Member.{In, In-meet}
use deed.Typeck.Facts.{Term, Facts, DefId, get}
use deed.Typeck.Facts.World.{World, Describes, get-In}
use deed.Typeck.Linear.Denotes.{magnitude}
use deed.Typeck.Env.{
  Env, is_subject, is_subject_length, is_length_call, term_of, first, name_def, length_of,
  length_at,
}
use deed.Typeck.Reading.{subject_first, named, limit_or, measured}
use deed.Typeck.Soundness.{Faithful, leaf_size}
use deed.Typeck.Soundness.Leaf.{ReadAs, named-ReadAs, subject_first-ReadAs}

size_of_subject :
    (b : Bool) (t : Option Term) (v : ℤ)
    → b ≡ true
    → suc (magnitude v) ≤ leaf_size b t (value (Value.int v))
size_of_subject true t v h = ground arith
size_of_subject false t v h = absurd (ground arith)

size_of_term :
    (b : Bool) (t : Option Term) (v : ℤ) (u : Term)
    → t ≡ some u
    → 1 ≤ leaf_size b t (value (Value.int v))
size_of_term true t v u h = ground arith
size_of_term false (some t) v u h = ground arith
size_of_term false none v u h = absurd (ground arith)

size_of_value :
    (b : Bool) (t : Option Term) (v : ℤ)
    → t ≡ none
    → magnitude v ≤ leaf_size b t (value (Value.int v))
size_of_value true t v h = omega arith
size_of_value false (some t) v h = absurd (ground arith)
size_of_value false none v h = omega arith

either_true : (a b : Bool) → a ≡ true → (a || b) ≡ true
either_true a b h = rw h refl

or_true : (a b : Bool) → b ≡ true → (a || b) ≡ true
or_true true b h = refl
or_true false b h = h

module _ (w : World) (f : Facts) (h : Describes w f) (env : Env) (ls : Leaves)
    (k : Faithful w env ls) where
  -- What stands alone is read by its term, or by a range that holds its value.
  pub leaf-ReadAs :
      (e : Expr) (v : ℤ) (range : Range)
      → In v range
      → ((t : Term) → term_of env e ≡ some t → v ≡ w.value t)
      → (is_subject e ≡ true → v ≡ w.subject_value)
      → (is_subject_length env e ≡ true → v ≡ w.subject_length)
      → ReadAs w
          (leaf_size
            (is_subject e || is_subject_length env e)
            (term_of env e)
            (value (Value.int v)))
          v
          (subject_first f env e (named f (term_of env e) range))
  leaf-ReadAs e v range inside known sv sl =
      let b = is_subject e || is_subject_length env e in
      subject_first-ReadAs w f h env e _ v _
        (record {
          value = λ s. (sv s, size_of_subject b (term_of env e) v (either_true _ _ s));
          length = λ s. (sl s, size_of_subject b (term_of env e) v (or_true _ _ s));
        })
        (named-ReadAs w f _ v (term_of env e) range inside
          (λ t found. (known t found, size_of_term b (term_of env e) v t found))
          (size_of_value b (term_of env e) v))

  pub ident_term :
      (x : Ident) (v : ℤ) (t : Term)
      → ls.leaf (Expr.ident x) ≡ value (Value.int v)
      → term_of env (Expr.ident x) ≡ some t
      → v ≡ w.value t
  unfolding term_of
  ident_term x v t e found = elim (Option-cases (env.def_of (Expr.ident x))) [
    | inl missing ↦ absurd (ground (arith, missing))
    | inr (d, defined) ↦
        let named_so : t ≡ Term.name d = ground (arith, defined) in
        rw named_so (k.name_value x d v defined e)
  ]

  pub call_term :
      (callee : Expr) (args : Exprs) (v : ℤ) (t : Term)
      → ls.leaf (Expr.call callee args) ≡ value (Value.int v)
      → term_of env (Expr.call callee args) ≡ some t
      → v ≡ w.value t
  unfolding term_of
  call_term callee args v t e found = elim (Bool-cases (is_length_call env callee args)) [
    | inr plain ↦ absurd (ground (arith, plain))
    | inl counts ↦ elim (Option-cases (name_def env (first args))) [
      | inl missing ↦ absurd (ground (arith, counts, missing))
      | inr (d, defined) ↦
          let named_so : t ≡ Term.length d = ground (arith, counts, defined) in
          rw named_so (k.length_name callee args d v counts defined e)
    ]
  ]

  -- `length` of an argument whose length the facts may know.
  length_at-In :
      (callee : Expr) (args : Exprs) (v : ℤ)
      → is_length_call env callee args ≡ true
      → ls.leaf (Expr.call callee args) ≡ value (Value.int v)
      → (t : Option Term)
      → ((d : DefId) → t ≡ some (Term.name d) → name_def env (first args) ≡ some d)
      → In v (length_at f t)
  unfolding Range.between
  length_at-In callee args v counts e (some (Term.name d)) found =
      subst (λ z. In z (get f (Term.length d)))
        (sym (k.length_name callee args d v counts (found d refl) e)) (get-In w f h (Term.length d))
  length_at-In callee args v counts e (some (Term.length d)) found =
      (k.length_nonneg callee args v counts e, (k.leaf_fits (Expr.call callee args) v e).high)
  length_at-In callee args v counts e none found =
      (k.length_nonneg callee args v counts e, (k.leaf_fits (Expr.call callee args) v e).high)

  term_name :
      (e : Expr) (d : DefId) → term_of env e ≡ some (Term.name d) → name_def env (some e) ≡ some d
  unfolding term_of
  term_name (Expr.ident x) d found = elim (Option-cases (env.def_of (Expr.ident x))) [
    | inl missing ↦ absurd (ground (arith, missing))
    | inr (c, defined) ↦ ground (arith, defined)
  ]
  term_name (Expr.call callee args) d found = elim (Bool-cases (is_length_call env callee args)) [
    | inr plain ↦ absurd (ground (arith, plain))
    | inl counts ↦ elim (Option-cases (name_def env (first args))) [
      | inl missing ↦ absurd (ground (arith, counts, missing))
      | inr (c, defined) ↦ absurd (ground (arith, counts, defined))
    ]
  ]
  term_name e d found = absurd (ground arith)

  length_of-In :
      (callee e : Expr) (rest : Exprs) (v : ℤ)
      → is_length_call env callee (cons e rest) ≡ true
      → ls.leaf (Expr.call callee (cons e rest)) ≡ value (Value.int v)
      → In v (length_of f env e)
  unfolding length_of
  length_of-In callee (Expr.list es) rest v counts e =
      rw (k.length_list callee (cons (Expr.list es) rest) es v counts refl e) (omega arith)
  length_of-In callee (Expr.str s) rest v counts e =
      rw (k.length_str callee (cons (Expr.str s) rest) s v counts refl e) (omega arith)
  length_of-In callee arg rest v counts e =
      length_at-In callee (cons arg rest) v counts e (term_of env arg)
        (λ d found. term_name arg d found)

  -- `length` of an argument, as the facts and the promise of the call measure it.
  pub measured-In :
      (callee : Expr) (args : Exprs) (v : ℤ) (promised : Range)
      → is_length_call env callee args ≡ true
      → ls.leaf (Expr.call callee args) ≡ value (Value.int v)
      → In v promised
      → In v (measured f env (first args) promised)
  measured-In callee nil v promised counts e inside = inside
  measured-In callee (cons arg rest) v promised counts e inside =
      (In-meet v promised (length_of f env arg)).1 (inside, length_of-In callee arg rest v counts e)

  pub limit-In :
      (limit : Option ℤ) (receiver : Expr) (name : Ident) (v : ℤ)
      → limit_or_leaf limit (ls.leaf (Expr.field receiver name)) ≡ value (Value.int v)
      → In v (limit_or limit (env.refined (Expr.field receiver name)))
  limit-In none receiver name v e = k.field_refined receiver name v e
  limit-In (some n) receiver name v e = ground arith
