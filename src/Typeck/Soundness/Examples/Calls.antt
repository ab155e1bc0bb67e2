-- ===== src/Typeck/Soundness/Examples/Calls.antt =====
-- A call in the world where every name is 3: `f(a)` promises 2 times its argument and hands back 6.
use deed.Prelude.{◌≡◌, refl, true, none, arith}
use deed.Prelude.Int.{ℤ, pos, neg_ℤ, ◌+ℤ◌, ◌*ℤ◌, ◌-ℤ◌}
use deed.Machine.{Fits}
use deed.Ast.{Expr, Exprs, nil, cons}
use deed.Interp.{Value, Outcome, value, signal, Leaves, eval}
use deed.Typeck.Range.{any}
use deed.Typeck.Range.Member.{In}
use deed.Typeck.Promise.{any_guarantee}
use deed.Typeck.Env.{Env, is_subject, is_subject_length, is_length_call, term_of}
use deed.Typeck.Reading.{range_of}
use deed.Typeck.Soundness.{Faithful, Kept, Calm, size}
use deed.Typeck.Soundness.Compare.{range_of-In}
use deed.Typeck.Soundness.Examples.{named, definition, threes, three-Fits, facts, facts-Describes}
use deed.Typeck.Soundness.Examples.Promises.{doubled, six-Fits}

abbrev calling : Env
calling = record {
  def_of = definition;
  length = none;
  call = λ _. record { value = doubled; ok = any_guarantee };
  refined = λ _. any;
}

abbrev answer : Expr → Outcome
answer (Expr.ident x) = value (Value.int (pos 3))
answer (Expr.call callee (cons (Expr.ident x) nil)) = value (Value.int (pos 6))
answer _ = signal 0

abbrev answers : Leaves
answers = record { leaf = answer }

answer-Fits : (e : Expr) (v : ℤ) → answer e ≡ value (Value.int v) → Fits v
answer-Fits (Expr.ident x) v e = let three : v ≡ pos 3 = ground (arith, e) in rw three three-Fits
answer-Fits (Expr.call callee (cons (Expr.ident x) nil)) v e =
    let six : v ≡ pos 6 = ground (arith, e) in rw six six-Fits
answer-Fits plain v e = absurd (ground (arith, e))

subject_three :
    (e : Expr) (v : ℤ) → is_subject e ≡ true → answer e ≡ value (Value.int v) → v ≡ pos 3
unfolding is_subject
subject_three (Expr.ident x) v h e = ground (arith, e)
subject_three plain v h e = absurd (ground (arith, h))

no_subject_length : (e : Expr) → is_subject_length calling e ≡ true → ⊥
unfolding is_subject_length is_length_call
no_subject_length (Expr.call callee args) h = ground (arith, h)
no_subject_length plain h = ground (arith, h)

no_length_call : (callee : Expr) (args : Exprs) → is_length_call calling callee args ≡ true → ⊥
unfolding is_length_call
no_length_call callee args h = ground (arith, h)

answer-Kept :
    (callee : Expr) (args : Exprs) (v : ℤ)
    → answer (Expr.call callee args) ≡ value (Value.int v)
    → Kept answers doubled args v
unfolding eval ◌*ℤ◌ ◌-ℤ◌ ◌+ℤ◌ neg_ℤ
answer-Kept callee (cons (Expr.ident x) nil) v e =
    let six : v ≡ pos 6 = ground (arith, e) in
    rw six (record {
      range = (omega arith, omega arith);
      offsets = ((pos 3, refl, (omega arith, omega arith)), tt);
    })
answer-Kept callee args v e = absurd (ground (arith, e))

answers-Faithful : Faithful threes calling answers
answers-Faithful = record {
  leaf_fits = answer-Fits;
  name_value = λ x d v h k. ground (arith, k);
  subject_value = subject_three;
  subject_length = λ e v h k. absurd (no_subject_length e h);
  length_list = λ c a es v h k l. absurd (no_length_call c a h);
  length_str = λ c a s v h k l. absurd (no_length_call c a h);
  length_name = λ c a d v h k l. absurd (no_length_call c a h);
  length_nonneg = λ c a v h k. absurd (no_length_call c a h);
  field_refined = λ r x v k. absurd (ground (arith, k));
  call_kept = answer-Kept;
  try_kept = λ c a v k. absurd (ground (arith, k));
}

-- `f(a)`.
abbrev call_of_a : Expr
call_of_a = Expr.call (named "f") (cons (named "a") nil)

call-Calm : Calm calling answers call_of_a
unfolding size eval is_subject is_subject_length is_length_call term_of ◌*ℤ◌
call-Calm = (
  omega arith,
  (omega arith, tt),
  (
    (λ x e.
        let three : x ≡ pos 3 = ground (arith, e) in
        rw three (record { low = omega arith; high = omega arith })),
    tt,
  ),
)

call-value : eval answers call_of_a ≡ value (Value.int (pos 6))
unfolding eval
call-value = refl

range_of-In_example : In (pos 6) (range_of facts calling call_of_a)
range_of-In_example =
    range_of-In threes facts facts-Describes calling answers answers-Faithful call_of_a (pos 6)
      call-Calm call-value
