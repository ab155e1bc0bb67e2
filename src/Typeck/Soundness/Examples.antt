-- ===== src/Typeck/Soundness/Examples.antt =====
-- The theorems of the checker's reasoning at one world: every name and every length is 3, and a name
-- evaluates to 3.
mod Promises
mod Edges
mod Calls
mod Stopped
use deed.Prelude.{
  ◌≡◌, refl, ◌≢◌, inl, none, some, Option, [], ◌∷◌, true, String, if◌then◌else◌, arith,
}
use deed.Prelude.Int.{ℤ, pos, negsuc, neg_ℤ, ◌+ℤ◌, ◌*ℤ◌, ◌-ℤ◌, ◌≤ℤ◌}
use text.Mathlib.Text.{◌==◌ as str_eq}
use deed.Machine.{Fits, checked}
use deed.Ast.{Expr, Exprs, nil, cons, BinaryOp, Span}
use deed.Interp.{Value, Outcome, value, signal, Leaves, eval, int_op, apply_op, apply_binary}
use deed.Typeck.Range.{bounded, any, exactly, between, bounds}
use deed.Typeck.Range.Member.{In}
use deed.Typeck.Truth.{Agrees}
use deed.Typeck.Facts.{DefId, name, Facts, get, new, set, settle, narrow_difference, join_facts}
use deed.Typeck.Facts.World.{World, Describes}
use deed.Typeck.Facts.Sound.{settle-Describes, narrow_difference-Describes}
use deed.Typeck.Facts.Branches.{join-Describes_left, join-Describes_right, set-Describes}
use deed.Typeck.Promise.{any_promise, Guarantee, applied, meet_guarantee}
use deed.Typeck.Env.{
  Env, is_subject, is_subject_length, is_length_call, term_of, subject_term, subject_range,
}
use deed.Tables.{lookup}
use deed.Typeck.Reading
use deed.Typeck.Reading.{range_of, range_from, read, related, subject_first}
use deed.Typeck.Prover.{holds}
use deed.Typeck.Narrow.{narrowed, bound_from, without_edge}
use deed.Typeck.Contract.{overflowing, divisor_zero}
use deed.Typeck.Soundness.{Faithful, Kept, Calm, size, outcome_size}
use deed.Typeck.Soundness.Guarantees.{meet_guarantee-Kept}
use deed.Typeck.Soundness.Call.{applied-In}
use deed.Typeck.Soundness.Bounds.{bound_from-In, without_edge-In}
use deed.Typeck.Soundness.Compare.{Comparable, holds-Agrees, range_of-In}
use deed.Typeck.Soundness.Narrowing.{narrowed-Describes}
use deed.Typeck.Soundness.Division.{overflowing-nonzero}

abbrev here : Span
here = record { start = 0; stop = 0 }

abbrev named : String → Expr
named s = Expr.ident (record { name = s; span = here })

abbrev definition : Expr → Option DefId
definition (Expr.ident x) =
    if str_eq x.name "a" then some 1 else if str_eq x.name "b" then some 2 else none
definition _ = none

abbrev env : Env
env = record { def_of = definition; length = none; call = λ _. any_promise; refined = λ _. any }

three-Fits : Fits (pos 3)
three-Fits = record { low = ground arith; high = ground arith }

difference_three : Fits (pos 3 -ℤ pos 3)
unfolding ◌-ℤ◌ ◌+ℤ◌ neg_ℤ
difference_three = record { low = omega arith; high = omega arith }

total_three : Fits (pos 3 +ℤ pos 3)
unfolding ◌+ℤ◌
total_three = record { low = omega arith; high = omega arith }

three_nonneg : pos 0 ≤ℤ pos 3
three_nonneg = omega arith

abbrev threes : World
threes = record {
  value = λ _. pos 3;
  value_fits = λ _. three-Fits;
  length_nonneg = λ _. three_nonneg;
  difference_fits = λ _ _. difference_three;
  total_fits = λ _ _. total_three;
  subject_value = pos 3;
  subject_length = pos 3;
}

abbrev leaf_of : Expr → Outcome
leaf_of (Expr.ident x) = value (Value.int (pos 3))
leaf_of _ = signal 0

abbrev leaves : Leaves
leaves = record { leaf = leaf_of }

leaf_three : (e : Expr) (v : ℤ) → leaf_of e ≡ value (Value.int v) → v ≡ pos 3
leaf_three (Expr.ident x) v e = ground arith
leaf_three plain v e = absurd (ground arith)

faithful : Faithful threes env leaves
faithful = record {
  leaf_fits = λ e v h. rw (leaf_three e v h) three-Fits;
  name_value = λ x d v h k. leaf_three (Expr.ident x) v k;
  subject_value = λ e v h k. leaf_three e v k;
  subject_length = λ e v h k. leaf_three e v k;
  length_list = λ c a es v h k l. absurd (ground (arith, l));
  length_str = λ c a s v h k l. absurd (ground (arith, l));
  length_name = λ c a d v h k l. absurd (ground (arith, l));
  length_nonneg = λ c a v h k. absurd (ground (arith, k));
  field_refined = λ r x v k. absurd (ground (arith, k));
  call_kept = λ c a v k. absurd (ground (arith, k));
  try_kept = λ c a v k. absurd (ground (arith, k));
}

-- What is known: the first name lies between 1 and 10, and it is at most the second.
abbrev facts : Facts
facts = record {
  known = (name 1, bounded (pos 1) (pos 10)) ∷ [];
  differences = ((name 1, name 2), bounded (negsuc 7) (pos 0)) ∷ [];
  totals = [];
  subject = none;
}

facts-Describes : Describes threes facts
unfolding ◌-ℤ◌ ◌+ℤ◌ neg_ℤ
facts-Describes = record {
  known = ((omega arith, omega arith), tt);
  differences = ((omega arith, omega arith), tt);
  totals = tt;
  subject = λ s e. absurd (ground (arith, e));
}

apart_here : In (pos 3 -ℤ pos 3) (bounded (negsuc 1) (pos 0))
unfolding ◌-ℤ◌ ◌+ℤ◌ neg_ℤ
apart_here = (omega arith, omega arith)

abbrev sum : Expr
sum = Expr.binary BinaryOp.add (named "a") (Expr.int (pos 1)) here

-- `a + 1 > 0`.
abbrev positive : Expr
positive = Expr.binary BinaryOp.gt sum (Expr.int (pos 0)) here

same_int : {n : ℤ} {v : Value} → value (Value.int n) ≡ value v → v ≡ Value.int n
same_int e = cc

positive-Comparable : Comparable env leaves outcome_size sum (Expr.int (pos 0))
unfolding size eval is_subject is_subject_length is_length_call term_of apply_binary apply_op int_op
    checked ◌+ℤ◌
positive-Comparable = record {
  left_calm = (omega arith, omega arith, omega arith);
  right_calm = omega arith;
  room = omega arith;
  left_int = λ v e. (pos 4, same_int e);
  right_int = λ v e. (pos 0, same_int e);
}

positive-true : eval leaves positive ≡ value (Value.bool true)
unfolding eval apply_binary apply_op int_op checked ◌+ℤ◌
positive-true = refl

holds-Agrees_example : Agrees (holds facts env positive) true
holds-Agrees_example =
    holds-Agrees threes facts facts-Describes env leaves faithful outcome_size positive true
      positive-Comparable positive-true

narrowed-Describes_example : Describes threes (narrowed positive facts env true)
narrowed-Describes_example =
    narrowed-Describes threes env leaves faithful positive facts true facts-Describes
      positive-Comparable positive-true

settle-Describes_example : Describes threes (settle facts)
settle-Describes_example = settle-Describes threes facts facts-Describes

narrow_difference-Describes_example :
    Describes threes (narrow_difference facts (name 1) (name 2) (bounded (negsuc 1) (pos 0)))
narrow_difference-Describes_example =
    narrow_difference-Describes threes facts (name 1) (name 2) (bounded (negsuc 1) (pos 0))
      facts-Describes apart_here

join-Describes_left_example : Describes threes (join_facts facts new)
join-Describes_left_example = join-Describes_left threes facts new facts-Describes

join-Describes_right_example : Describes threes (join_facts new facts)
join-Describes_right_example = join-Describes_right threes new facts facts-Describes

set-Describes_example : Describes threes (set facts 1 (bounded (pos 2) (pos 5)))
set-Describes_example =
    set-Describes threes threes 1 (λ t e. refl) facts (bounded (pos 2) (pos 5)) refl facts-Describes
      (omega arith, omega arith)

-- `b / a`.
quiet : overflowing facts env (Expr.binary BinaryOp.div (named "b") (named "a") here) ≡ none
unfolding overflowing divisor_zero bounds range_of read range_from related subject_first
    subject_term subject_range Reading.named term_of get lookup
quiet = refl

three-Calm : Calm env leaves (named "a")
unfolding size eval is_subject is_subject_length is_length_call term_of
three-Calm = omega arith

three-value : eval leaves (named "a") ≡ value (Value.int (pos 3))
unfolding eval
three-value = refl

overflowing-nonzero_example : pos 3 ≢ pos 0
overflowing-nonzero_example =
    overflowing-nonzero threes facts facts-Describes env leaves faithful BinaryOp.div (named "b")
      (named "a") here (pos 3) (inl refl) quiet three-Calm three-value
