-- ===== src/Typeck/Soundness/Examples/Stopped.antt =====
-- A promise that counts an argument twice, where twice the argument leaves an `i64`:
-- `Guarantee::applied` of crates/deed-typeck/src/facts.rs stops at the edge.
use deed.Prelude.{◌≡◌, refl, none, [], ◌∷◌, false, arith}
use deed.Prelude.Int.{ℤ, pos, negsuc, neg_ℤ, ◌+ℤ◌, ◌*ℤ◌, ◌-ℤ◌}
use deed.Machine.{i64_min, clamp, min_ℤ, max_ℤ, saturating_add, saturating_sub, saturating_mul}
use deed.Ast.{Expr, nil, cons, BinaryOp}
use deed.Interp.{Value, value, Leaves, eval, int_op, apply_op, apply_binary}
use deed.Typeck.Range.{bounds, bounded, any, times, shift, spread, meet, between}
use deed.Typeck.Facts.{new}
use deed.Typeck.Truth.{always}
use deed.Typeck.Truth
use deed.Typeck.Linear.{constant, negate, scale, scale_terms, add_terms, pair, pair_from}
use deed.Typeck.Linear
use deed.Typeck.Range
use deed.Typeck.Promise.{Guarantee, any_guarantee, applied, apply_offsets}
use deed.Typeck.Env.{
  Env, is_subject, is_subject_length, is_length_call, term_of, subject_term, subject_range,
}
use deed.Typeck.Prover.{
  holds, compare, compare_ranges, difference_of, difference_from, verdict, unresolved_comparison,
}
use deed.Typeck.Reading.{
  range_of, linear, subject_first, both, read, range_from, related, related_form,
}
use deed.Typeck.Reading
use deed.Typeck.Contract.{overflowing, divisor_zero}
use deed.Typeck.Soundness.{Kept}
use deed.Typeck.Soundness.Examples.{here, named}

abbrev large : ℤ
large = pos 4611686018427387907

-- What `ensures result - n <= n - 9223372036854775798` promises.
abbrev near_double : Guarantee
near_double = record {
  range = any;
  offsets =
      (0, record { factor = pos 2; range = bounded i64_min (negsuc 9223372036854775797) }) ∷ [];
}

abbrev promising : Env
promising = record {
  def_of = λ _. none;
  length = none;
  call = λ _. record { value = near_double; ok = any_guarantee };
  refined = λ _. any;
}

abbrev call_of_large : Expr
call_of_large = Expr.call (named "f") (cons (Expr.int large) nil)

abbrev hands_back_ten : Leaves
hands_back_ten = record { leaf = λ _. value (Value.int (pos 10)) }

-- `f(large) < 10`.
abbrev below_ten : Expr
below_ten = Expr.binary BinaryOp.lt call_of_large (Expr.int (pos 10)) here

-- The result 10 keeps the promise.
ten-Kept : Kept hands_back_ten near_double (cons (Expr.int large) nil) (pos 10)
unfolding eval ◌*ℤ◌ ◌-ℤ◌ ◌+ℤ◌ neg_ℤ
ten-Kept = record {
  range = (omega arith, omega arith);
  offsets = ((large, refl, (omega arith, omega arith)), tt);
}

-- The range that is read stops at 9,
stopped : range_of new promising call_of_large ≡ bounded (negsuc 0) (pos 9)
unfolding range_of read range_from related related_form subject_first subject_term subject_range
    is_subject is_subject_length is_length_call term_of Reading.named both constant applied
    apply_offsets meet times shift between clamp min_ℤ max_ℤ saturating_mul saturating_add ◌*ℤ◌ ◌+ℤ◌
stopped = refl

-- so the comparison is judged to hold always,
judged : holds new promising below_ten ≡ always
unfolding holds compare compare_ranges difference_of difference_from verdict unresolved_comparison
    linear range_of read range_from related related_form subject_first subject_term subject_range
    is_subject is_subject_length is_length_call term_of Reading.named both constant Linear.add
    add_terms negate scale_terms scale pair pair_from Linear.total Linear.total_of applied
    apply_offsets meet times shift spread between clamp min_ℤ max_ℤ saturating_mul saturating_add
    saturating_sub Truth.and Truth.or Truth.of Truth.negate Range.add Range.sub Range.negate ◌*ℤ◌
    ◌+ℤ◌ ◌-ℤ◌ neg_ℤ
judged = refl

-- and it fails.
fails : eval hands_back_ten below_ten ≡ value (Value.bool false)
unfolding eval apply_binary apply_op int_op
fails = refl

-- What `ensures result - n < n - Int.max` promises: the result is 2 ^ 63 less than twice `n`.
abbrev lowest : Guarantee
lowest = record {
  range = any;
  offsets = (0, record { factor = pos 2; range = bounded i64_min i64_min }) ∷ [];
}

abbrev half_edge : ℤ
half_edge = pos 4611686018427387904

abbrev call_of_half : Expr
call_of_half = Expr.call (named "f") (cons (Expr.int half_edge) nil)

-- The result 0 keeps that promise for 2 ^ 62,
zero-Kept :
    Kept
      (record { leaf = λ _. value (Value.int (pos 0)) })
      lowest
      (cons (Expr.int half_edge) nil)
      (pos 0)
unfolding eval ◌*ℤ◌ ◌-ℤ◌ ◌+ℤ◌ neg_ℤ
zero-Kept = record {
  range = (omega arith, omega arith);
  offsets = ((half_edge, refl, (omega arith, omega arith)), tt);
}

-- and no complaint is made about dividing by it.
unnoticed :
    overflowing new
      (record promising { call = λ _. record { value = lowest; ok = any_guarantee } })
      (Expr.binary BinaryOp.div (Expr.int (pos 10)) call_of_half here)
    ≡ none
unfolding overflowing divisor_zero bounds range_of read range_from related related_form
    subject_first subject_term subject_range is_subject is_subject_length is_length_call term_of
    Reading.named both constant applied apply_offsets meet times shift between clamp min_ℤ max_ℤ
    saturating_mul saturating_add ◌*ℤ◌ ◌+ℤ◌
unnoticed = refl
