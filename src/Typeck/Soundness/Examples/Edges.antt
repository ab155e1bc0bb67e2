-- ===== src/Typeck/Soundness/Examples/Edges.antt =====
-- The bounds of comparisons at concrete offsets.
use deed.Prelude.{refl, arith}
use deed.Prelude.Int.{pos, neg_ℤ, ◌+ℤ◌, ◌-ℤ◌}
use deed.Machine.{checked}
use deed.Ast.{BinaryOp}
use deed.Interp.{int_op}
use deed.Typeck.Range.{bounded, exactly, between}
use deed.Typeck.Range.Member.{In}
use deed.Typeck.Narrow.{bound_from, without_edge}
use deed.Typeck.Soundness.Bounds.{bound_from-In, without_edge-In}
use deed.Typeck.Soundness.Examples.{three-Fits}

bound_from-In_example : In (pos 2) (bounded (pos 1) (pos 9223372036854775807))
unfolding ◌-ℤ◌ ◌+ℤ◌ neg_ℤ bound_from checked between int_op
bound_from-In_example =
    bound_from-In BinaryOp.gt (exactly (pos 0)) (bounded (pos 1) (pos 9223372036854775807)) (pos 2)
      (pos 0) (pos 2) (record { low = omega arith; high = omega arith }) (omega arith, omega arith)
      refl refl

without_edge-In_example : In (pos 3) (bounded (pos 1) (pos 10))
unfolding without_edge checked between ◌+ℤ◌
without_edge-In_example =
    without_edge-In (exactly (pos 0)) (bounded (pos 0) (pos 10)) (bounded (pos 1) (pos 10)) (pos 0)
      (pos 3) (record { low = omega arith; high = omega arith }) three-Fits
      (omega arith, omega arith) (omega arith, omega arith) (λ e. absurd (ground (arith, e))) refl
