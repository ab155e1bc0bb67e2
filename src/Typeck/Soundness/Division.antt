-- ===== src/Typeck/Soundness/Division.antt =====
-- `overflowing`, against the values of divisors.
use deed.Prelude.{◌≡◌, ◌≢◌, ◌⊎◌, Option, none, some, arith}
use deed.Prelude.Int.{ℤ, pos}
use mathlib.Core.Path.{subst}
use deed.Ast.{Expr, BinaryOp, Span}
use deed.Interp.{Value, value, Leaves, eval}
use deed.Typeck.Range.{Range, empty, bounded, bounds}
use deed.Typeck.Range.Member.{In}
use deed.Typeck.Facts.{Facts}
use deed.Typeck.Facts.World.{World, Describes}
use deed.Typeck.Env.{Env}
use deed.Typeck.Reading.{range_of}
use deed.Typeck.Contract.{overflowing, holds_zero, divisor_zero, innermost}
use deed.Typeck.Soundness.{Faithful, Calm}
use deed.Typeck.Soundness.Compare.{range_of-In}

apart-nonzero :
    (low high y : ℤ) (span : Span)
    → holds_zero (some (low, high)) span ≡ none
    → In y (bounded low high)
    → y ≢ pos 0
apart-nonzero low high y span quiet h same =
    let at_zero : In (pos 0) (bounded low high) = subst (λ z. In z (bounded low high)) same h in
    ground (arith, at_zero.0, at_zero.1)

divisor-nonzero :
    (op : BinaryOp) (range : Range) (span : Span) (y : ℤ)
    → (op ≡ BinaryOp.div) ⊎ (op ≡ BinaryOp.rem)
    → divisor_zero op range span ≡ none
    → In y range
    → y ≢ pos 0
unfolding divisor_zero bounds
divisor-nonzero op empty span y division quiet h = absurd h
divisor-nonzero BinaryOp.div (bounded low high) span y division quiet h =
    apart-nonzero low high y span quiet h
divisor-nonzero BinaryOp.rem (bounded low high) span y division quiet h =
    apart-nonzero low high y span quiet h
divisor-nonzero op (bounded low high) span y division quiet h = absurd (ground arith)

module _ (w : World) (f : Facts) (h : Describes w f) (env : Env) (ls : Leaves)
    (k : Faithful w env ls) where
  -- When `overflowing` is quiet about a division or a remainder, its divisor, if calm and an
  -- integer, does not evaluate to zero, in every world that the facts describe and with
  -- leaves faithful to it. Calm includes that no multiple of an argument that the promise of
  -- a call counts leaves an `i64`.
  pub overflowing-nonzero :
      (op : BinaryOp) (lhs rhs : Expr) (span : Span) (y : ℤ)
      → (op ≡ BinaryOp.div) ⊎ (op ≡ BinaryOp.rem)
      → overflowing f env (Expr.binary op lhs rhs span) ≡ none
      → Calm env ls rhs
      → eval ls rhs ≡ value (Value.int y)
      → y ≢ pos 0
  unfolding overflowing
  overflowing-nonzero op lhs rhs span y division quiet calm evaluates =
      divisor-nonzero op (range_of f env rhs) span y division
        (own (overflowing f env lhs) (overflowing f env rhs) _ quiet)
        (range_of-In w f h env ls k rhs y calm evaluates)
    where
      own : (a b o : Option Span) → innermost a b o ≡ none → o ≡ none
      own a b o e = ground arith
