-- ===== src/Typeck/Soundness/Bounds.antt =====
-- The bounds that a comparison puts on what its operands differ by.
use deed.Prelude.{◌≡◌, ◌≢◌, ◌⊎◌, true, false, some, Option-cases, Bool-cases, inl, inr, arith}
use deed.Prelude.Int.{ℤ, pos, ◌-ℤ◌, ◌+ℤ◌, neg_ℤ, ◌≤ℤ◌, ◌<ℤ◌, ltb_ℤ, eq_of_parts, int_laws}
use deed.Machine.{Fits, checked, i64_min, i64_max, eqb_ℤ}
use mathlib.Core.Path.{subst}
use deed.Ast.{BinaryOp}
use deed.Interp.{Value, value, int_op}
use deed.Typeck.Range.{Range, empty, bounded, between}
use deed.Typeck.Range.Member.{In, between-In, same_range}
use deed.Typeck.Narrow.{
  bound_from, bound_at, bound_between, negated, flipped, without_edge, up_to, from,
}

pub negated-true :
    (op other : BinaryOp) (x y : ℤ)
    → negated op ≡ some other
    → int_op op x y ≡ value (Value.bool false)
    → int_op other x y ≡ value (Value.bool true)
unfolding negated int_op
negated-true op other x y h e = ground arith

pub flipped-true :
    (op other : BinaryOp) (x y : ℤ)
    → flipped op ≡ some other
    → int_op op x y ≡ value (Value.bool true)
    → int_op other y x ≡ value (Value.bool true)
unfolding flipped int_op
flipped-true op other x y h e = ground arith

In-same : (x : ℤ) {a b : Range} → some a ≡ some b → In x a → In x b
In-same x e h = subst (In x) (same_range e) h

up_to-In : (x t : ℤ) → Fits x → x ≤ℤ t → t ≤ℤ i64_max → In x (up_to (checked t))
unfolding checked between
up_to-In x t f h k = ground (arith, f.low)

from-In : (x t : ℤ) → Fits x → t ≤ℤ x → i64_min ≤ℤ t → In x (from (checked t))
unfolding checked between
from-In x t f h k = ground (arith, f.high)

-- What the comparison says of the difference of its operands.
order_lt : (x y : ℤ) → int_op BinaryOp.lt x y ≡ value (Value.bool true) → x <ℤ y
unfolding int_op
order_lt x y e = ground arith

order_le : (x y : ℤ) → int_op BinaryOp.le x y ≡ value (Value.bool true) → x ≤ℤ y
unfolding int_op
order_le x y e = ground arith

order_eq : (x y : ℤ) → int_op BinaryOp.eq x y ≡ value (Value.bool true) → (x ≤ℤ y) × (y ≤ℤ x)
unfolding int_op
order_eq x y e = ground arith

order_gt : (x y : ℤ) → int_op BinaryOp.gt x y ≡ value (Value.bool true) → y <ℤ x
unfolding int_op
order_gt x y e = ground arith

order_ge : (x y : ℤ) → int_op BinaryOp.ge x y ≡ value (Value.bool true) → y ≤ℤ x
unfolding int_op
order_ge x y e = ground arith

bound_at-In :
    (op : BinaryOp) (least most x y s : ℤ) (r : Range)
    → Fits s
    → Fits least
    → Fits most
    → s ≤ℤ x -ℤ y +ℤ most
    → x -ℤ y +ℤ least ≤ℤ s
    → int_op op x y ≡ value (Value.bool true)
    → bound_at op least most ≡ some r
    → In s r
bound_at-In BinaryOp.lt least most x y s r f l m h k e found =
    In-same s found
      (up_to-In s (most -ℤ pos 1) f (omega (int_laws, order_lt x y e)) (omega (int_laws, m.high)))
bound_at-In BinaryOp.le least most x y s r f l m h k e found =
    In-same s found (between-In s _ most f.low (omega (int_laws, order_le x y e)))
bound_at-In BinaryOp.gt least most x y s r f l m h k e found =
    In-same s found
      (from-In s (least +ℤ pos 1) f (omega (int_laws, order_gt x y e)) (omega (int_laws, l.low)))
bound_at-In BinaryOp.ge least most x y s r f l m h k e found =
    In-same s found (between-In s least _ (omega (int_laws, order_ge x y e)) f.high)
bound_at-In BinaryOp.eq least most x y s r f l m h k e found = In-same s found (
    between-In s least most (omega (int_laws, (order_eq x y e).1))
      (omega (int_laws, (order_eq x y e).0)))
bound_at-In op least most x y s r f l m h k e found = absurd (ground arith)

checked-some : (a b : ℤ) → checked a ≡ some b → (b ≡ a) × Fits b
unfolding checked
checked-some a b h = ground arith

bound_between-In :
    (op : BinaryOp) (low high x y s : ℤ) (r : Range)
    → Fits s
    → In (x -ℤ y -ℤ s) (bounded low high)
    → int_op op x y ≡ value (Value.bool true)
    → bound_between op (checked (neg_ℤ high)) (checked (neg_ℤ low)) ≡ some r
    → In s r
bound_between-In op low high x y s r f h e found = elim (Option-cases (checked (neg_ℤ high))) [
  | inl failed ↦ absurd (ground (arith, rw failed at found))
  | inr (least, el) ↦ elim (Option-cases (checked (neg_ℤ low))) [
    | inl failed ↦ absurd (ground (arith, rw (el, failed) at found))
    | inr (most, em) ↦
        let (is_least, fl) = checked-some (neg_ℤ high) least el in
        let (is_most, fm) = checked-some (neg_ℤ low) most em in
        bound_at-In op least most x y s r f fl fm (rw is_most (omega (int_laws, h.0)))
          (rw is_least (omega (int_laws, h.1))) e (rw (el, em) at found)
  ]
]

-- The bound read off a comparison: when `x op y` holds and `x - y - s` lies in the offset, then
-- `s`, if an `i64` holds it, lies in the bound that `bound_from` finds.
pub bound_from-In :
    (op : BinaryOp) (r bound : Range) (x y s : ℤ)
    → Fits s
    → In (x -ℤ y -ℤ s) r
    → int_op op x y ≡ value (Value.bool true)
    → bound_from op r ≡ some bound
    → In s bound
unfolding bound_from checked
bound_from-In op empty bound x y s f h e found = absurd h
bound_from-In op (bounded low high) bound x y s f h e found =
    bound_between-In op low high x y s bound f h e (unfold bound_from in found)

checked_of : (t : ℤ) → Fits t → checked t ≡ some t
unfolding checked
checked_of t f = ground (arith, f.low, f.high)

either_side : (z y : ℤ) → z ≢ y → (z <ℤ y) ⊎ (y <ℤ z)
either_side z y other = elim (Bool-cases (ltb_ℤ z y)) [
  | inl below ↦ inl (ground arith)
  | inr not_below ↦ elim (Bool-cases (ltb_ℤ y z)) [
    | inl above ↦ inr (ground arith)
    | inr not_above ↦ absurd (other (eq_of_parts z y (ground arith)))
  ]
]

-- Ruling out a value loses no other: what lies in the known range and is not the excluded value
-- lies in what `without_edge` leaves.
pub without_edge-In :
    (value known r : Range) (y z : ℤ)
    → Fits y
    → Fits z
    → In y value
    → In z known
    → z ≢ y
    → without_edge value known ≡ some r
    → In z r
unfolding without_edge
without_edge-In empty known r y z fy fz hy hz other found = absurd hy
without_edge-In (bounded a b) empty r y z fy fz hy hz other found = absurd hz
without_edge-In (bounded a b) (bounded c d) r y z fy fz hy hz other found =
    elim (Bool-cases (eqb_ℤ a b)) [
      | inr wide ↦ absurd (ground (arith, rw (wide, without_edge) at found))
      | inl one ↦ elim (Bool-cases (eqb_ℤ a c)) [
        | inl low ↦ In-same z (rw (one, low, without_edge) at found) (
            let above : c <ℤ z = above_edge one low in
            rw
              (checked_of (c +ℤ pos 1) (record {
                low = omega (int_laws, fz.low, c_here one low);
                high = omega (int_laws, above, fz.high);
              }))
              (between-In z _ d (omega (int_laws, above)) hz.1))
        | inr not_low ↦ elim (Bool-cases (eqb_ℤ b d)) [
          | inl high ↦ In-same z (rw (one, not_low, high, without_edge) at found) (
              let below : z <ℤ d = below_edge one high in
              rw
                (checked_of (d -ℤ pos 1) (record {
                  low = omega (int_laws, fz.low, below);
                  high = omega (int_laws, d_here one high);
                }))
                (between-In z c _ hz.0 (omega (int_laws, below))))
          | inr not_high ↦
              absurd (ground (arith, rw (one, not_low, not_high, without_edge) at found))
        ]
      ]
    ]
  where
    c_here : eqb_ℤ a b ≡ true → eqb_ℤ a c ≡ true → i64_min ≤ℤ c
    c_here one low = ground (arith, hy.0, hy.1, fy.low)

    above_edge : eqb_ℤ a b ≡ true → eqb_ℤ a c ≡ true → c <ℤ z
    above_edge one low = ground (arith, hy.0, hy.1, hz.0, either_side z y other)

    d_here : eqb_ℤ a b ≡ true → eqb_ℤ b d ≡ true → d ≤ℤ i64_max
    d_here one high = ground (arith, hy.0, hy.1, fy.high)

    below_edge : eqb_ℤ a b ≡ true → eqb_ℤ b d ≡ true → z <ℤ d
    below_edge one high = ground (arith, hy.0, hy.1, hz.1, either_side z y other)
