-- ===== src/Typeck/Range/Arith.antt =====
-- The arithmetic on ranges, against the checked operations of the program and the clamped ones of the
-- checker.
use deed.Prelude.{arith, ◌≡◌}
use deed.Prelude.Int.{ℤ, neg_ℤ, ◌+ℤ◌, ◌-ℤ◌, ◌*ℤ◌, ◌≤ℤ◌, int_laws}
use deed.Machine.{Fits, clamp, saturating_add, saturating_sub, saturating_mul, saturating_neg}
use deed.Machine.Order.{clamp-le, le-clamp, product_between, product_corners, min-clamp, max-clamp}
use deed.Typeck.Range.{Range, empty, bounded, between, add, sub, mul, negate, spread, shift, times}
use deed.Typeck.Range.Member.{In, between-In}

-- A clamped interval around an integer that an `i64` holds still holds it.
clamped-In :
    (x low high : ℤ) → Fits x → low ≤ℤ x → x ≤ℤ high → In x (between (clamp low) (clamp high))
clamped-In x low high f h k =
    between-In x (clamp low) (clamp high) (clamp-le low x f.low h) (le-clamp high x f.high k)

pub shift-In : (x y : ℤ) (a b : Range) → Fits (x +ℤ y) → In x a → In y b → In (x +ℤ y) (shift a b)
unfolding shift saturating_add
shift-In x y (bounded a b) (bounded c d) f h k =
    clamped-In (x +ℤ y) (a +ℤ c) (b +ℤ d) f (omega int_laws) (omega int_laws)
shift-In x y (bounded a b) empty f h k = absurd k
shift-In x y empty _ f h k = absurd h

pub spread-In : (x y : ℤ) (a b : Range) → Fits (x -ℤ y) → In x a → In y b → In (x -ℤ y) (spread a b)
unfolding spread saturating_sub
spread-In x y (bounded a b) (bounded c d) f h k =
    clamped-In (x -ℤ y) (a -ℤ d) (b -ℤ c) f (omega int_laws) (omega int_laws)
spread-In x y (bounded a b) empty f h k = absurd k
spread-In x y empty _ f h k = absurd h

-- The nearest integer that an `i64` holds lies between the nearest of the ends.
clamp-In : (x low high : ℤ) → low ≤ℤ x → x ≤ℤ high → In (clamp x) (between (clamp low) (clamp high))
unfolding clamp
clamp-In x low high h k = between-In _ _ _ (ground arith) (ground arith)

-- A sum and a difference that an `i64` does not hold stand in the range as the nearest one it holds.
pub shift-clamp : (x y : ℤ) (a b : Range) → In x a → In y b → In (clamp (x +ℤ y)) (shift a b)
unfolding shift saturating_add
shift-clamp x y (bounded a b) (bounded c d) h k =
    clamp-In (x +ℤ y) (a +ℤ c) (b +ℤ d) (omega int_laws) (omega int_laws)
shift-clamp x y (bounded a b) empty h k = absurd k
shift-clamp x y empty _ h k = absurd h

pub spread-clamp : (x y : ℤ) (a b : Range) → In x a → In y b → In (clamp (x -ℤ y)) (spread a b)
unfolding spread saturating_sub
spread-clamp x y (bounded a b) (bounded c d) h k =
    clamp-In (x -ℤ y) (a -ℤ d) (b -ℤ c) (omega int_laws) (omega int_laws)
spread-clamp x y (bounded a b) empty h k = absurd k
spread-clamp x y empty _ h k = absurd h

pub negate-In : (x : ℤ) (a : Range) → Fits (neg_ℤ x) → In x a → In (neg_ℤ x) (negate a)
unfolding negate saturating_neg
negate-In x (bounded a b) f h =
    clamped-In (neg_ℤ x) (neg_ℤ b) (neg_ℤ a) f (omega int_laws) (omega int_laws)
negate-In x empty f h = absurd h

-- The sum of two integers of two ranges, if an `i64` holds it, lies in the sum of the ranges.
pub add-In : (x y : ℤ) (a b : Range) → Fits (x +ℤ y) → In x a → In y b → In (x +ℤ y) (add a b)
unfolding add saturating_add
add-In x y (bounded a b) (bounded c d) f h k =
    clamped-In (x +ℤ y) (a +ℤ c) (b +ℤ d) f (omega int_laws) (omega int_laws)
add-In x y (bounded a b) empty f h k = absurd k
add-In x y empty _ f h k = absurd h

-- The difference of two integers of two ranges, if an `i64` holds it and the negation of the
-- second one, lies in the difference of the ranges.
pub sub-In :
    (x y : ℤ) (a b : Range)
    → Fits (neg_ℤ y)
    → Fits (x -ℤ y)
    → In x a
    → In y b
    → In (x -ℤ y) (sub a b)
unfolding sub negate
sub-In x y a (bounded c d) fy f h k = rw plus_negation at (
    add-In x (neg_ℤ y) a (negate (bounded c d)) (rw plus_negation f) h
      (negate-In y (bounded c d) fy k))
  where
    plus_negation : x +ℤ neg_ℤ y ≡ x -ℤ y
    plus_negation = omega int_laws
sub-In x y a empty fy f h k = absurd k

-- The product of two integers of two ranges, if an `i64` holds it, lies in the product of the
-- ranges.
pub mul-In : (x y : ℤ) (a b : Range) → Fits (x *ℤ y) → In x a → In y b → In (x *ℤ y) (mul a b)
unfolding mul saturating_mul
mul-In x y (bounded a b) (bounded c d) f h k =
    let around = product_corners a b c d x y h.0 h.1 k.0 k.1 in
    simp (min-clamp, max-clamp) (clamped-In (x *ℤ y) _ _ f around.0 around.1)
mul-In x y (bounded a b) empty f h k = absurd k
mul-In x y empty _ f h k = absurd h

pub times-In :
    (x factor : ℤ) (a : Range) → Fits (x *ℤ factor) → In x a → In (x *ℤ factor) (times a factor)
unfolding times saturating_mul
times-In x factor (bounded a b) f h =
    let around = product_between a b x factor h.0 h.1 in
    simp (min-clamp, max-clamp) (clamped-In (x *ℤ factor) _ _ f around.0 around.1)
times-In x factor empty f h = absurd h
