-- ===== src/Typeck/Soundness/Call.antt =====
-- What a call promises, applied to the ranges of its arguments.
use deed.Prelude.{ℕ, zero, suc, ◌≡◌, List, [], ◌∷◌, All, get_elem?}
use deed.Prelude.Int.{ℤ, ◌+ℤ◌, ◌-ℤ◌, ◌*ℤ◌, int_laws}
use deed.Machine.{Fits}
use deed.Ast.{Exprs, nil, cons}
use deed.Interp.{Value, value, Leaves, eval}
use deed.Typeck.Range.{Range}
use deed.Typeck.Range.Member.{In, In-meet}
use deed.Typeck.Range.Arith.{shift-In, times-In}
use deed.Typeck.Promise.{Scaled, Guarantee, applied, apply_offsets, apply_scaled}
use deed.Typeck.Soundness.{KeptAt, Kept, CountedAt, Counted}

-- Each range holds the value of the argument at its place, when that is an integer.
abbrev pub ArgsIn : Leaves → Exprs → List Range → Type 0
ArgsIn ls nil [] = Unit
ArgsIn ls (cons e es) (r ∷ rs) =
    ((x : ℤ) → eval ls e ≡ value (Value.int x) → In x r) × ArgsIn ls es rs
ArgsIn ls _ _ = ⊥

module _ (ls : Leaves) (v : ℤ) (fv : Fits v) where
  apart_again : (y : ℤ) → y +ℤ (v -ℤ y) ≡ v
  apart_again y = omega int_laws

  apply_scaled-In :
      (args : Exprs) (ranges : List Range) (i : ℕ) (s : Scaled) (range : Range)
      → ArgsIn ls args ranges
      → KeptAt ls args i s v
      → CountedAt ls args i s
      → In v range
      → In v (apply_scaled range (get_elem? ranges i) s)
  apply_scaled-In nil [] i s range a k c h = h
  apply_scaled-In nil (r ∷ rs) i s range a k c h = absurd a
  apply_scaled-In (cons e es) [] i s range a k c h = absurd a
  apply_scaled-In (cons e es) (r ∷ rs) zero s range a (x, evaluates, near) c h =
      (In-meet v range _).1 (
        h,
        rw apart_again at (
            shift-In (x *ℤ s.factor) (v -ℤ x *ℤ s.factor) _ s.range (rw apart_again fv)
              (times-In x s.factor r (c x evaluates) (a.0 x evaluates)) near),
      )
  apply_scaled-In (cons e es) (r ∷ rs) (suc i) s range a k c h =
      apply_scaled-In es rs i s range a.1 k c h

  apply_offsets-In :
      (args : Exprs) (ranges : List Range) (offsets : List (ℕ × Scaled)) (range : Range)
      → ArgsIn ls args ranges
      → All (λ (o : ℕ × Scaled). KeptAt ls args o.0 o.1 v) offsets
      → All (λ (o : ℕ × Scaled). CountedAt ls args o.0 o.1) offsets
      → In v range
      → In v (apply_offsets range offsets ranges)
  unfolding apply_offsets
  apply_offsets-In args ranges [] range a k c h = h
  apply_offsets-In args ranges ((i, s) ∷ offsets) range a k c h =
      apply_offsets-In args ranges offsets _ a k.1 c.1
        (apply_scaled-In args ranges i s range a k.0 c.0 h)

  -- What a call promises, applied to ranges that hold the integer values of its arguments,
  -- holds an `i64` result that keeps the promise, when no multiple of an argument that the
  -- promise counts leaves an `i64`.
  pub applied-In :
      (g : Guarantee) (args : Exprs) (ranges : List Range)
      → ArgsIn ls args ranges
      → Kept ls g args v
      → Counted ls g args
      → In v (applied g ranges)
  unfolding applied
  applied-In g args ranges a k c =
      apply_offsets-In args ranges g.offsets g.range a k.offsets c k.range
