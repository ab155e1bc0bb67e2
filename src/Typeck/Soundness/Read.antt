-- ===== src/Typeck/Soundness/Read.antt =====
-- The range that an expression is read to have, against its value.
use mathlib.Core.Path.{subst}
use deed.Prelude.{ℕ, ◌≡◌, none, some, Option-cases, Bool-cases, inl, inr}
use deed.Prelude.Int.{ℤ, ◌+ℤ◌, ◌-ℤ◌, int_laws}
use deed.Machine.{Fits}
use deed.Ast.{Expr}
use deed.Typeck.Range.{Range, any, meet}
use deed.Typeck.Range
use deed.Typeck.Range.Member.{In, In-meet, same_range}
use deed.Typeck.Range.Arith.{add-In}
use deed.Typeck.Facts.{Facts, difference, total}
use deed.Typeck.Facts.World.{World, Describes, difference-In, total-In}
use deed.Typeck.Linear.{Linear, pair}
use deed.Typeck.Linear
use deed.Typeck.Linear.Denotes.{sum}
use deed.Typeck.Linear.Shapes.{pair-sum, total-sum}
use deed.Typeck.Reading.{Reading, range_from, related, related_form, is_sum}
use deed.Typeck.Soundness.Arithmetic.{Denotes}
use deed.Typeck.Soundness.Leaf.{ReadAs}

module _ (w : World) (f : Facts) (h : Describes w f) where
  restore : (v s : ℤ) → s +ℤ (v -ℤ s) ≡ v
  restore v s = omega int_laws

  -- A form whose terms come to `s` has the value that the facts about `s` allow.
  apart-In :
      (n : ℕ) (v s : ℤ) (l : Linear) (known : Range)
      → Fits v
      → Denotes w n v l
      → sum w l.terms ≡ s
      → In s known
      → In v (Range.add known l.offset)
  apart-In n v s l known fv d terms k = rw (restore v s) at (
      add-In s (v -ℤ s) known l.offset (rw (restore v s) fv) k
        (subst (λ z. In (v -ℤ z) l.offset) terms d.rest))

  related_form-In :
      (n : ℕ) (v : ℤ) (l : Linear) (r : Range)
      → Fits v
      → Denotes w n v l
      → related_form f l ≡ some r
      → In v r
  unfolding related_form
  related_form-In n v l r fv d e = elim (Option-cases (pair l)) [
    | inr ((a, b), found) ↦
        let shape : some (Range.add (difference f a b) l.offset) ≡ some r =
          rw (found, related_form) at e in
        subst (λ z. In v z) (same_range shape)
          (apart-In n v _ l (difference f a b) fv d (pair-sum w l a b found)
            (difference-In w f h a b))
    | inl no_pair ↦ elim (Option-cases (Linear.total l)) [
      | inr ((a, b), found) ↦
          let shape : some (Range.add (total f a b) l.offset) ≡ some r =
            rw (no_pair, found, related_form) at e in
          subst (λ z. In v z) (same_range shape)
            (apart-In n v _ l (total f a b) fv d (total-sum w l a b found) (total-In w f h a b))
      | inl no_total ↦ let failed : none ≡ some r = rw (no_pair, no_total, related_form) at e in cc
    ]
  ]

  -- An expression that reads as a value has that value in its range.
  pub range_from-In :
      (e : Expr) (n : ℕ) (v : ℤ) (r : Reading) → Fits v → ReadAs w n v r → In v (range_from f e r)
  unfolding range_from related
  range_from-In e n v r fv d = elim (Bool-cases (is_sum e)) [
    | inr apart ↦ rw (apart, range_from) d.interval
    | inl summed ↦ elim (Option-cases (related_form f r.form)) [
      | inl nothing ↦ rw (summed, nothing, range_from) d.interval
      | inr (known, found) ↦
          rw (summed, found, range_from)
            ((In-meet v r.interval known).1
              (d.interval, related_form-In n v r.form known fv d.form found))
    ]
  ]
