-- ===== src/Prelude/Lists.antt =====
-- Lists measured and indexed by native numbers, and predicates on lists by recursion.
use Prim.Native.Nat.{ℕ, zero, suc, ◌+◌}
use mathlib.Core.Path.{◌≡◌, refl}
use mathlib.Core.List.{List, [], ◌∷◌, ◌++◌}
use mathlib.Core.Option.{Option, none, some}
use native.Mathlib.Omega.{arith}

module _ {ℓ} {A : Type ℓ} where
  abbrev pub length : List A → ℕ
  length [] = 0
  length (x ∷ xs) = suc (length xs)

  abbrev pub get_elem? : List A → ℕ → Option A
  get_elem? [] i = none
  get_elem? (x ∷ xs) zero = some x
  get_elem? (x ∷ xs) (suc i) = get_elem? xs i

  pub length-append : (xs ys : List A) → length (xs ++ ys) ≡ length xs + length ys
  length-append [] ys = omega arith
  length-append (x ∷ xs) ys = omega (arith, length-append xs ys)

module _ {ℓ κ} {A : Type ℓ} where
  abbrev pub All : (A → Type κ) → List A → Type κ
  All P [] = Unit
  All P (x ∷ xs) = P x × All P xs

module _ {ℓ} {A : Type ℓ} where
  -- The first `n` elements and the others, if there are as many.
  unfoldable pub split_at? : ℕ → List A → Option (List A × List A)
  split_at? zero xs = some ([], xs)
  split_at? (suc n) [] = none
  split_at? (suc n) (x ∷ xs) = elim (split_at? n xs) [
    | none ↦ none
    | some (front, back) ↦ some (x ∷ front, back)
  ]

  pub split_at?-length : (xs ys : List A) → split_at? (length xs) (xs ++ ys) ≡ some (xs, ys)
  unfolding split_at?
  split_at?-length [] ys = refl
  split_at?-length (x ∷ xs) ys = rw (split_at?-length xs ys) refl
