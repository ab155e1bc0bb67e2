-- ===== src/Typeck/Linear/Shapes.antt =====
-- Scaling a form, and the three shapes of a form that facts have an entry for: the difference of a
-- pair, the total of a pair, and one term counted some number of times.
use deed.Prelude.{
  ◌+◌, ◌*◌, ◌≤◌, ◌≡◌, refl, sym, ap, ◌∙◌, Option, none, some, [], ◌∷◌, if◌then◌else◌, Bool-cases,
  Option-cases, ◌⊎◌, inl, inr, arith,
}
use deed.Prelude.Int.{
  ℤ, pos, negsuc, ◌+ℤ◌, ◌-ℤ◌, ◌*ℤ◌, int_laws, parts_of_eq, *ℤ_add, *ℤ_comm, *ℤ_assoc, +ℤ_zero,
  zero-mul_ℤ, one-mul_ℤ, minus_one-mul_ℤ,
}
use deed.Machine.{checked, eqb_ℤ, eqb_ℤ→eq}
use deed.Typeck.Facts.{Term}
use deed.Typeck.Facts.World.{World}
use deed.Typeck.Linear.{
  Terms, Linear, scale_terms, pair_from, pair, total_of, total, scaled_name_of, scaled_name,
}
use deed.Typeck.Linear.Denotes.{weight, magnitude, sum}

pub magnitude-mul : (a b : ℤ) → magnitude (a *ℤ b) ≤ magnitude a * magnitude b
unfolding ◌*ℤ◌
magnitude-mul a b = ground arith

scale_cons :
    (t : Term) (c factor : ℤ) (m n : Terms)
    → scale_terms ((t, c) ∷ m) factor ≡ some n
    → (m' : Terms) × (scale_terms m factor ≡ some m')
      × (n ≡ (if eqb_ℤ (c *ℤ factor) (pos 0) then m' else (t, c *ℤ factor) ∷ m'))
unfolding scale_terms checked
scale_cons t c factor m n h = elim (Option-cases (scale_terms m factor)) [
  | inl failed ↦ absurd (ground (arith, failed))
  | inr (m', e) ↦ (m', e, ground (arith, e))
]

scale_nil : (factor : ℤ) (n : Terms) → scale_terms [] factor ≡ some n → n ≡ []
unfolding scale_terms
scale_nil factor n h = ground arith

dropped_weight :
    (t : Term) (c : ℤ) (m : Terms)
    → weight (if eqb_ℤ c (pos 0) then m else (t, c) ∷ m) ≤ magnitude c + weight m
unfolding weight
dropped_weight t c m = ground arith

swap_factor : (c f v : ℤ) → c *ℤ f *ℤ v ≡ c *ℤ v *ℤ f
swap_factor c f v = *ℤ_assoc c f v ∙ ap (λ x. c *ℤ x) (*ℤ_comm f v) ∙ sym (*ℤ_assoc c v f)

-- The two ways in which the walk of `pair` goes on.
pair_step :
    (t : Term) (n : ℤ) (m : Terms) (p q : Option Term) (a b : Term)
    → pair_from p q ((t, n) ∷ m) ≡ some (a, b)
    → ((n ≡ pos 1) × (p ≡ none) × (pair_from (some t) q m ≡ some (a, b)))
      ⊎ ((n ≡ negsuc 0) × (q ≡ none) × (pair_from p (some t) m ≡ some (a, b)))
unfolding pair_from
pair_step t n m none none a b h = ground (arith, eqb_ℤ→eq n (pos 1), eqb_ℤ→eq n (negsuc 0))
pair_step t n m none (some d) a b h = ground (arith, eqb_ℤ→eq n (pos 1))
pair_step t n m (some c) none a b h = ground (arith, eqb_ℤ→eq n (negsuc 0))
pair_step t n m (some c) (some d) a b h = ground arith

total_shape : (m : Terms) (a b : Term) → total_of m ≡ some (a, b) → m ≡ (a, pos 1) ∷ (b, pos 1) ∷ []
unfolding total_of
total_shape [] a b h = cc
total_shape ((s, c) ∷ []) a b h = cc
total_shape ((s, c) ∷ (t, d) ∷ []) a b h = ground (arith, eqb_ℤ→eq c (pos 1), eqb_ℤ→eq d (pos 1))
total_shape ((s, c) ∷ (t, d) ∷ _ ∷ _) a b h = cc

scaled_shape :
    (m : Terms) (t : Term) (count : ℤ) → scaled_name_of m ≡ some (t, count) → m ≡ (t, count) ∷ []
unfolding scaled_name_of
scaled_shape [] t count h = cc
scaled_shape ((s, c) ∷ []) t count h = ground arith
scaled_shape ((s, c) ∷ _ ∷ _) t count h = cc

module _ (w : World) where
  dropped_zero :
      (t : Term) (c : ℤ) (m : Terms)
      → sum w (if eqb_ℤ c (pos 0) then m else (t, c) ∷ m) ≡ c *ℤ w.value t +ℤ sum w m
  unfolding sum
  dropped_zero t c m = elim (Bool-cases (eqb_ℤ c (pos 0))) [
    | inl gone ↦ rw gone (rw (eqb_ℤ→eq c (pos 0) gone) (rw zero-mul_ℤ (omega int_laws)))
    | inr left ↦ rw left
  ]

  pub scale_terms_exact :
      (m : Terms) (factor : ℤ) (n : Terms)
      → scale_terms m factor ≡ some n
      → (sum w n ≡ sum w m *ℤ factor) × (weight n ≤ weight m * magnitude factor)
  unfolding sum weight
  scale_terms_exact [] factor n h = rw (scale_nil factor n h) (rw zero-mul_ℤ refl, omega arith)
  scale_terms_exact ((t, c) ∷ m) factor n h =
      let (m', rest, shape) = scale_cons t c factor m n h in
      rw shape (
        rw dropped_zero (
            omega (
              int_laws,
              parts_of_eq (scale_terms_exact m factor m' rest).0,
              parts_of_eq (swap_factor c factor (w.value t)),
              parts_of_eq (*ℤ_add (c *ℤ w.value t) (sum w m) factor),
            )),
        omega (
          arith,
          (scale_terms_exact m factor m' rest).1,
          magnitude-mul c factor,
          dropped_weight t (c *ℤ factor) m',
        ),
      )

  abbrev value_of : Option Term → ℤ
  value_of none = pos 0
  value_of (some t) = w.value t

  pair_end :
      (p q : Option Term) (a b : Term)
      → pair_from p q [] ≡ some (a, b)
      → value_of p -ℤ value_of q ≡ w.value a -ℤ w.value b
  unfolding pair_from
  pair_end (some c) (some d) a b h = ground arith
  pair_end (some c) none a b h = cc
  pair_end none q a b h = cc

  -- The walk of `pair` finds the two terms whose difference the sum is.
  pair_from-sum :
      (m : Terms) (p q : Option Term) (a b : Term)
      → pair_from p q m ≡ some (a, b)
      → sum w m +ℤ (value_of p -ℤ value_of q) ≡ w.value a -ℤ w.value b
  unfolding sum
  pair_from-sum [] p q a b h = omega (int_laws, parts_of_eq (pair_end p q a b h))
  pair_from-sum ((t, n) ∷ m) p q a b h = elim (pair_step t n m p q a b h) [
    | inl (one, free, rest) ↦
        rw (one, free, one-mul_ℤ)
          (omega (int_laws, parts_of_eq (pair_from-sum m (some t) q a b rest)))
    | inr (minus, free, rest) ↦
        rw (minus, free, minus_one-mul_ℤ)
          (omega (int_laws, parts_of_eq (pair_from-sum m p (some t) a b rest)))
  ]

  pub pair-sum :
      (l : Linear) (a b : Term) → pair l ≡ some (a, b) → sum w l.terms ≡ w.value a -ℤ w.value b
  unfolding pair
  pair-sum l a b h = omega (int_laws, parts_of_eq (pair_from-sum l.terms none none a b h))

  pub total-sum :
      (l : Linear) (a b : Term) → total l ≡ some (a, b) → sum w l.terms ≡ w.value a +ℤ w.value b
  unfolding total
  total-sum l a b h =
      rw (total_shape l.terms a b h) (unfold sum in rw one-mul_ℤ (rw one-mul_ℤ (omega int_laws)))

  pub scaled_name-sum :
      (l : Linear) (t : Term) (count : ℤ)
      → scaled_name l ≡ some (t, count)
      → sum w l.terms ≡ count *ℤ w.value t
  unfolding scaled_name
  scaled_name-sum l t count h = rw (scaled_shape l.terms t count h) (unfold sum in +ℤ_zero _)
